-- ===== src/Client/Tests.antt =====
-- A bundle that the plane signs, a cache that installs it, and what the cache then decides, on
-- concrete input (src/traceguard/sdk.py).
use trace_guard.Common.{
  ℕ, ◌≤◌, String, ◌≡◌, refl, Bool, true, ◌&&◌, none, some, List, [], ◌∷◌, ◌==◌, ok, arith,
}
use trace_guard.Json.{end}
use trace_guard.Policy.Matching.{matches, target_passes, outranked, select_rule}
use trace_guard.Policy.Network.{
  target_within_scope, covers, build, check_host, check_parts, destination,
}
use trace_guard.Policy.Tests.{two_rules, search, rule_allowing, any_action}
use trace_guard.Control.Models.{http, PolicyRule, ActionRequest, SignedPolicyBundle}
use trace_guard.Control.Plane.{require}
use trace_guard.Control.Policies.{active_policy}
use trace_guard.Control.Bundles.{signed_bundle, narrow, signed, unsigned_bundle}
use trace_guard.Control.Bundles.Scoped.{IsIssued, signed_bundle-IsIssued}
use trace_guard.Control.Tests.{known, bot, in_force, installed}
use trace_guard.Client.{PolicyCache, install, run, evaluate, cached_response}
use trace_guard.Client.Trust.{HoldsTrusted, SameOwner, run-HoldsTrusted}
use trace_guard.Client.Offline.{IsCovered, evaluate-IsCovered}
use trace_guard.Client.Handover.{bundle_installs}

abbrev sign : SignedPolicyBundle → String
sign b = "signed by the plane"

abbrev verify : String → SignedPolicyBundle → String → Bool
verify key b signature = key == "public" && signature == "signed by the plane"

abbrev fresh : PolicyCache
fresh = record {
  public_key = "public";
  tenant_id = "acme";
  audience = "bot";
  service_key_id = "key-1";
  key_id = "plane-1";
  minimum_epoch = 0;
  bundle = none;
}

abbrev issued : SignedPolicyBundle
issued = signed sign "plane-1" (unsigned_bundle 100 300 "plane-1" "acme" bot "key-1" installed 1)

bundle_issued : signed_bundle sign "plane-1" 100 300 "acme" bot in_force ≡ ok issued
unfolding signed_bundle require active_policy narrow
bundle_issued = refl

signed_bundle-IsIssued_example : IsIssued sign "plane-1" 100 300 "acme" bot in_force issued
signed_bundle-IsIssued_example =
    signed_bundle-IsIssued sign "plane-1" 100 300 "acme" bot issued in_force bundle_issued

one_active : active_policy in_force "acme" ≡ some installed
unfolding active_policy
one_active = refl

bundle_installs_example :
    install verify 110 issued fresh
    ≡ (ok tt, record fresh { bundle = some issued; minimum_epoch = 1 })
bundle_installs_example =
    bundle_installs sign verify "plane-1" "public" "acme" "key-1" bot 100 110 300 issued installed
      in_force fresh (λ x. refl) bundle_issued one_active refl refl
      (record {
        key = refl;
        public = refl;
        for_tenant = refl;
        for_subject = refl;
        for_credential = refl;
        not_later = omega arith;
      })
      (omega arith) (omega arith)

-- An older bundle is offered after a newer one, and is refused.
abbrev newer : SignedPolicyBundle
newer = record issued { policy_epoch = 5 }

abbrev offers : List (ℕ × SignedPolicyBundle)
offers = (110, newer) ∷ (120, issued) ∷ []

newer_kept : (run verify offers fresh).minimum_epoch ≡ 5
unfolding install
newer_kept = refl

fresh-HoldsTrusted : HoldsTrusted verify fresh
fresh-HoldsTrusted b e = cc e

run-HoldsTrusted_example :
    SameOwner fresh (run verify offers fresh)
    × (fresh.minimum_epoch ≤ (run verify offers fresh).minimum_epoch)
    × HoldsTrusted verify (run verify offers fresh)
run-HoldsTrusted_example = run-HoldsTrusted verify offers fresh fresh-HoldsTrusted

abbrev rule_reading : PolicyRule
rule_reading = record (rule_allowing "GET") {
  match = record any_action {
    kind = some http;
    operation = some "GET";
    target_prefix = some "https://api.example/v1/";
  };
  cache_eligible = true;
}

abbrev reading : SignedPolicyBundle
reading = record issued {
  policy = record installed { contents = record two_rules.contents { rules = rule_reading ∷ [] } };
}

abbrev offline : PolicyCache
offline = record fresh { bundle = some reading; minimum_epoch = 1 }

abbrev users : ActionRequest
users = record (search "weather") {
  kind = http;
  operation = "GET";
  target = some "https://api.example/v1/users";
  arguments = end;
}

users_allowed :
    evaluate known 200 users offline ≡ ok (cached_response known reading rule_reading users)
unfolding evaluate select_rule outranked matches target_passes target_within_scope destination
    check_parts check_host build covers
users_allowed = refl

evaluate-IsCovered_example :
    IsCovered known 200 users offline (cached_response known reading rule_reading users)
evaluate-IsCovered_example =
    evaluate-IsCovered known 200 users offline (cached_response known reading rule_reading users)
      users_allowed
