-- ===== src/Client.antt =====
-- `SignedPolicyCache` of src/traceguard/sdk.py: decisions without the service. A bundle that is
-- stored as JSON and read back is the bundle. `verify` checks a signature over a bundle whose
-- signature is left out (here: empty).
pub mod Trust
pub mod Offline
pub mod Handover
mod Tests
use Prim.Native.String.{◌++◌}
use trace_guard.Common.{
  ℕ, ◌+◌, String, Bool, true, false, ◌&&◌, ◌||◌, not, Option, none, some, List, [], ◌∷◌, ◌==◌, ltb,
  leb, if◌then◌else◌, Result, ok, err, policy_unavailable,
}
use trace_guard.Json.{Json, null, get_field}
use trace_guard.Policy.Matching.{MatchLibrary, select_rule}
use trace_guard.Control.Models.{
  http, same_kind, allow, is_allow, is_active, ActionRequest, PolicyRule, SignedPolicyBundle,
  DecisionResponse,
}
use trace_guard.Control.Platform.{Platform, action_digest}

pub record PolicyCache : Type 0 where
  pub public_key : String
  pub tenant_id : String
  pub audience : String
  pub service_key_id : String
  pub key_id : String
  pub minimum_epoch : ℕ
  pub bundle : Option SignedPolicyBundle

abbrev pub is_null : Json → Bool
is_null null = true
is_null _ = false

abbrev pub is_foreign : PolicyCache → SignedPolicyBundle → Bool
is_foreign c b =
    not (b.tenant_id == c.tenant_id)
    || not (b.policy.tenant_id == c.tenant_id)
    || not (b.audience == c.audience)
    || not (b.service_key_id == c.service_key_id)
    || not (is_active b.policy.status)
    || ltb b.policy_epoch c.minimum_epoch

abbrev pub is_short_lived : SignedPolicyBundle → Bool
is_short_lived b = ltb b.issued_at b.expires_at && leb b.expires_at (b.issued_at + 300)

abbrev pub is_untimely : ℕ → SignedPolicyBundle → Bool
is_untimely now b =
    not b.issued_zone
    || not b.expires_zone
    || leb b.expires_at now
    || ltb (now + 30) b.issued_at
    || not (is_short_lived b)

-- The actions that may be decided offline.
abbrev pub is_read_only : ActionRequest → Bool
is_read_only a =
    same_kind a.kind http
    && (a.operation == "GET" || a.operation == "HEAD")
    && is_null (get_field "json" a.arguments)

module _ (verify : String → SignedPolicyBundle → String → Bool) where
  abbrev pub is_forged : PolicyCache → SignedPolicyBundle → Bool
  is_forged c b =
      not (b.key_id == c.key_id)
      || not (verify c.public_key (record b { signature = "" }) b.signature)

  unfoldable pub install : ℕ → SignedPolicyBundle → PolicyCache → Result (Unit {0}) × PolicyCache
  install now b c =
      if is_forged c b
      then (err (policy_unavailable "policy bundle signature or key is invalid"), c)
      else if is_foreign c b
      then (err (policy_unavailable "policy bundle audience, scope or epoch is invalid"), c)
      else if is_untimely now b
      then (err (policy_unavailable "policy bundle lifetime is invalid or expired"), c)
      else (ok tt, record c { bundle = some b; minimum_epoch = b.policy_epoch })

  abbrev pub run : List (ℕ × SignedPolicyBundle) → PolicyCache → PolicyCache
  run [] c = c
  run ((now, b) ∷ calls) c = run calls (install now b c).1

module _ (p : Platform) where
  abbrev pub cached_response : SignedPolicyBundle → PolicyRule → ActionRequest → DecisionResponse
  cached_response b rule action = record {
    decision = allow;
    reason = "cached policy: " ++ rule.reason;
    policy_id = some b.policy.policy_id;
    policy_version = some b.policy.version;
    audit_id = "cache-pending-reconciliation";
    review_id = none;
    rewritten_arguments = none;
    from_cache = true;
    action_digest = some (action_digest p action);
  }

  abbrev pub by_cached_rule :
      SignedPolicyBundle → ActionRequest → Option PolicyRule → Result DecisionResponse
  by_cached_rule b action none =
      err (policy_unavailable "cached policy cannot authorize this action")
  by_cached_rule b action (some rule) =
      if is_allow rule.decision && rule.cache_eligible
      then ok (cached_response b rule action)
      else err (policy_unavailable "cached policy cannot authorize this action")

  abbrev pub by_bundle :
      ℕ → ActionRequest → PolicyCache → Option SignedPolicyBundle → Result DecisionResponse
  by_bundle now action c none = err (policy_unavailable "no signed bundle is installed")
  by_bundle now action c (some b) =
      if leb b.expires_at now || not (action.tenant_id == c.tenant_id)
      then err (policy_unavailable "policy bundle has expired or tenant mismatches")
      else if not (is_read_only action)
      then err (policy_unavailable "offline authorization supports read-only HTTP only")
      else by_cached_rule b action (select_rule p.matching b.policy action)

  unfoldable pub evaluate : ℕ → ActionRequest → PolicyCache → Result DecisionResponse
  evaluate now action c = by_bundle now action c c.bundle
