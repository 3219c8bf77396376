-- ===== src/Control/Bundles.antt =====
-- `signed_bundle` of src/traceguard/control/service.py: the policy that an agent may use offline.
pub mod Scoped
use trace_guard.Common.{
  ℕ, ◌+◌, String, Bool, true, false, ◌&&◌, ◌||◌, not, Option, none, some, List, [], ◌∷◌, ltb, leb,
  if◌then◌else◌, keep, Result, ok, err, authorization_error, value_error, key_error,
}
use trace_guard.Control.Models.{
  agent, Actor, is_allow, PolicyRule, PolicyVersion, SignedPolicyBundle,
}
use trace_guard.Control.Plane.{Plane, require}
use trace_guard.Control.Policies.{active_policy}

-- `rule.match.operation in actor.allowed_operations`
abbrev pub names_allowed : (String → Bool) → Option String → Bool
names_allowed allowed none = false
names_allowed allowed (some operation) = allowed operation

abbrev pub is_permitted : (String → Bool) → PolicyRule → Bool
is_permitted allowed rule =
    not (is_allow rule.decision) || names_allowed allowed rule.match.operation

abbrev pub with_rules : PolicyVersion → List PolicyRule → PolicyVersion
with_rules v rules = record v { contents = record v.contents { rules = rules } }

abbrev nonempty_rules : PolicyVersion → List PolicyRule → Result PolicyVersion
nonempty_rules v [] = err (value_error "no policy within credential operation scope")
nonempty_rules v (r ∷ rules) = ok (with_rules v (r ∷ rules))

-- The rules that the credential's operations leave.
unfoldable pub narrow : Option (String → Bool) → PolicyVersion → Result PolicyVersion
narrow none v = ok v
narrow (some allowed) v = nonempty_rules v (keep (is_permitted allowed) v.contents.rules)

abbrev pub unsigned_bundle :
    ℕ → ℕ → String → String → Actor → String → PolicyVersion → ℕ → SignedPolicyBundle
unsigned_bundle now ttl key_id tenant actor credential v epoch = record {
  tenant_id = tenant;
  policy = v;
  issued_at = now;
  issued_zone = true;
  expires_at = now + ttl;
  expires_zone = true;
  key_id = key_id;
  signature = "";
  audience = actor.subject;
  service_key_id = credential;
  policy_epoch = epoch;
}

-- `sign` signs a bundle whose signature is left out (here: empty).
module _ (sign : SignedPolicyBundle → String) (key_id : String) where
  abbrev pub signed : SignedPolicyBundle → SignedPolicyBundle
  signed b = record b { signature = sign b }

  abbrev pub bundle_of :
      ℕ → ℕ → String → Actor → String → Option ℕ → Result PolicyVersion → Result SignedPolicyBundle
  bundle_of now ttl tenant actor credential epoch (err e) = err e
  bundle_of now ttl tenant actor credential none (ok v) = err (key_error tenant)
  bundle_of now ttl tenant actor credential (some epoch) (ok v) =
      ok (signed (unsigned_bundle now ttl key_id tenant actor credential v epoch))

  abbrev pub bundle_from :
      ℕ → ℕ → String → Actor → String → Option ℕ → Option PolicyVersion → Result SignedPolicyBundle
  bundle_from now ttl tenant actor credential epoch none = err (value_error "no active policy")
  bundle_from now ttl tenant actor credential epoch (some v) =
      bundle_of now ttl tenant actor credential epoch (narrow actor.allowed_operations v)

  abbrev pub bundle_as : Option String → ℕ → ℕ → String → Actor → Plane → Result SignedPolicyBundle
  bundle_as none now ttl tenant actor s =
      err (authorization_error "bundle requires a scoped service credential")
  bundle_as (some credential) now ttl tenant actor s =
      if not (ltb 0 ttl && leb ttl 300)
      then err (value_error "offline bundle TTL must be within five minutes")
      else bundle_from now ttl tenant actor credential (s.epochs tenant) (active_policy s tenant)

  -- The clock, the lifetime, the tenant and the actor; nothing of the plane changes.
  unfoldable pub signed_bundle : ℕ → ℕ → String → Actor → Plane → Result SignedPolicyBundle
  signed_bundle now ttl tenant actor s = elim (require s actor agent tenant) [
    | err e ↦ err e
    | ok _ ↦ bundle_as actor.service_key_id now ttl tenant actor s
  ]
