-- ===== src/Client/Handover.antt =====
-- From `signed_bundle` of src/traceguard/control/service.py to `SignedPolicyCache.install` of
-- src/traceguard/sdk.py.
use trace_guard.Common.{
  ℕ, ◌+◌, ◌≤◌, ◌<◌, String, ◌≡◌, refl, sym, ap, ◌∙◌, Bool, true, false, ◌||◌, not, some, ◌==◌, ltb,
  ok, arith, eq_iff,
}
use trace_guard.Control.Models.{Actor, SignedPolicyBundle, PolicyVersion, is_active}
use trace_guard.Control.Plane.{Plane}
use trace_guard.Control.Policies.{active_policy}
use trace_guard.Control.Bundles.{signed_bundle}
use trace_guard.Control.Bundles.Scoped.{signed_bundle-IsIssued}
use trace_guard.Client.{PolicyCache, install, is_forged, is_foreign, is_untimely}

-- A cache that is set up for an actor, and that has not seen a later epoch.
pub record IsFor (key_id public_key tenant credential : String) (actor : Actor) (epoch : ℕ)
    (c : PolicyCache) : Type 0 where
  pub key : c.key_id ≡ key_id
  pub public : c.public_key ≡ public_key
  pub for_tenant : c.tenant_id ≡ tenant
  pub for_subject : c.audience ≡ actor.subject
  pub for_credential : c.service_key_id ≡ credential
  pub not_later : c.minimum_epoch ≤ epoch

all_own :
    (t q a s f e : Bool)
    → t ≡ true
    → q ≡ true
    → a ≡ true
    → s ≡ true
    → f ≡ true
    → e ≡ false
    → (not t || not q || not a || not s || not f || e) ≡ false
all_own t q a s f e t' q' a' s' f' e' = ground arith

eq-test : (s t : String) → s ≡ t → (s == t) ≡ true
eq-test s t e = (eq_iff s t).1 e

module _ (sign : SignedPolicyBundle → String)
    (verify : String → SignedPolicyBundle → String → Bool) where
  -- The bundle that the plane signs for an actor is accepted by the actor's cache: where the cache
  -- verifies with the key that the plane signs with, is set up for the tenant, the subject and the
  -- credential, and has seen no later epoch, and the policy belongs to the tenant, an install
  -- before the bundle expires succeeds and the cache then holds the bundle and asks for its epoch.
  pub bundle_installs :
      (key_id public_key tenant credential : String) (actor : Actor) (now later ttl : ℕ)
      (b : SignedPolicyBundle) (v : PolicyVersion) (s : Plane) (c : PolicyCache)
      → ((x : SignedPolicyBundle) → verify public_key x (sign x) ≡ true)
      → signed_bundle sign key_id now ttl tenant actor s ≡ ok b
      → active_policy s tenant ≡ some v
      → v.tenant_id ≡ tenant
      → actor.service_key_id ≡ some credential
      → IsFor key_id public_key tenant credential actor b.policy_epoch c
      → now ≤ later
      → later < now + ttl
      → install verify later b c
        ≡ (ok tt, record c { bundle = some b; minimum_epoch = b.policy_epoch })
  unfolding install
  bundle_installs key_id public_key tenant credential actor now later ttl b v s c verifies issued
        current own key h le lt =
      let i = signed_bundle-IsIssued sign key_id now ttl tenant actor b s issued in
      let same_version : v ≡ i.policy = cc (current, i.is_current) in
      let same_credential : b.service_key_id ≡ credential = cc (i.for_credential, key) in
      let genuine : verify c.public_key (record b { signature = "" }) b.signature ≡ true =
        rw (h.public, i.signature_of) (verifies (record b { signature = "" })) in
      let forged : is_forged verify c b ≡ false =
        rw (eq-test b.key_id c.key_id (i.by_key ∙ sym h.key), genuine) refl in
      let foreign : is_foreign c b ≡ false =
        all_own (b.tenant_id == c.tenant_id) (b.policy.tenant_id == c.tenant_id)
          (b.audience == c.audience) (b.service_key_id == c.service_key_id)
          (is_active b.policy.status) (ltb b.policy_epoch c.minimum_epoch)
          (eq-test b.tenant_id c.tenant_id (i.for_tenant ∙ sym h.for_tenant))
          (eq-test b.policy.tenant_id c.tenant_id (
            ap (λ (x : PolicyVersion). x.tenant_id) i.same_policy
            ∙ ap (λ (x : PolicyVersion). x.tenant_id) (sym same_version)
            ∙ own
            ∙ sym h.for_tenant))
          (eq-test b.audience c.audience (i.for_subject ∙ sym h.for_subject))
          (eq-test b.service_key_id c.service_key_id (same_credential ∙ sym h.for_credential))
          i.in_force (let fresh = h.not_later in ground arith) in
      let timely : is_untimely later b ≡ false =
        (let a = i.zones in
          let begin = i.starts in let end = i.ends in let short = i.short in ground arith) in
      rw (forged, foreign, timely) refl
