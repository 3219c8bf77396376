-- ===== src/Control/Bundles/Scoped.antt =====
-- What a bundle of `signed_bundle` (src/traceguard/control/service.py) contains.
use trace_guard.Common.{
  ℕ, ◌+◌, String, ◌≡◌, refl, sym, Bool, true, false, ◌&&◌, Option, none, some, List, [], ◌∷◌, ltb,
  leb, keep, ok, arith, All, Bool-cases, Option-cases, Result-cases, inl, inr, find_last-passes,
}
use trace_guard.Control.Models.{
  agent, Actor, is_allow, is_active, PolicyRule, PolicyVersion, SignedPolicyBundle,
}
use trace_guard.Control.Plane.{Plane, require}
use trace_guard.Control.Policies.{active_policy, is_active_version}
use trace_guard.Control.Bundles.{
  names_allowed, is_permitted, with_rules, narrow, signed_bundle, signed, unsigned_bundle,
}

-- An ALLOW rule names an operation of the credential, where the credential is restricted.
abbrev pub IsWithin : Option (String → Bool) → PolicyRule → Type 0
IsWithin none r = Unit
IsWithin (some allowed) r =
    is_allow r.decision ≡ true → names_allowed allowed r.match.operation ≡ true

-- A rule that the credential's operations leave out: an ALLOW rule for none of them.
abbrev pub IsLeftOut : (String → Bool) → PolicyRule → Type 0
IsLeftOut allowed r =
    (is_allow r.decision ≡ true) × (names_allowed allowed r.match.operation ≡ false)

-- The second list is the first one, in its order, less what the operations leave out.
pub data IsNarrowing (o : Option (String → Bool)) : List PolicyRule → List PolicyRule → Type 0 where
  all_done : IsNarrowing o [] []
  kept :
      (r : PolicyRule) (rules left : List PolicyRule)
      → IsNarrowing o rules left
      → IsNarrowing o (r ∷ rules) (r ∷ left)
  left_out :
      (allowed : String → Bool) (r : PolicyRule) (rules left : List PolicyRule)
      → o ≡ some allowed
      → IsLeftOut allowed r
      → IsNarrowing o rules left
      → IsNarrowing o (r ∷ rules) left

IsNarrowing-keep :
    (allowed : String → Bool) (rules : List PolicyRule)
    → IsNarrowing (some allowed) rules (keep (is_permitted allowed) rules)
IsNarrowing-keep allowed [] = all_done
IsNarrowing-keep allowed (r ∷ rules) =
    let rest = IsNarrowing-keep allowed rules in
    elim (Bool-cases (is_permitted allowed r)) [
      | inl t ↦ rw t (kept r rules _ rest)
      | inr f ↦ rw f (left_out allowed r rules _ refl (ground arith, ground arith) rest)
    ]

IsNarrowing-all : (rules : List PolicyRule) → IsNarrowing none rules rules
IsNarrowing-all [] = all_done
IsNarrowing-all (r ∷ rules) = kept r rules rules (IsNarrowing-all rules)

All-keep-permitted :
    (allowed : String → Bool) (rules : List PolicyRule)
    → All (IsWithin (some allowed)) (keep (is_permitted allowed) rules)
All-keep-permitted allowed [] = tt
All-keep-permitted allowed (r ∷ rules) = elim (Bool-cases (is_permitted allowed r)) [
  | inl t ↦ rw t (λ a. ground arith, All-keep-permitted allowed rules)
  | inr f ↦ rw f (All-keep-permitted allowed rules)
]

All-unrestricted : (rules : List PolicyRule) → All (IsWithin none) rules
All-unrestricted [] = tt
All-unrestricted (r ∷ rules) = (tt, All-unrestricted rules)

-- A bundle `b` that the plane signed for an actor.
pub record IsIssued (sign : SignedPolicyBundle → String) (key_id : String) (now ttl : ℕ)
    (tenant : String) (actor : Actor) (s : Plane) (b : SignedPolicyBundle) : Type 0 where
  pub policy : PolicyVersion
  pub is_current : active_policy s tenant ≡ some policy
  -- Only the rules may differ from the active policy's.
  pub same_policy :
      b.policy
      ≡ record policy { contents = record policy.contents { rules = b.policy.contents.rules } }
  pub narrowed : IsNarrowing actor.allowed_operations policy.contents.rules b.policy.contents.rules
  pub in_force : is_active b.policy.status ≡ true
  pub within : All (IsWithin actor.allowed_operations) b.policy.contents.rules
  pub for_tenant : b.tenant_id ≡ tenant
  pub for_subject : b.audience ≡ actor.subject
  pub for_credential : some b.service_key_id ≡ actor.service_key_id
  pub by_key : b.key_id ≡ key_id
  pub of_epoch : s.epochs tenant ≡ some b.policy_epoch
  pub zones : (b.issued_zone && b.expires_zone) ≡ true
  pub starts : b.issued_at ≡ now
  pub ends : b.expires_at ≡ now + ttl
  pub short : (ltb 0 ttl && leb ttl 300) ≡ true
  pub signature_of : b.signature ≡ sign (record b { signature = "" })

-- What narrowing keeps.
record IsNarrowed (o : Option (String → Bool)) (v w : PolicyVersion) : Type 0 where
  same_policy : w ≡ record v { contents = record v.contents { rules = w.contents.rules } }
  narrowed : IsNarrowing o v.contents.rules w.contents.rules
  same_status : w.status ≡ v.status
  within : All (IsWithin o) w.contents.rules

narrow-IsNarrowed :
    (o : Option (String → Bool)) (v w : PolicyVersion) → narrow o v ≡ ok w → IsNarrowed o v w
unfolding narrow
narrow-IsNarrowed none v w h =
    let e : v ≡ w = cc h in
    rw (← e) (record {
      same_policy = refl;
      narrowed = IsNarrowing-all v.contents.rules;
      same_status = refl;
      within = All-unrestricted v.contents.rules;
    })
narrow-IsNarrowed (some allowed) v w h =
    by_rules (keep (is_permitted allowed) v.contents.rules) refl
      (All-keep-permitted allowed v.contents.rules) (IsNarrowing-keep allowed v.contents.rules) h
  where
    by_rules :
        (rules : List PolicyRule)
        → keep (is_permitted allowed) v.contents.rules ≡ rules
        → All (IsWithin (some allowed)) (keep (is_permitted allowed) v.contents.rules)
        → IsNarrowing (some allowed) v.contents.rules (keep (is_permitted allowed) v.contents.rules)
        → narrow (some allowed) v ≡ ok w
        → IsNarrowed (some allowed) v w
    by_rules [] e a n g = cc (rw e at g)
    by_rules (r ∷ rules) e a n g =
        let f : with_rules v (r ∷ rules) ≡ w = cc (rw e at g) in
        rw (← f) (record {
          same_policy = refl;
          narrowed = rw e at n;
          same_status = refl;
          within = rw e at a;
        })

active_policy-is_active :
    (s : Plane) (tenant : String) (v : PolicyVersion)
    → active_policy s tenant ≡ some v
    → is_active v.status ≡ true
unfolding active_policy
active_policy-is_active s tenant v found =
    find_last-passes is_active_version (s.policies tenant) v found

module _ (sign : SignedPolicyBundle → String) (key_id : String) where
  -- A bundle that is returned is signed over what it holds, for the actor's subject and credential,
  -- with the tenant's active policy of the current epoch, for at most five minutes. Its policy is
  -- the active one but for its rules: these are the active policy's rules in their order, less ALLOW
  -- rules that name no operation of a restricted credential; and each ALLOW rule that is left names
  -- an operation that the credential may perform.
  pub signed_bundle-IsIssued :
      (now ttl : ℕ) (tenant : String) (actor : Actor) (b : SignedPolicyBundle) (s : Plane)
      → signed_bundle sign key_id now ttl tenant actor s ≡ ok b
      → IsIssued sign key_id now ttl tenant actor s b
  unfolding signed_bundle
  signed_bundle-IsIssued now ttl tenant actor b s h =
      elim (Result-cases (require s actor agent tenant)) [
        | inl (e, refused) ↦ cc (rw (refused, signed_bundle) at h)
        | inr (u, granted) ↦ elim (Option-cases actor.service_key_id) [
          | inl missing ↦ cc (rw (granted, signed_bundle, missing) at h)
          | inr (credential, key) ↦ elim (Bool-cases (ltb 0 ttl && leb ttl 300)) [
            | inr long ↦ cc (rw (granted, signed_bundle, key, long) at h)
            | inl short ↦ elim (Option-cases (active_policy s tenant)) [
              | inl nothing ↦ cc (rw (granted, signed_bundle, key, short, nothing) at h)
              | inr (v, found) ↦ elim (Result-cases (narrow actor.allowed_operations v)) [
                | inl (e, empty) ↦ cc (rw (granted, signed_bundle, key, short, found, empty) at h)
                | inr (w, narrowed) ↦ elim (Option-cases (s.epochs tenant)) [
                  | inl unset ↦
                      cc (rw (granted, signed_bundle, key, short, found, narrowed, unset) at h)
                  | inr (epoch, current) ↦
                      (let e : signed sign key_id
                              (unsigned_bundle now ttl key_id tenant actor credential w epoch)
                            ≡ b =
                          cc (
                            rw (granted, signed_bundle, key, short, found, narrowed, current) at
                              h) in
                        let n = narrow-IsNarrowed actor.allowed_operations v w narrowed in
                        rw (← e) (record {
                          policy = v;
                          is_current = found;
                          same_policy = n.same_policy;
                          narrowed = n.narrowed;
                          in_force = rw n.same_status (active_policy-is_active s tenant v found);
                          within = n.within;
                          for_tenant = refl;
                          for_subject = refl;
                          for_credential = sym key;
                          by_key = refl;
                          of_epoch = current;
                          zones = refl;
                          starts = refl;
                          ends = refl;
                          short = short;
                          signature_of = refl;
                        }))
                ]
              ]
            ]
          ]
        ]
      ]
