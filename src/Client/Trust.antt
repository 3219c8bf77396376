-- ===== src/Client/Trust.antt =====
-- Which bundles `SignedPolicyCache` of src/traceguard/sdk.py holds after any installs.
use trace_guard.Common.{
  ℕ, ◌+◌, ◌≤◌, String, ◌≡◌, refl, ◌∙◌, Bool, true, false, ◌||◌, not, some, List, [], ◌∷◌, ◌==◌, ltb,
  arith, Bool-cases, inl, inr, or-eq-false, ==→eq,
}
use trace_guard.Control.Models.{is_active, SignedPolicyBundle}
use trace_guard.Client.{PolicyCache, install, run, is_forged, is_foreign, is_untimely}

-- What the cache is set up with.
abbrev pub SameOwner : PolicyCache → PolicyCache → Type 0
SameOwner c c' =
    (c'.public_key ≡ c.public_key)
    × (c'.tenant_id ≡ c.tenant_id)
    × (c'.audience ≡ c.audience)
    × (c'.service_key_id ≡ c.service_key_id)
    × (c'.key_id ≡ c.key_id)

not-false : (b : Bool) → not b ≡ false → b ≡ true
not-false b h = ground arith

owner_trans : (c c' c'' : PolicyCache) → SameOwner c c' → SameOwner c' c'' → SameOwner c c''
owner_trans c c' c'' (a, b, d, e, f) (a', b', d', e', f') = (a' ∙ a, b' ∙ b, d' ∙ d, e' ∙ e, f' ∙ f)

own_parts :
    (t q a s f e : Bool)
    → (not t || not q || not a || not s || not f || e) ≡ false
    → (t ≡ true) × (q ≡ true) × (a ≡ true) × (s ≡ true) × (f ≡ true) × (e ≡ false)
own_parts t q a s f e h = ground arith

module _ (verify : String → SignedPolicyBundle → String → Bool) where
  -- A bundle that a cache may hold: signed, for the cache's owner, active, short-lived, and of the
  -- epoch below which the cache accepts nothing.
  pub record IsTrusted (c : PolicyCache) (b : SignedPolicyBundle) : Type 0 where
    pub genuine : verify c.public_key (record b { signature = "" }) b.signature ≡ true
    pub same_key : b.key_id ≡ c.key_id
    pub same_tenant : b.tenant_id ≡ c.tenant_id
    pub policy_tenant : b.policy.tenant_id ≡ c.tenant_id
    pub same_audience : b.audience ≡ c.audience
    pub same_credential : b.service_key_id ≡ c.service_key_id
    pub in_force : is_active b.policy.status ≡ true
    pub pinned : b.policy_epoch ≡ c.minimum_epoch
    pub short : b.expires_at ≤ b.issued_at + 300

  abbrev pub HoldsTrusted : PolicyCache → Type 0
  HoldsTrusted c = (b : SignedPolicyBundle) → c.bundle ≡ some b → IsTrusted c b

  -- The tests of `install`, passed.
  record IsAccepted (now : ℕ) (b : SignedPolicyBundle) (c : PolicyCache) : Type 0 where
    genuine : verify c.public_key (record b { signature = "" }) b.signature ≡ true
    same_key : b.key_id ≡ c.key_id
    same_tenant : b.tenant_id ≡ c.tenant_id
    policy_tenant : b.policy.tenant_id ≡ c.tenant_id
    same_audience : b.audience ≡ c.audience
    same_credential : b.service_key_id ≡ c.service_key_id
    in_force : is_active b.policy.status ≡ true
    not_older : c.minimum_epoch ≤ b.policy_epoch
    short : b.expires_at ≤ b.issued_at + 300

  accepted :
      (now : ℕ) (b : SignedPolicyBundle) (c : PolicyCache)
      → is_forged verify c b ≡ false
      → is_foreign c b ≡ false
      → is_untimely now b ≡ false
      → IsAccepted now b c
  accepted now b c genuine own timely =
      let (k, v) = or-eq-false _ _ genuine in
      let (t, q, a, s, f, e) =
        own_parts (b.tenant_id == c.tenant_id) (b.policy.tenant_id == c.tenant_id)
          (b.audience == c.audience) (b.service_key_id == c.service_key_id)
          (is_active b.policy.status) (ltb b.policy_epoch c.minimum_epoch) own in
      record {
        genuine = not-false _ v;
        same_key = ==→eq b.key_id c.key_id (not-false _ k);
        same_tenant = ==→eq b.tenant_id c.tenant_id t;
        policy_tenant = ==→eq b.policy.tenant_id c.tenant_id q;
        same_audience = ==→eq b.audience c.audience a;
        same_credential = ==→eq b.service_key_id c.service_key_id s;
        in_force = f;
        not_older = ground arith;
        short = ground arith;
      }

  -- One install: an owner of its own, an epoch that does not fall, and a trusted bundle.
  record IsStep (c c' : PolicyCache) : Type 0 where
    owner : SameOwner c c'
    rises : c.minimum_epoch ≤ c'.minimum_epoch
    trusted : HoldsTrusted c → HoldsTrusted c'

  stays : (c : PolicyCache) → IsStep c c
  stays c = record { owner = (refl, refl, refl, refl, refl); rises = omega arith; trusted = λ h. h }

  install-IsStep :
      (now : ℕ) (b : SignedPolicyBundle) (c : PolicyCache) → IsStep c (install verify now b c).1
  unfolding install
  install-IsStep now b c = elim (Bool-cases (is_forged verify c b)) [
    | inl forged ↦ rw forged (stays c)
    | inr genuine ↦ elim (Bool-cases (is_foreign c b)) [
      | inl foreign ↦ rw (genuine, foreign) (stays c)
      | inr own ↦ elim (Bool-cases (is_untimely now b)) [
        | inl late ↦ rw (genuine, own, late) (stays c)
        | inr timely ↦
            (let a = accepted now b c genuine own timely in
              rw (genuine, own, timely)
                (record {
                  owner = (refl, refl, refl, refl, refl);
                  rises = a.not_older;
                  trusted = λ h b' e.
                      (let same : b ≡ b' = cc e in
                        rw (← same) (record {
                          genuine = a.genuine;
                          same_key = a.same_key;
                          same_tenant = a.same_tenant;
                          policy_tenant = a.policy_tenant;
                          same_audience = a.same_audience;
                          same_credential = a.same_credential;
                          in_force = a.in_force;
                          pinned = refl;
                          short = a.short;
                        }));
                }))
      ]
    ]
  ]

  then_run : (c c' c'' : PolicyCache) → IsStep c c' → IsStep c' c'' → IsStep c c''
  then_run c c' c'' first second = record {
    owner = owner_trans c c' c'' first.owner second.owner;
    rises = omega (arith, first.rises, second.rises);
    trusted = λ h. second.trusted (first.trusted h);
  }

  run-IsStep :
      (calls : List (ℕ × SignedPolicyBundle)) (c : PolicyCache) → IsStep c (run verify calls c)
  run-IsStep [] c = stays c
  run-IsStep ((now, b) ∷ calls) c =
      then_run c (install verify now b c).1 (run verify calls (install verify now b c).1)
        (install-IsStep now b c) (run-IsStep calls (install verify now b c).1)

  -- From a cache whose bundle, if any, is trusted, whatever bundles are offered in whatever order:
  -- the cache keeps its owner, the epoch that it asks for never falls, and the bundle that it holds
  -- is signed, for its owner, in force, valid for at most five minutes, and of that epoch.
  pub run-HoldsTrusted :
      (calls : List (ℕ × SignedPolicyBundle)) (c : PolicyCache)
      → HoldsTrusted c
      → SameOwner c (run verify calls c)
        × (c.minimum_epoch ≤ (run verify calls c).minimum_epoch)
        × HoldsTrusted (run verify calls c)
  run-HoldsTrusted calls c h =
      let step = run-IsStep calls c in (step.owner, step.rises, step.trusted h)
