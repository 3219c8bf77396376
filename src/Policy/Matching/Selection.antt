-- ===== src/Policy/Matching/Selection.antt =====
-- Which rule src/traceguard/policy/matching.py selects.
use mathlib.Core.Path.{subst}
use trace_guard.Common.{
  ℕ, ◌≤◌, ◌≡◌, refl, Bool, true, false, none, some, List, [], ◌∷◌, any, keep, All, arith,
  Bool-cases, ◌⊎◌, inl, inr, if◌then◌else◌,
}
use trace_guard.Control.Models.{Decision, ActionRequest, PolicyRule, PolicyVersion, is_allow}
use trace_guard.Policy.Matching.{
  MatchLibrary, matches, outranked, precedence, max_from, max_rule, select_rule,
}

-- The chosen rule outranks or equals the best so far, and every rule that was passed.
max_from-le :
    (best : PolicyRule) (rules : List PolicyRule)
    → precedence best.decision ≤ precedence (max_from best rules).decision
unfolding outranked
max_from-le best [] = omega arith
max_from-le best (r ∷ rules) =
    ground (arith, max_from-le (if outranked best r then r else best) rules)

-- A rule stands in a list.
abbrev pub In : PolicyRule → List PolicyRule → Type 0
In r [] = ⊥
In r (s ∷ rules) = (s ≡ r) ⊎ In r rules

max_from-ge :
    (best : PolicyRule) (rules : List PolicyRule)
    → All (λ r. precedence r.decision ≤ precedence (max_from best rules).decision) rules
unfolding outranked
max_from-ge best [] = tt
max_from-ge best (r ∷ rules) =
    let next = (if outranked best r then r else best) in
    (ground (arith, max_from-le next rules), max_from-ge next rules)

one_of :
    (b : Bool) (x best r : PolicyRule) (rules : List PolicyRule)
    → (if b then x else best) ≡ r
    → (best ≡ r) ⊎ In r (x ∷ rules)
one_of true x best r rules e = inr (inl e)
one_of false x best r rules e = inl e

max_from-In :
    (best : PolicyRule) (rules : List PolicyRule) (r : PolicyRule)
    → max_from best rules ≡ r
    → (best ≡ r) ⊎ In r rules
max_from-In best [] r e = inl e
max_from-In best (x ∷ rules) r e =
    elim (max_from-In (if outranked best x then x else best) rules r e) [
      | inl f ↦ one_of (outranked best x) x best r rules f
      | inr i ↦ inr (inr i)
    ]

In-keep :
    (p : PolicyRule → Bool) (r : PolicyRule) (rules : List PolicyRule)
    → In r (keep p rules)
    → In r rules × (p r ≡ true)
In-keep p r [] i = absurd i
In-keep p r (s ∷ rules) i = by_test (p s) refl (In-keep p r rules) i
  where
    later : In r rules × (p r ≡ true) → In r (s ∷ rules) × (p r ≡ true)
    later h = (inr h.0, h.1)

    by_place :
        p s ≡ true
        → (In r (keep p rules) → In r rules × (p r ≡ true))
        → (s ≡ r) ⊎ In r (keep p rules)
        → In r (s ∷ rules) × (p r ≡ true)
    by_place t ih (inl e) = (inl e, rw e at t)
    by_place t ih (inr j) = later (ih j)

    by_test :
        (b : Bool)
        → p s ≡ b
        → (In r (keep p rules) → In r rules × (p r ≡ true))
        → In r (if b then s ∷ keep p rules else keep p rules)
        → In r (s ∷ rules) × (p r ≡ true)
    by_test true t ih j = by_place t ih j
    by_test false t ih j = later (ih j)

All-keep :
    (p : PolicyRule → Bool) (n : ℕ) (rules : List PolicyRule)
    → All (λ r. precedence r.decision ≤ n) (keep p rules)
    → All (λ r. p r ≡ true → precedence r.decision ≤ n) rules
All-keep p n [] h = tt
All-keep p n (r ∷ rules) h = elim (Bool-cases (p r)) [
  | inl t ↦ (let h' = rw t at h in (λ _. h'.0, All-keep p n rules h'.1))
  | inr f ↦ (λ t. cc, All-keep p n rules (rw f at h))
]

keep-none :
    (p : PolicyRule → Bool) (rules : List PolicyRule) → keep p rules ≡ [] → any p rules ≡ false
keep-none p [] h = refl
keep-none p (r ∷ rules) h = ground (arith, keep-none p rules)

module _ (lib : MatchLibrary) (action : ActionRequest) where
  abbrev fits : PolicyRule → Bool
  fits r = matches lib r.match action

  -- The selected rule is a rule of the policy that matches, and no matching rule of the policy has
  -- a stricter decision, in the order ALLOW, REWRITE, ESCALATE, BLOCK.
  pub record IsStrictest (policy : PolicyVersion) (r : PolicyRule) : Type 0 where
    pub from_policy : In r policy.contents.rules
    pub matching : matches lib r.match action ≡ true
    pub strictest :
        All
          (λ s. matches lib s.match action ≡ true → precedence s.decision ≤ precedence r.decision)
          policy.contents.rules

  max_rule-IsStrictest :
      (policy : PolicyVersion) (r : PolicyRule) (kept : List PolicyRule)
      → keep fits policy.contents.rules ≡ kept
      → max_rule kept ≡ some r
      → IsStrictest policy r
  max_rule-IsStrictest policy r [] e h = cc
  max_rule-IsStrictest policy r (s ∷ kept) e h =
      let chosen : max_from s kept ≡ r = cc h in
      let place = In-keep fits r policy.contents.rules (rw e (max_from-In s kept r chosen)) in
      record {
        from_policy = place.0;
        matching = place.1;
        strictest = All-keep fits (precedence r.decision) policy.contents.rules (
            rw e (
              subst
                (λ (x : PolicyRule).
                  All (λ t. precedence t.decision ≤ precedence x.decision) (s ∷ kept))
                chosen (max_from-le s kept, max_from-ge s kept)));
      }

  -- `select_rule` either selects a matching rule that no matching rule is stricter than, or finds
  -- that no rule of the policy matches.
  pub select-IsStrictest :
      (policy : PolicyVersion)
      → ((r : PolicyRule) × (select_rule lib policy action ≡ some r) × IsStrictest policy r)
        ⊎ ((select_rule lib policy action ≡ none) × (any fits policy.contents.rules ≡ false))
  unfolding select_rule
  select-IsStrictest policy = by_candidates (keep fits policy.contents.rules) refl
    where
      by_candidates :
          (kept : List PolicyRule)
          → keep fits policy.contents.rules ≡ kept
          → ((r : PolicyRule) × (max_rule (keep fits policy.contents.rules) ≡ some r)
              × IsStrictest policy r)
            ⊎ ((max_rule (keep fits policy.contents.rules) ≡ none)
                × (any fits policy.contents.rules ≡ false))
      by_candidates [] e = inr (rw e, keep-none fits policy.contents.rules e)
      by_candidates (s ∷ kept) e =
          inl
            (max_from s kept, rw e, max_rule-IsStrictest policy (max_from s kept) (s ∷ kept) e refl)

-- Deny overrides allow: what is no stricter than an ALLOW rule is an ALLOW rule.
allow_only : (s r : Decision) → is_allow r ≡ true → precedence s ≤ precedence r → is_allow s ≡ true
allow_only s r a h = ground arith

pub All-allow :
    (lib : MatchLibrary) (action : ActionRequest) (r : PolicyRule) (rules : List PolicyRule)
    → is_allow r.decision ≡ true
    → All
        (λ s. matches lib s.match action ≡ true → precedence s.decision ≤ precedence r.decision)
        rules
    → All (λ s. matches lib s.match action ≡ true → is_allow s.decision ≡ true) rules
All-allow lib action r [] a h = tt
All-allow lib action r (s ∷ rules) a h =
    (λ m. allow_only s.decision r.decision a (h.0 m), All-allow lib action r rules a h.1)
