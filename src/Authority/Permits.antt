-- ===== src/Authority/Permits.antt =====
-- What a call that passes `check_authority` of src/traceguard/policy/authorization.py has to satisfy.
use trace_guard.Common.{
  String, Bool, true, false, ◌&&◌, ◌||◌, not, Option, none, some, List, [], ◌∷◌, ◌++◌, ◌==◌, ◌≡◌,
  refl, any, keep, All, All-sorted_set, get, get_all, Dict, mem, Bool-cases, Option-cases, inl, inr,
  arith, ok, err, Result,
}
use trace_guard.Json.{Json, get_field}
use trace_guard.Authority.Calls.{ToolCall, Observation, TaskAuthority}
use trace_guard.Authority.Registry.{
  Registry, Library, tool_effect, is_consequential, is_unknown, values_of, scoped_fields, is_null,
}
use trace_guard.Authority.Grants.{
  explicit_fields, needed_fields, ungranted_fields, resource_fields, validate_authority,
}
use trace_guard.Authority.Checks.{
  Denial, refuse, first, actual_of, is_fixed, is_payment, has_argument, same, repeats,
  duplicate_mutation, check_pinned, check_delegated, check_resources, observed, candidates,
  is_within, is_bad_amount, is_over, discloses, deny_missing, strict_checks, check_authority,
  is_unresolved, judge_candidates, judge_resource, is_nothing, is_outside, fails, check_email,
  is_sensitive_at,
}

-- No test of the list denies.
pub first-All : (tests : List (Option Denial)) → first tests ≡ none → All (λ t. t ≡ none) tests
unfolding first
first-All [] h = tt
first-All (none ∷ rest) h = (refl, first-All rest h)
first-All (some d ∷ rest) h = cc

pub refuse_passes : (b : Bool) (d : Denial) → refuse b d ≡ none → b ≡ false
refuse_passes true d h = cc
refuse_passes false d h = refl

keep_none : (p : String → Bool) (xs : List String) → keep p xs ≡ [] → All (λ x. p x ≡ false) xs
keep_none p [] h = tt
keep_none p (x ∷ xs) h = elim (Bool-cases (p x)) [
  | inl t ↦ cc (rw t at h)
  | inr t ↦ (t, keep_none p xs (rw t at h))
]

module _ (lib : Library) (call : ToolCall) where
  -- The authorized sources have one value for the field, and the call has that value.
  unfoldable pub HasSource : List Observation → String × List String → Type 0
  HasSource observations (f, sources) =
      (v : Json) × (candidates lib f (observed lib sources observations) ≡ v ∷ [])
      × (same lib (actual_of call f) v ≡ true)

  -- The values of a field are all among the ones that the grant permits, or the field is fixed.
  abbrev pub is_scoped : TaskAuthority → String → Bool
  is_scoped a f =
      is_fixed a call.tool_name f || elim (get f (get_all call.tool_name a.resource_values)) [
        | none ↦ false
        | some allowed ↦ is_within lib allowed (values_of (actual_of call f))
      ]

  check_pinned-All :
      (pins : Dict Json)
      → check_pinned lib call pins ≡ none
      → All (λ p. same lib (actual_of call p.0) p.1 ≡ true) pins
  unfolding check_pinned
  check_pinned-All [] h = tt
  check_pinned-All ((f, v) ∷ rest) h = elim (Bool-cases (same lib (actual_of call f) v)) [
    | inl t ↦ (t, check_pinned-All rest (rw t at h))
    | inr t ↦ cc (rw t at h)
  ]

  one_candidate :
      (f : String) (vs : List Json)
      → judge_candidates lib f (actual_of call f) vs ≡ none
      → (v : Json) × (vs ≡ v ∷ []) × (same lib (actual_of call f) v ≡ true)
  one_candidate f [] h = cc
  one_candidate f (v ∷ []) h = (v, refl, ground (arith, refuse_passes _ _ h))
  one_candidate f (v ∷ w ∷ vs) h = cc

  check_delegated-All :
      (observations : List Observation) (ds : Dict (List String))
      → check_delegated lib call observations ds ≡ none
      → All (HasSource observations) ds
  unfolding check_delegated HasSource
  check_delegated-All observations [] h = tt
  check_delegated-All observations ((f, sources) ∷ rest) h =
      elim (Bool-cases (is_nothing lib (observed lib sources observations))) [
        | inl t ↦ cc (rw t at h)
        | inr t ↦
            (let both = first-All _ (rw t at h) in
              (
                one_candidate f (candidates lib f (observed lib sources observations)) both.0,
                check_delegated-All observations rest both.1.0,
              ))
      ]

  judge-is_scoped :
      (f : String) (a : TaskAuthority)
      → judge_resource lib f (actual_of call f) (get f (get_all call.tool_name a.resource_values))
        ≡ none
      → is_scoped a f ≡ true
  judge-is_scoped f a h = elim (Option-cases (get f (get_all call.tool_name a.resource_values))) [
    | inl t ↦ cc (rw t at h)
    | inr (allowed, t) ↦ rw t (ground (arith, refuse_passes _ _ (rw t at h)))
  ]

  check_resources-All :
      (a : TaskAuthority) (fs : List String)
      → check_resources lib a call fs ≡ none
      → All (λ f. is_scoped a f ≡ true) fs
  unfolding check_resources
  check_resources-All a [] h = tt
  check_resources-All a (f ∷ fs) h = elim (Bool-cases (is_fixed a call.tool_name f)) [
    | inl t ↦ (rw t refl, check_resources-All a fs (rw t at h))
    | inr t ↦
        (let both = first-All _ (rw t at h) in
          (judge-is_scoped f a both.0, check_resources-All a fs both.1.0))
  ]

-- What a strict grant asks of a call.
pub record IsPermitted (lib : Library) (g : Registry) (call : ToolCall)
    (observations : List Observation) (a : TaskAuthority) (previous_calls : List ToolCall)
    : Type 0 where
  pub valid : validate_authority g a none ≡ ok tt
  pub listed : is_outside a.allowed_tools call.tool_name ≡ false
  pub known : is_unknown (tool_effect g call) ≡ false
  -- A call that changes something and may not be repeated was not made before.
  pub fresh :
      (is_consequential (tool_effect g call)
        && not (mem call.tool_name a.repeatable_tools)
        && any (repeats lib call) previous_calls)
      ≡ false
  pub harmless : (call.tool_name == "harmful_action_simulator") ≡ false
  pub pinned :
      All (λ p. same lib (actual_of call p.0) p.1 ≡ true) (get_all call.tool_name a.argument_values)
  pub delegated : All (HasSource lib call observations) (get_all call.tool_name a.delegated_fields)
  pub scoped :
      All
        (λ f. is_scoped lib call a f ≡ true)
        (scoped_fields lib g call ++ resource_fields a call.tool_name)
  -- A payment has an amount, which is finite and not negative.
  pub paid : (is_payment call && is_bad_amount lib (get_field "amount" call.arguments)) ≡ false
  pub within_budget :
      (has_argument call "amount"
        && is_over lib previous_calls (get_field "amount" call.arguments) a.max_amount)
      ≡ false
  pub undisclosed : any (discloses lib call) a.prohibited_content ≡ false
  pub attached : check_email lib g a call ≡ none
  pub unprotected : any (is_sensitive_at lib call) ("path" ∷ "file_path" ∷ []) ≡ false
  pub covered :
      All (λ f. mem f (explicit_fields call a) ≡ true) (needed_fields call (tool_effect g call))
  pub resolved : is_unresolved lib a call ≡ false

ok_of_fails : (lib : Library) (r : Result (Unit {0})) → fails lib r ≡ false → r ≡ ok tt
ok_of_fails lib (ok _) h = refl
ok_of_fails lib (err x) h = cc

-- A field that needs a grant has one.
covered-All :
    (explicit needed : List String)
    → All (λ f. not (mem f explicit) ≡ false) needed
    → All (λ f. mem f explicit ≡ true) needed
covered-All explicit [] h = tt
covered-All explicit (f ∷ fs) h = (ground arith, covered-All explicit fs h.1)

deny_missing_empty : (lib : Library) (fs : List String) → deny_missing lib fs ≡ none → fs ≡ []
deny_missing_empty lib [] h = refl
deny_missing_empty lib (f ∷ fs) h = cc

paid_of :
    (lib : Library) (a : TaskAuthority) (call : ToolCall)
    → (is_payment call
        && (not (is_null (get_field "amount" call.arguments))
            && is_bad_amount lib (get_field "amount" call.arguments)))
      ≡ false
    → is_unresolved lib a call ≡ false
    → (is_payment call && is_bad_amount lib (get_field "amount" call.arguments)) ≡ false
unfolding is_unresolved
paid_of lib a call h k = ground arith

pub check_authority-IsPermitted :
    (lib : Library) (g : Registry) (call : ToolCall) (observations : List Observation)
    (a : TaskAuthority) (previous_calls : List ToolCall)
    → check_authority lib g call observations a previous_calls ≡ none
    → IsPermitted lib g call observations a previous_calls
unfolding check_authority strict_checks duplicate_mutation ungranted_fields
check_authority-IsPermitted lib g call observations a previous_calls h =
    let all = first-All (strict_checks lib g call observations a previous_calls) h in
    let scope = all.1.1.1.1.1 in
    let money = scope.1.1.1.1 in
    let last = money.1.1.1.1.1 in
    record {
      valid = ok_of_fails lib _ (refuse_passes _ _ all.1.1.1.1.0);
      listed = refuse_passes _ _ all.1.1.1.0;
      known = refuse_passes _ _ all.1.0;
      fresh = ground (arith, refuse_passes _ _ all.0);
      harmless = refuse_passes _ _ all.1.1.0;
      pinned = check_pinned-All lib call _ scope.0;
      delegated = check_delegated-All lib call observations _ scope.1.0;
      scoped = All-sorted_set _ _ (check_resources-All lib call a _ scope.1.1.0);
      paid = paid_of lib a call (refuse_passes _ _ money.0) (refuse_passes _ _ last.1.0);
      within_budget = refuse_passes _ _ money.1.0;
      undisclosed = refuse_passes _ _ money.1.1.0;
      attached = money.1.1.1.0;
      unprotected = refuse_passes _ _ money.1.1.1.1.0;
      covered = covered-All _ _ (keep_none _ _ (deny_missing_empty lib _ last.0));
      resolved = refuse_passes _ _ last.1.0;
    }
