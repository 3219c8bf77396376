-- ===== src/Policy/Matching.antt =====
-- src/traceguard/policy/matching.py, and `same_value` of src/traceguard/policy/authorization.py.
-- `json.dumps` and the search for instructions are given.
pub mod Selection
use Prim.Native.Nat.{Ordering}
use Prim.Native.String.{compare}
use text.Mathlib.Text.{starts_with}
use trace_guard.Common.{
  ℕ, ◌+◌, String, Bool, true, false, ◌&&◌, ◌||◌, not, Option, none, some, List, [], ◌∷◌, ◌==◌, any,
  keep, ltb, eqb, if◌then◌else◌, same_option,
}
use trace_guard.Json.{Json, get_field}
use trace_guard.Control.Models.{
  Decision, allow, block, escalate, rewrite, ActionRequest, http, same_kind, Evidence, RuleMatch,
  PolicyRule, PolicyVersion,
}
use trace_guard.Policy.Network.{UrlLibrary, target_within_scope}

pub record MatchLibrary : Type 0 where
  pub urls : UrlLibrary
  -- `json.dumps(value, sort_keys=True, allow_nan=False)`, `none` where it raises
  pub dumps : Json → Option String
  -- `_INSTRUCTIONS.search`
  pub has_instructions : String → Bool

abbrev pub or_empty : Option String → String
or_empty none = ""
or_empty (some s) = s

abbrev pub same_dump : Option String → Option String → Bool
same_dump (some s) (some t) = s == t
same_dump _ _ = false

-- `_PRECEDENCE`
abbrev pub precedence : Decision → ℕ
precedence block = 3
precedence escalate = 2
precedence rewrite = 1
precedence allow = 0

module _ (lib : MatchLibrary) where
  open lib use {urls, dumps, has_instructions}

  abbrev pub same_value : Json → Json → Bool
  same_value actual expected = same_dump (dumps actual) (dumps expected)

  abbrev pub kind_passes : RuleMatch → ActionRequest → Bool
  kind_passes m a = elim m.kind [ none ↦ true | some k ↦ same_kind k a.kind ]

  abbrev pub operation_passes : RuleMatch → ActionRequest → Bool
  operation_passes m a = elim m.operation [ none ↦ true | some o ↦ o == a.operation ]

  unfoldable pub target_passes : RuleMatch → ActionRequest → Bool
  target_passes m a = elim m.target_prefix [
    | none ↦ true
    | some prefix ↦
        if same_kind a.kind http
        then target_within_scope urls prefix (or_empty a.target)
        else starts_with (or_empty a.target) prefix
  ]

  abbrev pub argument_differs : ActionRequest → String × Json → Bool
  argument_differs a (key, value) = not (same_value (get_field key a.arguments) value)

  abbrev pub instructs : Evidence → Bool
  instructs e = e.contains_instructions || has_instructions e.content

  abbrev pub same_bool : Bool → Bool → Bool
  same_bool true b = b
  same_bool false b = not b

  abbrev pub evidence_passes : RuleMatch → ActionRequest → Bool
  evidence_passes m a = elim m.contains_untrusted_instructions [
    | none ↦ true
    | some b ↦ same_bool b (any instructs a.evidence)
  ]

  unfoldable pub matches : RuleMatch → ActionRequest → Bool
  matches m a =
      if not (kind_passes m a)
      then false
      else if not (operation_passes m a)
      then false
      else if not (target_passes m a)
      then false
      else if any (argument_differs a) m.argument_equals
      then false
      else evidence_passes m a

abbrev pub text_before : String → String → Bool
text_before s t = elim (compare s t) [ Ordering.lt ↦ true | _ ↦ false ]

-- The order of the keys `(precedence, priority, rule_id)`: the first is smaller than the second.
unfoldable pub outranked : PolicyRule → PolicyRule → Bool
outranked r s =
    ltb (precedence r.decision) (precedence s.decision)
    || (eqb (precedence r.decision) (precedence s.decision)
        && (ltb r.priority s.priority
            || (eqb r.priority s.priority && text_before r.rule_id s.rule_id)))

-- `max`: the first of the greatest.
abbrev pub max_from : PolicyRule → List PolicyRule → PolicyRule
max_from best [] = best
max_from best (r ∷ rules) = max_from (if outranked best r then r else best) rules

abbrev pub max_rule : List PolicyRule → Option PolicyRule
max_rule [] = none
max_rule (r ∷ rules) = some (max_from r rules)

unfoldable pub select_rule : MatchLibrary → PolicyVersion → ActionRequest → Option PolicyRule
select_rule lib policy action =
    max_rule (keep (λ r. matches lib r.match action) policy.contents.rules)
