-- ===== src/Authority/Checks.antt =====
-- `check_authority` of src/traceguard/policy/authorization.py for a grant of the strict mode, which
-- is the mode of every compiled authority. Its tests stand in the source's order, each of them a
-- denial or nothing. The part after the strict mode's return, which reads the goal's text, is not
-- modelled.
use Prim.Native.String.{◌++◌ as append_text}
use trace_guard.Common.{
  String, Bool, true, false, ◌&&◌, ◌||◌, not, Option, none, some, List, [], ◌∷◌, ◌++◌, ◌==◌,
  if◌then◌else◌, any, all, keep, is_some, Dict, get, get_all, mem, sorted_set, join, contains, pos,
  ℤ, ◌+ℤ◌, leb_ℤ, Result, ok, err,
}
use trace_guard.Json.{
  Json, null, bool, num, str, arr, obj, Items, nil, cons, Fields, end, field, get_field,
}
use trace_guard.Policy.Matching.{same_value}
use trace_guard.Control.Models.{block, escalate}
use trace_guard.Authority.Calls.{
  Number, whole, floating, ToolCall, Observation, TaskAuthority, SupervisorOutput, high,
}
use trace_guard.Authority.Registry.{
  Registry, Library, tool_effect, is_consequential, is_unknown, field_names, text_items, values_of,
  is_null, sensitive_path, EmailEffects, email_effects, scoped_fields, output,
}
use trace_guard.Authority.Grants.{
  pinned_fields, resource_fields, delegated_names, payment_tools, ungranted_fields,
  validate_authority,
}

-- A rule and its reason.
pub data Denial : Type 0 where
  blocks escalates : String → String → Denial

abbrev pub refuse : Bool → Denial → Option Denial
refuse true d = some d
refuse false d = none

-- The first denial of the tests, in order.
unfoldable pub first : List (Option Denial) → Option Denial
first [] = none
first (some d ∷ rest) = some d
first (none ∷ rest) = first rest

abbrev pub output_of : Registry → Denial → SupervisorOutput
output_of g (blocks rule reason) = output g block rule reason high
output_of g (escalates rule reason) = output g escalate rule reason high

-- What a grant's field speaks of.
abbrev pub actual_of : ToolCall → String → Json
actual_of call f =
    if f == "requested_resources"
    then arr (text_items call.requested_resources)
    else get_field f call.arguments

abbrev pub has_argument : ToolCall → String → Bool
has_argument call f = mem f (field_names call.arguments)

abbrev pub is_payment : ToolCall → Bool
is_payment call = mem call.tool_name payment_tools

-- `data[field]` of an observation whose content is an object that has the field
abbrev pub value_in : String → Option Json → List Json
value_in f (some (obj fs)) = if mem f (field_names fs) then get_field f fs ∷ [] else []
value_in f _ = []

abbrev pub is_fixed : TaskAuthority → String → String → Bool
is_fixed a tool f = mem f (pinned_fields a tool) || mem f (delegated_names a tool)

abbrev pub allows : Option (List String) → String → Bool
allows none tool = false
allows (some tools) tool = mem tool tools

-- `authority.allowed_tools is not None and call.tool_name not in authority.allowed_tools`
abbrev pub is_outside : Option (List String) → String → Bool
is_outside none tool = false
is_outside (some tools) tool = not (mem tool tools)

-- `argument_strings` collects the keys and the texts of a value.
unfoldable mutual
  pub argument_strings : Json → List String
  argument_strings (str s) = s ∷ []
  argument_strings (arr xs) = item_strings xs
  argument_strings (obj fs) = field_strings fs
  argument_strings null = []
  argument_strings (bool b) = []
  argument_strings (num n) = []

  pub item_strings : Items → List String
  item_strings nil = []
  item_strings (cons x xs) = argument_strings x ++ item_strings xs

  pub field_strings : Fields → List String
  field_strings end = []
  field_strings (field k v fs) = k ∷ (argument_strings v ++ field_strings fs)

-- The sum of ints, `none` where a float is among them.
abbrev pub whole_sum : List Number → Option ℤ
whole_sum [] = some (pos 0)
whole_sum (whole z ∷ ns) = elim (whole_sum ns) [ none ↦ none | some w ↦ some (z +ℤ w) ]
whole_sum (floating s ∷ ns) = none

-- What `isinstance(…, (int, float))` lets through; a truth value is an int.
abbrev pub truth_number : Bool → Number
truth_number true = whole (pos 1)
truth_number false = whole (pos 0)

module _ (lib : Library) where
  abbrev pub same : Json → Json → Bool
  same = same_value lib.matching

  abbrev pub repeats : ToolCall → ToolCall → Bool
  repeats call previous =
      previous.tool_name == call.tool_name
      && lib.equal (obj previous.arguments) (obj call.arguments)

  unfoldable pub duplicate_mutation :
      Registry → ToolCall → List ToolCall → TaskAuthority → Option Denial
  duplicate_mutation g call previous_calls a =
      refuse
        (not (mem call.tool_name a.repeatable_tools || not (is_consequential (tool_effect g call)))
          && any (repeats call) previous_calls)
        (blocks "duplicate-mutation"
          "An identical mutating call already executed or is reserved in this task.")

  unfoldable pub check_pinned : ToolCall → Dict Json → Option Denial
  check_pinned call [] = none
  check_pinned call ((f, expected) ∷ rest) =
      let others = check_pinned call rest in
      if same (actual_of call f) expected
      then others
      else some (
          blocks "argument-mismatch"
            (append_text "Argument " (append_text f " differs from trusted task scope.")))

  abbrev pub observed : List String → List Observation → List Observation
  observed sources observations = keep (λ o. mem o.source_id sources) observations

  abbrev pub candidates : String → List Observation → List Json
  candidates f [] = []
  candidates f (o ∷ rest) = value_in f (lib.loads o.content) ++ candidates f rest

  abbrev pub is_nothing : List Observation → Bool
  is_nothing [] = true
  is_nothing (o ∷ rest) = false

  -- The one candidate is the value.
  abbrev pub judge_candidates : String → Json → List Json → Option Denial
  judge_candidates f actual (v ∷ []) = refuse (not (same actual v)) (
      blocks "argument-mismatch"
        (append_text "Argument " (append_text f " differs from the authorized source.")))
  judge_candidates f actual _ = some (
      escalates "ambiguous-delegated-value"
        (append_text "Cannot uniquely resolve authorized " (append_text f ".")))

  unfoldable pub check_delegated : ToolCall → List Observation → Dict (List String) → Option Denial
  check_delegated call observations [] = none
  check_delegated call observations ((f, sources) ∷ rest) =
      let others = check_delegated call observations rest in
      let seen = observed sources observations in
      if is_nothing seen
      then some (
          escalates "missing-delegated-source"
            (append_text "Authorized source for " (append_text f " is unavailable.")))
      else first (judge_candidates f (actual_of call f) (candidates f seen) ∷ others ∷ [])

  abbrev pub is_permitted : List Json → Json → Bool
  is_permitted allowed v = any (λ permitted. same v permitted) allowed

  abbrev pub is_within : List Json → List Json → Bool
  is_within allowed [] = false
  is_within allowed (v ∷ vs) = all (is_permitted allowed) (v ∷ vs)

  abbrev pub judge_resource : String → Json → Option (List Json) → Option Denial
  judge_resource f actual none = some (
      escalates "resource-authority-missing"
        (append_text f " needs explicit trusted object or network scope."))
  judge_resource f actual (some allowed) =
      refuse (not (is_within allowed (values_of actual)))
        (blocks "resource-out-of-scope" "Resource exceeds task scope.")

  unfoldable pub check_resources : TaskAuthority → ToolCall → List String → Option Denial
  check_resources a call [] = none
  check_resources a call (f ∷ fs) =
      let others = check_resources a call fs in
      if is_fixed a call.tool_name f
      then others
      else first (
          judge_resource f (actual_of call f) (get f (get_all call.tool_name a.resource_values))
          ∷ others
          ∷ [])

  abbrev pub check_scope : Registry → TaskAuthority → ToolCall → Option Denial
  check_scope g a call =
      check_resources a call
        (sorted_set (scoped_fields lib g call ++ resource_fields a call.tool_name))

  -- `sum(…)`, `x + y` and `x <= y`: exact on ints
  abbrev pub sum_numbers : List Number → Number
  sum_numbers ns = elim (whole_sum ns) [ none ↦ lib.sum_floats ns | some z ↦ whole z ]

  abbrev pub add_numbers : Number → Number → Number
  add_numbers (whole m) (whole n) = whole (m +ℤ n)
  add_numbers (whole m) (floating t) = lib.add_floats (whole m) (floating t)
  add_numbers (floating s) n = lib.add_floats (floating s) n

  abbrev pub leb_numbers : Number → Number → Bool
  leb_numbers (whole m) (whole n) = leb_ℤ m n
  leb_numbers (whole m) (floating t) = lib.leb_floats (whole m) (floating t)
  leb_numbers (floating s) n = lib.leb_floats (floating s) n

  -- `math.isfinite(amount) and 0 <= amount`. An int that no float can hold raises in the source.
  abbrev pub is_amount : Number → Bool
  is_amount (whole z) = leb_ℤ (pos 0) z
  is_amount (floating s) = lib.is_finite s && lib.leb_floats (whole (pos 0)) (floating s)

  -- `isinstance(amount, bool) or not isinstance(amount, (int, float)) or not math.isfinite(amount)
  -- or amount < 0`
  unfoldable pub is_bad_amount : Json → Bool
  is_bad_amount (num n) = not (is_amount (lib.number_value n))
  is_bad_amount _ = true

  unfoldable pub is_unresolved : TaskAuthority → ToolCall → Bool
  is_unresolved a call =
      is_payment call
      && (is_null (get_field "amount" call.arguments)
          || (not (is_some a.max_amount) && not (is_fixed a call.tool_name "amount")))

  abbrev pub number_in : Json → Option Number
  number_in (num n) = some (lib.number_value n)
  number_in (bool b) = some (truth_number b)
  number_in _ = none

  -- `arguments.get("amount", 0)`, if it is a number
  abbrev pub amount_of : ToolCall → Option Number
  amount_of c =
      if has_argument c "amount"
      then number_in (get_field "amount" c.arguments)
      else some (whole (pos 0))

  abbrev pub add_number : Option Number → List Number → List Number
  add_number none ns = ns
  add_number (some n) ns = n ∷ ns

  unfoldable pub paid_numbers : List ToolCall → List Number
  paid_numbers [] = []
  paid_numbers (c ∷ rest) =
      let others = paid_numbers rest in
      if is_payment c then add_number (amount_of c) others else others

  unfoldable pub spent : List ToolCall → Number
  spent previous_calls = sum_numbers (paid_numbers previous_calls)

  -- `spent + amount <= max_amount`, asked only of a number
  abbrev pub fits_budget : List ToolCall → Json → Number → Bool
  fits_budget previous_calls (num n) limit =
      leb_numbers (add_numbers (spent previous_calls) (lib.number_value n)) limit
  fits_budget previous_calls _ limit = false

  abbrev pub is_over : List ToolCall → Json → Option Number → Bool
  is_over previous_calls amount none = false
  is_over previous_calls amount (some limit) =
      is_bad_amount amount || not (fits_budget previous_calls amount limit)

  abbrev pub discloses : ToolCall → String → Bool
  discloses call value = not (value == "") && any (contains value) (field_strings call.arguments)

  abbrev pub judge_email : TaskAuthority → ToolCall → Result EmailEffects → Option Denial
  judge_email a call (err x) = some (blocks "invalid-email-effect" "Invalid email destinations.")
  judge_email a call (ok email) =
      refuse (any (λ f. not (is_fixed a call.tool_name f)) email.referenced_objects) (
        escalates "unscoped-email-attachment"
          "Email attachments require explicit trusted object authorization.")

  unfoldable pub check_email : Registry → TaskAuthority → ToolCall → Option Denial
  check_email g a call =
      if call.tool_name == "send_email" then judge_email a call (email_effects lib g call) else none

  abbrev pub is_sensitive_at : ToolCall → String → Bool
  is_sensitive_at call f =
      has_argument call f && sensitive_path lib (lib.text_of (get_field f call.arguments))

  abbrev pub deny_missing : List String → Option Denial
  deny_missing [] = none
  deny_missing (f ∷ fs) = some (
      escalates "strict-ungranted-fields"
        (append_text "Consequential fields lack explicit authority: " (join (sorted_set (f ∷ fs)))))

  abbrev pub fails : Result (Unit {0}) → Bool
  fails (ok _) = false
  fails (err x) = true

  -- The tests of a strict grant.
  unfoldable pub strict_checks :
      Registry → ToolCall → List Observation → TaskAuthority → List ToolCall → List (Option Denial)
  strict_checks g call observations a previous_calls =
      duplicate_mutation g call previous_calls a
      ∷ refuse (is_unknown (tool_effect g call))
          (escalates "unknown-tool-effect" "Tool effect is not registered.")
      ∷ refuse (call.tool_name == "harmful_action_simulator")
          (blocks "prohibited-effect" "Trusted policy prohibits the simulated harmful effect.")
      ∷ refuse (is_outside a.allowed_tools call.tool_name)
          (blocks "unauthorized-tool" "Tool is outside the trusted task scope.")
      ∷ refuse (fails (validate_authority g a none))
          (escalates "invalid-strict-grant" "Strict grant is incomplete or invalid.")
      ∷ check_pinned call (get_all call.tool_name a.argument_values)
      ∷ check_delegated call observations (get_all call.tool_name a.delegated_fields)
      ∷ check_scope g a call
      ∷ refuse (mem call.tool_name g.sensitive_reads && not (allows a.allowed_tools call.tool_name))
          (escalates "sensitive-read-authority" "Sensitive reads require an explicit grant.")
      ∷ refuse
          (is_payment call
            && (not (is_null (get_field "amount" call.arguments))
                && is_bad_amount (get_field "amount" call.arguments)))
          (blocks "invalid-amount" "Payment amount is invalid.")
      ∷ refuse
          (has_argument call "amount"
            && is_over previous_calls (get_field "amount" call.arguments) a.max_amount)
          (blocks "amount-out-of-scope" "Amount exceeds the remaining trusted task budget.")
      ∷ refuse (any (discloses call) a.prohibited_content)
          (blocks "prohibited-disclosure" "Proposed arguments disclose protected content.")
      ∷ check_email g a call
      ∷ refuse (any (is_sensitive_at call) ("path" ∷ "file_path" ∷ []))
          (blocks "sensitive-data" "Protected filesystem object requested.")
      ∷ deny_missing (ungranted_fields call a (tool_effect g call))
      ∷ refuse (is_unresolved a call)
          (escalates "unresolved-amount" "Payment amount needs explicit scope.")
      ∷ []

  unfoldable pub check_authority :
      Registry → ToolCall → List Observation → TaskAuthority → List ToolCall → Option Denial
  check_authority g call observations a previous_calls =
      first (strict_checks g call observations a previous_calls)
