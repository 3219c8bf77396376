-- ===== src/Authority/Grants.antt =====
-- `validate_authority` and `ungranted_fields` of src/traceguard/policy/kernel.py. The tools of a
-- grant are visited in their order, where the source visits a set.
use trace_guard.Common.{
  String, Bool, true, false, ◌&&◌, ◌||◌, not, Option, none, some, List, [], ◌∷◌, ◌++◌, ◌==◌,
  if◌then◌else◌, keep, is_some, Dict, get, keys, get_all, mem, exceeds, meets, Result, ok, err,
  value_error, type_error,
}
use trace_guard.Json.{
  Json, null, bool, num, str, arr, obj, Items, nil, cons, Fields, end, get_field,
}
use trace_guard.Authority.Calls.{ToolCall, TaskAuthority, EnforcementMode, research, strict}
use trace_guard.Authority.Registry.{Registry, Effect, is_consequential, field_names}

abbrev pub is_strict : EnforcementMode → Bool
is_strict strict = true
is_strict research = false

abbrev pub pinned_fields : TaskAuthority → String → List String
pinned_fields a tool = keys (get_all tool a.argument_values)

abbrev pub resource_fields : TaskAuthority → String → List String
resource_fields a tool = keys (get_all tool a.resource_values)

abbrev pub delegated_names : TaskAuthority → String → List String
delegated_names a tool = keys (get_all tool a.delegated_fields)

abbrev pub generated_names : TaskAuthority → String → List String
generated_names a tool = get_all tool a.generated_fields

abbrev pub configured_tools : TaskAuthority → List String
configured_tools a =
    keys a.argument_values
    ++ (keys a.resource_values ++ (keys a.delegated_fields ++ keys a.generated_fields))

-- A field that a tool's text may be generated for, without the permission for it.
unfoldable pub generates_forbidden : Registry → Dict (List String) → Bool
generates_forbidden g [] = false
generates_forbidden g ((tool, fields) ∷ rest) =
    exceeds fields (g.generatable_fields tool) || generates_forbidden g rest

-- `any(groups[i] & groups[j] …)`
unfoldable pub conflicts : TaskAuthority → String → Bool
conflicts a tool =
    meets (resource_fields a tool) (pinned_fields a tool)
    || meets (delegated_names a tool) (pinned_fields a tool)
    || meets (delegated_names a tool) (resource_fields a tool)
    || meets (generated_names a tool) (pinned_fields a tool)
    || meets (generated_names a tool) (resource_fields a tool)
    || meets (generated_names a tool) (delegated_names a tool)

abbrev pub item_texts : Items → List String
item_texts nil = []
item_texts (cons (str s) xs) = s ∷ item_texts xs
item_texts (cons v xs) = item_texts xs

abbrev pub letters : String → List String
letters String.[] = []
letters (String.◌∷◌ c s) = String.◌∷◌ c String.[] ∷ letters s

-- `set(v)` raises `TypeError`.
abbrev is_unhashable : Items → Bool
is_unhashable nil = false
is_unhashable (cons (arr ys) xs) = true
is_unhashable (cons (obj fs) xs) = true
is_unhashable (cons v xs) = is_unhashable xs

abbrev has_no_set : Json → Bool
has_no_set (num n) = true
has_no_set (bool b) = true
has_no_set (arr xs) = is_unhashable xs
has_no_set _ = false

-- The texts of `set(properties)`, `none` for `None`.
abbrev pub names_of : Json → Option (List String)
names_of null = none
names_of (obj fs) = some (field_names fs)
names_of (arr xs) = some (item_texts xs)
names_of (str s) = some (letters s)
names_of (num n) = some []
names_of (bool b) = some []

abbrev pub schema_properties : Option (Dict Fields) → String → Option (List String)
schema_properties none tool = none
schema_properties (some schemas) tool = elim (get tool schemas) [
  | none ↦ none
  | some schema ↦ names_of (get_field "properties" schema)
]

-- Properties that `set` does not take.
abbrev pub unset_properties : Option (Dict Fields) → String → Bool
unset_properties none tool = false
unset_properties (some schemas) tool = elim (get tool schemas) [
  | none ↦ false
  | some schema ↦ has_no_set (get_field "properties" schema)
]

abbrev pub granted_names : TaskAuthority → String → List String
granted_names a tool =
    pinned_fields a tool
    ++ (resource_fields a tool ++ (delegated_names a tool ++ generated_names a tool))

unfoldable pub names_absent : TaskAuthority → Option (Dict Fields) → String → Bool
names_absent a schemas tool = elim (schema_properties schemas tool) [
  | none ↦ false
  | some names ↦ exceeds (keep (λ f. not (f == "requested_resources")) (granted_names a tool)) names
]

unfoldable pub check_tools : TaskAuthority → Option (Dict Fields) → List String → Result (Unit {0})
check_tools a schemas [] = ok tt
check_tools a schemas (tool ∷ tools) =
    let rest = check_tools a schemas tools in
    if conflicts a tool
    then err (value_error "a field cannot have conflicting authority definitions")
    else if unset_properties schemas tool
    then err (type_error "unhashable or not iterable")
    else if names_absent a schemas tool
    then err (value_error "grant names fields absent from the tool schema")
    else rest

abbrev pub lacks_schema : List String → Option (Dict Fields) → Bool
lacks_schema allowed none = false
lacks_schema allowed (some schemas) = exceeds allowed (keys schemas)

abbrev pub validate_tools :
    Registry → TaskAuthority → Option (Dict Fields) → Option (List String) → Result (Unit {0})
validate_tools g a schemas none =
    err (value_error "strict authority requires an explicit tool allowlist")
validate_tools g a schemas (some allowed) =
    if exceeds (configured_tools a) allowed
    then err (value_error "constraints refer to tools outside the grant")
    else if lacks_schema allowed schemas
    then err (value_error "grant refers to unavailable tool schemas")
    else if exceeds a.repeatable_tools allowed
    then err (value_error "repeat exceptions refer to tools outside the grant")
    else if generates_forbidden g a.generated_fields
    then err (value_error "generated fields cannot carry recipients, objects, commands or budgets")
    else check_tools a schemas allowed

unfoldable pub validate_authority :
    Registry → TaskAuthority → Option (Dict Fields) → Result (Unit {0})
validate_authority g a schemas =
    if not (is_strict a.enforcement_mode)
    then err (value_error "strict authority must explicitly select strict enforcement")
    else validate_tools g a schemas a.allowed_tools

abbrev pub payment_tools : List String
payment_tools = "send_money" ∷ "schedule_transaction" ∷ []

-- `explicit`
unfoldable pub explicit_fields : ToolCall → TaskAuthority → List String
explicit_fields call a =
    let names = granted_names a call.tool_name in
    if is_some a.max_amount && mem call.tool_name payment_tools then "amount" ∷ names else names

-- `value in (None, [], {})`
abbrev pub is_empty_value : Json → Bool
is_empty_value null = true
is_empty_value (arr nil) = true
is_empty_value (obj end) = true
is_empty_value _ = false

-- An optional field of an email that has no effect.
unfoldable pub is_idle : ToolCall → String → Bool
is_idle call f =
    call.tool_name == "send_email"
    && (mem f ("cc" ∷ "bcc" ∷ "attachments" ∷ []) && is_empty_value (get_field f call.arguments))

abbrev pub resource_name : List String → List String
resource_name [] = []
resource_name (r ∷ rs) = "requested_resources" ∷ []

-- The fields that need a grant.
unfoldable pub needed_fields : ToolCall → Effect → List String
needed_fields call effect =
    keep (λ f. not (is_idle call f))
      ((if is_consequential effect then field_names call.arguments else [])
        ++ resource_name call.requested_resources)

unfoldable pub ungranted_fields : ToolCall → TaskAuthority → Effect → List String
ungranted_fields call a effect =
    keep (λ f. not (mem f (explicit_fields call a))) (needed_fields call effect)
