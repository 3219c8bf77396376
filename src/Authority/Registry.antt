-- ===== src/Authority/Registry.antt =====
-- What the kernel is given: the reviewed data that src/traceguard/policy/authorization.py and
-- src/traceguard/policy/effects.py load from data/policy/effects.json and security_effects.json,
-- and the answers of Python's libraries. And the functions that read them: `tool_effect`,
-- `email_effects`, `scoped_fields`, `sensitive_path`, `output`.
use Prim.Native.String.{◌++◌ as append_text}
use trace_guard.Common.{
  String, Bool, true, false, ◌||◌, not, Option, none, List, [], ◌∷◌, ◌++◌, ◌==◌, if◌then◌else◌, any,
  keep, mem, Dict, Result, ok, err, value_error,
}
use trace_guard.Json.{
  Json, null, bool, num, str, arr, obj, Items, nil, cons, Fields, end, field, get_field,
}
use trace_guard.Policy.Matching.{MatchLibrary}
use trace_guard.Control.Models.{Decision, block}
use trace_guard.Authority.Calls.{
  Number, ToolCall, TaskAuthority, SupervisorOutput, RiskLevel, GoalRelevance, GoalNecessity,
}

-- A reviewed read adapter of `read_adapters`.
pub record Adapter : Type 0 where
  pub fields : List String
  pub resources : List String
  pub defaults : Fields
  pub implicit : List String

pub record Registry : Type 0 where
  pub version : String
  pub reads : List String
  pub mutations : List String
  pub argument_dependent : List String
  -- `.get(tool, [])`
  pub object_fields : String → List String
  pub network_fields : String → List String
  pub generatable_fields : String → List String
  pub recipient_fields : List String
  pub email_object_fields : List String
  pub sensitive_reads : List String
  -- `.get(adapter, {}).get(tool)`
  pub read_adapters : String → String → Option Adapter

pub record Library : Type 0 where
  pub matching : MatchLibrary
  -- `json.loads`, `none` where it raises
  pub loads : String → Option Json
  -- `str(value)`, and Python's `==`
  pub text_of : Json → String
  pub equal : Json → Json → Bool
  -- `not value.strip()`, `value.casefold()`, `value.endswith(("_id", "_ids"))`
  pub is_blank : String → Bool
  pub casefold : String → String
  pub ends_in_id : String → Bool
  -- a number's text: whether it is zero, and its value
  pub is_zero : String → Bool
  pub number_value : String → Number
  -- `math.isfinite` of a float, and `+`, `<=` and `sum` where a float takes part
  pub is_finite : String → Bool
  pub add_floats : Number → Number → Number
  pub leb_floats : Number → Number → Bool
  pub sum_floats : List Number → Number
  -- `PurePosixPath(path).parts` and `SENSITIVE_PATH_RE.search`
  pub path_parts : String → List String
  pub has_sensitive_name : String → Bool
  -- `Draft202012Validator` accepts the schema, and the arguments against it
  pub schema_accepts : Fields → Fields → Bool
  -- SHA-256 of canonical JSON, and the digest of a grant with its schemas, `none` where it raises
  pub digest : Json → String
  pub authority_digest : TaskAuthority → Dict Fields → Option String

-- The fields of a dict, in order.
abbrev pub field_names : Fields → List String
field_names end = []
field_names (field k v fs) = k ∷ field_names fs

abbrev pub text_items : List String → Items
text_items [] = nil
text_items (s ∷ rest) = cons (str s) (text_items rest)

abbrev pub item_list : Items → List Json
item_list nil = []
item_list (cons x xs) = x ∷ item_list xs

-- `value if isinstance(value, list) else [value]`
abbrev pub values_of : Json → List Json
values_of (arr xs) = item_list xs
values_of v = v ∷ []

abbrev pub is_null : Json → Bool
is_null null = true
is_null _ = false

pub data Effect : Type 0 where
  read mutate command unknown : Effect

abbrev pub is_read : Effect → Bool
is_read read = true
is_read _ = false

abbrev pub is_unknown : Effect → Bool
is_unknown unknown = true
is_unknown _ = false

abbrev pub is_consequential : Effect → Bool
is_consequential mutate = true
is_consequential command = true
is_consequential _ = false

abbrev pub command_tools : List String
command_tools = "restricted_command" ∷ "python" ∷ "bash_session" ∷ []

abbrev pub read_commands : List String
read_commands = "view" ∷ "read" ∷ "list" ∷ []

abbrev pub write_commands : List String
write_commands = "create" ∷ "insert" ∷ "str_replace" ∷ "delete" ∷ "rename" ∷ "write" ∷ []

-- A command that is no text is in neither set. (A list or an object there raises in the source.)
abbrev pub by_command : Json → Effect
by_command (str c) =
    if mem c read_commands then read else if mem c write_commands then mutate else unknown
by_command _ = unknown

unfoldable pub tool_effect : Registry → ToolCall → Effect
tool_effect g call =
    if mem call.tool_name g.reads
    then read
    else if mem call.tool_name g.mutations
    then if mem call.tool_name command_tools then command else mutate
    else if mem call.tool_name g.argument_dependent
    then by_command (get_field "command" call.arguments)
    else unknown

abbrev is_block : Decision → Bool
is_block block = true
is_block _ = false

-- `output`
unfoldable pub output : Registry → Decision → String → String → RiskLevel → SupervisorOutput
output g decision rule reason risk = record {
  decision = decision;
  risk = risk;
  confidence = 100;
  policy_violation = is_block decision;
  goal_relevance = GoalRelevance.uncertain;
  goal_necessity = GoalNecessity.uncertain;
  reason = reason;
  matched_rules = append_text "AUTHORITY_VERSION=" g.version ∷ rule ∷ [];
  rewritten_call = none;
  execution_target = none;
  container_profile = none;
  provider_metadata = end;
}

pub record EmailEffects : Type 0 where
  pub recipients : List (String × String)
  pub referenced_objects : List String

module _ (lib : Library) where
  -- `sensitive_path`, with the segments that it blocks by itself
  unfoldable pub sensitive_path : String → Bool
  sensitive_path path =
      any (λ part. mem (lib.casefold part) (".ssh" ∷ ".aws" ∷ []) || lib.has_sensitive_name part)
        (lib.path_parts path)

  abbrev pub is_destination : Json → Bool
  is_destination (str s) = not (lib.is_blank s)
  is_destination _ = false

  -- The values of one recipient field.
  abbrev pub bad_recipients : Json → Bool
  bad_recipients null = false
  bad_recipients v = any (λ x. not (is_destination x)) (values_of v)

  -- Python's truth value
  abbrev pub is_truthy : Json → Bool
  is_truthy null = false
  is_truthy (bool b) = b
  is_truthy (num n) = not (lib.is_zero n)
  is_truthy (str s) = not (s == "")
  is_truthy (arr nil) = false
  is_truthy (arr (cons x xs)) = true
  is_truthy (obj end) = false
  is_truthy (obj (field k v fs)) = true

  -- A recipient field with each of its destinations. Only texts are left when this is asked.
  abbrev pub pair_field : String → List Json → List (String × String)
  pair_field f [] = []
  pair_field f (str s ∷ rest) = (f, lib.casefold s) ∷ pair_field f rest
  pair_field f (v ∷ rest) = pair_field f rest

  abbrev pub recipients_in : String → Json → List (String × String)
  recipients_in f null = []
  recipients_in f v = pair_field f (values_of v)

  abbrev pub recipients_of : ToolCall → List String → List (String × String)
  recipients_of call [] = []
  recipients_of call (f ∷ fs) =
      recipients_in f (get_field f call.arguments) ++ recipients_of call fs

  unfoldable pub email_effects : Registry → ToolCall → Result EmailEffects
  email_effects g call =
      if any (λ f. bad_recipients (get_field f call.arguments)) g.recipient_fields
      then err (value_error "invalid email destination field")
      else ok (record {
        recipients = recipients_of call g.recipient_fields;
        referenced_objects =
            keep (λ f. is_truthy (get_field f call.arguments)) g.email_object_fields;
      })

  -- `scoped_fields`, before it is sorted
  unfoldable pub scoped_fields : Registry → ToolCall → List String
  scoped_fields g call =
      keep (λ f. mem f (field_names call.arguments))
        (g.object_fields call.tool_name
          ++ (g.network_fields call.tool_name ++ keep lib.ends_in_id (field_names call.arguments)))
