-- ===== src/Authority/Kernel.antt =====
-- `CompiledAuthority` of src/traceguard/policy/kernel.py, and the check of a call's arguments in
-- src/traceguard/supervisor/contracts.py. A compiled authority holds the grant and the schemas that
-- its two texts encode.
use text.Mathlib.Text.{starts_with}
use trace_guard.Common.{
  String, Bool, false, ◌&&◌, ◌||◌, not, Option, none, some, List, [], ◌∷◌, ◌==◌, if◌then◌else◌,
  Dict, get, exceeds, Result, ok, err, value_error, key_error,
}
use trace_guard.Json.{
  Json, null, bool, num, str, arr, obj, Items, nil, cons, Fields, end, field, get_field,
}
use trace_guard.Control.Models.{allow, escalate}
use trace_guard.Authority.Calls.{ToolCall, Observation, TaskAuthority, SupervisorOutput, low, high}
use trace_guard.Authority.Registry.{Registry, Library, tool_effect, is_read, field_names, output}
use trace_guard.Authority.Grants.{validate_authority, names_of}
use trace_guard.Authority.Checks.{Denial, check_authority, output_of}
use trace_guard.Authority.Reads.{scoped_read_call}

pub record CompiledAuthority : Type 0 where
  pub scope : TaskAuthority
  pub schemas : Dict Fields
  pub digest : String

abbrev is_reference : String → Bool
is_reference key = key == "$ref" || key == "$dynamicRef" || key == "$recursiveRef"

module _ (lib : Library) where
  -- `reject_remote_refs`
  unfoldable mutual
    pub has_remote_refs : Json → Bool
    has_remote_refs (arr xs) = items_remote xs
    has_remote_refs (obj fs) = fields_remote fs
    has_remote_refs null = false
    has_remote_refs (bool b) = false
    has_remote_refs (num n) = false
    has_remote_refs (str s) = false

    pub items_remote : Items → Bool
    items_remote nil = false
    items_remote (cons x xs) = has_remote_refs x || items_remote xs

    pub fields_remote : Fields → Bool
    fields_remote end = false
    fields_remote (field k v fs) =
        (is_reference k && not (starts_with (lib.text_of v) "#"))
        || (has_remote_refs v || fields_remote fs)

  -- `properties and set(arguments) - set(properties)`
  abbrev has_unknown_keys : Fields → Option (List String) → Bool
  has_unknown_keys arguments none = false
  has_unknown_keys arguments (some []) = false
  has_unknown_keys arguments (some (p ∷ ps)) = exceeds (field_names arguments) (p ∷ ps)

  unfoldable pub arguments_fit : Fields → Fields → Bool
  arguments_fit arguments schema =
      not (fields_remote schema)
      && (lib.schema_accepts schema arguments
          && not (has_unknown_keys arguments (names_of (get_field "properties" schema))))

  abbrev compiled : TaskAuthority → Dict Fields → Option String → Result CompiledAuthority
  compiled a schemas none = err (value_error "Out of range float values are not JSON compliant")
  compiled a schemas (some d) = ok (record { scope = a; schemas = schemas; digest = d })

  abbrev compile_valid : TaskAuthority → Dict Fields → Result (Unit {0}) → Result CompiledAuthority
  compile_valid a schemas (err x) = err x
  compile_valid a schemas (ok _) = compiled a schemas (lib.authority_digest a schemas)

  unfoldable pub compile : Registry → TaskAuthority → Dict Fields → Result CompiledAuthority
  compile g a schemas = compile_valid a schemas (validate_authority g a (some schemas))

  abbrev normalize_by : Registry → ToolCall → Option Fields → Result ToolCall
  normalize_by g call none = err (key_error call.tool_name)
  normalize_by g call (some schema) = scoped_read_call lib g call schema

  unfoldable pub normalize_read : Registry → CompiledAuthority → ToolCall → Result ToolCall
  normalize_read g c call =
      if is_read (tool_effect g call)
      then normalize_by g call (get call.tool_name c.schemas)
      else ok call

  -- `denied or output(ALLOW, …)`
  abbrev pub conclude : Registry → Option Denial → SupervisorOutput
  conclude g (some d) = output_of g d
  conclude g none =
      output g allow "strict-compiled-grant" "Explicit field-complete grant permits this call." low

  abbrev pub judge :
      Registry
      → TaskAuthority
      → List Observation
      → List ToolCall
      → Result ToolCall
      → SupervisorOutput
  judge g a observations previous_calls (err x) =
      output g escalate "strict-unreviewed-read-adapter"
        "Read adapter/schema needs a reviewed resource mapping." high
  judge g a observations previous_calls (ok call) =
      conclude g (check_authority lib g call observations a previous_calls)

  abbrev evaluate_by :
      Registry
      → CompiledAuthority
      → ToolCall
      → List Observation
      → List ToolCall
      → Option Fields
      → SupervisorOutput
  evaluate_by g c call observations previous_calls none =
      output g escalate "strict-unknown-schema" "Tool schema is unavailable." high
  evaluate_by g c call observations previous_calls (some schema) =
      if not (arguments_fit call.arguments schema)
      then output g escalate "strict-invalid-schema" "Arguments fail tool schema." high
      else judge g c.scope observations previous_calls
          (if is_read (tool_effect g call) then scoped_read_call lib g call schema else ok call)

  unfoldable pub evaluate :
      Registry → CompiledAuthority → ToolCall → List Observation → List ToolCall → SupervisorOutput
  evaluate g c call observations previous_calls =
      evaluate_by g c call observations previous_calls (get call.tool_name c.schemas)
