-- ===== src/Authority/Reads.antt =====
-- src/traceguard/policy/read_resources.py: a read adapter is reviewed for its schema, and a read call
-- names every resource that it reads. A schema's properties are an object of objects and the binding
-- is an object with a text as its id, which the source takes for granted; here they are empty
-- otherwise.
use trace_guard.Common.{
  String, Bool, false, ◌&&◌, ◌||◌, not, Option, none, some, List, [], ◌∷◌, ◌++◌, ◌==◌,
  if◌then◌else◌, any, mem, exceeds, sorted_set, Result, ok, err, value_error,
}
use trace_guard.Json.{Json, str, arr, obj, Fields, end, field, get_field}
use trace_guard.Authority.Calls.{ToolCall}
use trace_guard.Authority.Registry.{Registry, Library, Adapter, field_names, item_list, is_null}

-- `EXTENSION`
abbrev pub extension : String
extension = "x-traceguard-read-adapter"

-- `bound.pop(key, None)`
unfoldable pub remove_field : String → Fields → Fields
remove_field key end = end
remove_field key (field k v rest) =
    let others = remove_field key rest in if k == key then others else field k v others

-- `fields[key] = value` for a key that is not there
unfoldable pub add_field : String → Json → Fields → Fields
add_field key value end = field key value end
add_field key value (field k v rest) = field k v (add_field key value rest)

abbrev pub fields_of : Json → Fields
fields_of (obj fs) = fs
fields_of _ = end

abbrev pub text_or_empty : Json → String
text_or_empty (str s) = s
text_or_empty _ = ""

abbrev is_text : String → Json → Bool
is_text f (str s) = f == s
is_text f _ = false

-- `field in (bound.get("required") or [])`
abbrev is_listed : String → Json → Bool
is_listed f (arr xs) = any (is_text f) (item_list xs)
is_listed f _ = false

abbrev pub default_in : Fields → String → Json
default_in properties f = get_field "default" (fields_of (get_field f properties))

module _ (lib : Library) where
  -- The loop over the reviewed resources of an adapter.
  unfoldable pub check_selectors : Fields → Fields → Fields → List String → Result (Unit {0})
  check_selectors bound properties defaults [] = ok tt
  check_selectors bound properties defaults (f ∷ fs) =
      let rest = check_selectors bound properties defaults fs in
      let default = get_field f defaults in
      let given = default_in properties f in
      if not (mem f (field_names properties))
      then err (value_error "read schema is missing a reviewed resource selector")
      else if not (is_listed f (get_field "required" bound))
          && (is_null default || not (lib.equal given default))
      then err (value_error "unreviewed implicit read resource")
      else if not (is_null given || lib.equal given default)
      then err (value_error "read resource default differs from reviewed adapter")
      else rest

  -- The value of `bound[EXTENSION]`
  abbrev pub binding_of : String → Fields → Json
  binding_of adapter_id bound =
      obj (field "id" (str adapter_id) (field "schema_digest" (str (lib.digest (obj bound))) end))

  abbrev pub bind_checked : String → Fields → Result (Unit {0}) → Result Fields
  bind_checked adapter_id bound (err x) = err x
  bind_checked adapter_id bound (ok _) =
      ok (add_field extension (binding_of adapter_id bound) bound)

  abbrev pub bind_reviewed : Fields → String → Option Adapter → Result Fields
  bind_reviewed bound adapter_id none = err (value_error "unsupported read adapter mapping")
  bind_reviewed bound adapter_id (some reviewed) =
      let properties = fields_of (get_field "properties" bound) in
      if exceeds (field_names properties) reviewed.fields
      then err (value_error "read schema has unreviewed selectors or options")
      else bind_checked adapter_id bound
          (check_selectors bound properties reviewed.defaults reviewed.resources)

  unfoldable pub bind_read_schema : Registry → Fields → String → String → Result Fields
  bind_read_schema g schema adapter_id tool_name =
      bind_reviewed (remove_field extension schema) adapter_id
        (g.read_adapters adapter_id tool_name)

  unfoldable pub fill_one : Fields → String → Fields → Fields
  fill_one defaults f arguments =
      if not (mem f (field_names arguments)) && mem f (field_names defaults)
      then add_field f (get_field f defaults) arguments
      else arguments

  -- The loop that fills in the reviewed defaults.
  unfoldable pub fill : Fields → List String → Fields → Result Fields
  fill defaults [] arguments = ok arguments
  fill defaults (f ∷ fs) arguments =
      let filled = fill_one defaults f arguments in
      let rest = fill defaults fs filled in
      if is_null (get_field f filled) then err (value_error "read resource is missing") else rest

  abbrev pub normalized : ToolCall → Adapter → Result Fields → Result ToolCall
  normalized call reviewed (err x) = err x
  normalized call reviewed (ok arguments) = ok (record call {
    arguments = arguments;
    requested_resources = sorted_set (call.requested_resources ++ reviewed.implicit);
  })

  abbrev pub with_adapter : ToolCall → Option Adapter → Result ToolCall
  with_adapter call none = err (value_error "unsupported read adapter mapping")
  with_adapter call (some reviewed) =
      normalized call reviewed (fill reviewed.defaults reviewed.resources call.arguments)

  abbrev pub with_binding : Registry → ToolCall → Json → Result Fields → Result ToolCall
  with_binding g call binding (err x) = err x
  with_binding g call binding (ok verified) =
      if not (lib.equal (get_field extension verified) binding)
      then err (value_error "read adapter binding does not match the approved schema")
      else with_adapter call
          (g.read_adapters (text_or_empty (get_field "id" (fields_of binding))) call.tool_name)

  unfoldable pub scoped_read_call : Registry → ToolCall → Fields → Result ToolCall
  scoped_read_call g call schema =
      let binding = obj (fields_of (get_field extension schema)) in
      with_binding g call binding (
        bind_read_schema g schema (text_or_empty (get_field "id" (fields_of binding)))
          call.tool_name)
