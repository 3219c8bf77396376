-- ===== src/Authority/Tests.antt =====
-- A grant that lets one payee be paid up to 100, and notes be read: the model of
-- src/traceguard/policy/kernel.py on concrete input.
use Prim.Native.String.{◌++◌ as append_text}
use trace_guard.Common.{
  ◌+ℤ◌, leb_ℤ, Bool, ◌&&◌, not, String, ◌≡◌, refl, true, false, none, some, List, [], ◌∷◌, ◌==◌,
  if◌then◌else◌, Pairs, pos, ok, eq_refl, Dict, get,
}
use trace_guard.Json.{
  Json, null, bool, num, str, arr, obj, Items, nil, cons, Fields, end, field, get_field,
}
use trace_guard.Policy.Tests.{known_urls}
use trace_guard.Policy.Matching.{MatchLibrary}
use trace_guard.Control.Models.{allow, block}
use trace_guard.Authority.Calls.{Number, whole, floating, ToolCall, TaskAuthority, strict}
use trace_guard.Authority.Registry.{
  Registry, Library, Adapter, tool_effect, output, sensitive_path, scoped_fields,
}
use trace_guard.Authority.Grants.{
  generates_forbidden, conflicts, names_absent, check_tools, validate_authority, explicit_fields,
  is_idle, needed_fields, ungranted_fields,
}
use trace_guard.Authority.Checks.{
  first, argument_strings, duplicate_mutation, check_pinned, check_delegated, check_resources,
  is_bad_amount, is_unresolved, leb_numbers, paid_numbers, spent, check_email, strict_checks,
  check_authority,
}
use trace_guard.Authority.Reads.{
  remove_field, add_field, check_selectors, bind_read_schema, fill_one, fill, normalized,
  scoped_read_call,
}
use trace_guard.Authority.Kernel.{
  CompiledAuthority, has_remote_refs, arguments_fit, normalize_read, compile, evaluate,
}
use trace_guard.Authority.Valid.{IsWellFormed, validate_authority-IsWellFormed}
use trace_guard.Authority.Bound.{IsScopedRead, scoped_read_call-IsScopedRead, bound_scopes}
use trace_guard.Authority.Paid.{total_paid, run_within_amount}
use trace_guard.Authority.Granting.{IsGranted, KnowsNames}
use trace_guard.Authority.Granted.{evaluate-IsGranted}
use trace_guard.Authority.Allowed.{AllowedRun, start, next, is_repeat, run_repeats_nothing}

-- A text for a value.
abbrev mutual
  pub render : Json → String
  render null = "null"
  render (bool true) = "true"
  render (bool false) = "false"
  render (num n) = n
  render (str s) = append_text "'" s
  render (arr xs) = append_text "[" (render_items xs)
  render (obj fs) = append_text "{" (render_fields fs)

  pub render_items : Items → String
  render_items nil = "]"
  render_items (cons x xs) = append_text (render x) (append_text "," (render_items xs))

  pub render_fields : Fields → String
  render_fields end = "}"
  render_fields (field k v fs) =
      append_text k (append_text ":" (append_text (render v) (append_text "," (render_fields fs))))

abbrev texts : MatchLibrary
texts = record { urls = known_urls; dumps = λ v. some (render v); has_instructions = λ s. false }

abbrev value_of : String → Number
value_of n =
    if n == "40"
    then whole (pos 40)
    else if n == "50"
    then whole (pos 50)
    else if n == "70"
    then whole (pos 70)
    else floating n

-- Ints against the one float 100.0.
abbrev is_at_most : Number → Number → Bool
is_at_most (whole z) (floating s) = s == "100.0" && leb_ℤ z (pos 100)
is_at_most _ _ = false

abbrev pub known_library : Library
known_library = record {
  matching = texts;
  loads = λ s. none;
  text_of = render;
  equal = λ v w. render v == render w;
  is_blank = λ s. s == "";
  casefold = λ s. s;
  ends_in_id = λ s. false;
  is_zero = λ n. n == "0";
  number_value = value_of;
  is_finite = λ s. not (s == "inf");
  add_floats = λ x y. floating "nan";
  leb_floats = is_at_most;
  sum_floats = λ ns. floating "nan";
  path_parts = λ s. s ∷ [];
  has_sensitive_name = λ s. s == "id_rsa";
  schema_accepts = λ schema arguments. true;
  digest = render;
  authority_digest = λ a schemas. some "digest";
}

abbrev notes : Adapter
notes = record {
  fields = "path" ∷ [];
  resources = "path" ∷ [];
  defaults = end;
  implicit = "workspace" ∷ [];
}

abbrev pub known_registry : Registry
known_registry = record {
  version = "1";
  reads = "read_note" ∷ [];
  mutations = "send_money" ∷ [];
  argument_dependent = [];
  object_fields = λ tool. if tool == "send_money" then "recipient" ∷ [] else [];
  network_fields = λ tool. [];
  generatable_fields = λ tool. [];
  recipient_fields = [];
  email_object_fields = [];
  sensitive_reads = [];
  read_adapters = λ adapter tool. if adapter == "notes" then some notes else none;
}

abbrev pub shop_grant : TaskAuthority
shop_grant = record {
  allowed_tools = some ("send_money" ∷ "read_note" ∷ []);
  repeatable_tools = [];
  argument_values = ("send_money", ("recipient", str "shop") ∷ []) ∷ [];
  resource_values = [];
  enforcement_mode = strict;
  generated_fields = [];
  delegated_fields = [];
  max_amount = some (floating "100.0");
  prohibited_content = "secret" ∷ [];
  approved_conditions = [];
}

abbrev note_schema : Fields
note_schema =
    field "properties" (obj (field "path" (obj end) end))
      (field "required" (arr (cons (str "path") nil)) end)

abbrev pub shop_schemas : Dict Fields
shop_schemas = ("send_money", end) ∷ ("read_note", note_schema) ∷ []

abbrev pub shop : CompiledAuthority
shop = record { scope = shop_grant; schemas = shop_schemas; digest = "digest" }

abbrev call : String → Fields → ToolCall
call tool arguments = record {
  task_id = "task-1";
  step_id = 0;
  tool_name = tool;
  arguments = arguments;
  consumed_observation_ids = [];
  requested_resources = [];
  call_id = "call-1";
}

abbrev pay : String → ToolCall
pay amount = call "send_money" (field "amount" (num amount) (field "recipient" (str "shop") end))

compiles : compile known_library known_registry shop_grant shop_schemas ≡ ok shop
unfolding compile validate_authority generates_forbidden check_tools conflicts names_absent
compiles = refl

pays : (evaluate known_library known_registry shop (pay "40") [] []).decision ≡ allow
unfolding ◌+ℤ◌ evaluate arguments_fit has_remote_refs check_authority strict_checks first
    duplicate_mutation tool_effect validate_authority generates_forbidden check_tools conflicts
    names_absent check_pinned check_delegated check_resources scoped_fields is_bad_amount
    is_unresolved paid_numbers spent argument_strings check_email sensitive_path explicit_fields
    is_idle needed_fields ungranted_fields output
pays = refl

pays_again :
    (evaluate known_library known_registry shop (pay "50") [] (pay "40" ∷ [])).decision ≡ allow
unfolding ◌+ℤ◌ evaluate arguments_fit has_remote_refs check_authority strict_checks first
    duplicate_mutation tool_effect validate_authority generates_forbidden check_tools conflicts
    names_absent check_pinned check_delegated check_resources scoped_fields is_bad_amount
    is_unresolved paid_numbers spent argument_strings check_email sensitive_path explicit_fields
    is_idle needed_fields ungranted_fields output
pays_again = refl

-- 40 and 70 are more than 100 together.
refuses_more :
    (evaluate known_library known_registry shop (pay "70") [] (pay "40" ∷ [])).decision ≡ block
unfolding ◌+ℤ◌ evaluate arguments_fit has_remote_refs check_authority strict_checks first
    duplicate_mutation tool_effect validate_authority generates_forbidden check_tools conflicts
    names_absent check_pinned check_delegated check_resources scoped_fields is_bad_amount
    is_unresolved paid_numbers spent argument_strings check_email sensitive_path explicit_fields
    is_idle needed_fields ungranted_fields output
refuses_more = refl

evaluate-IsGranted_example :
    (schema : Fields) × (scoped : ToolCall) × (get "send_money" shop_schemas ≡ some schema)
    × (true ≡ true)
    × KnowsNames (get_field "properties" schema) (pay "40").arguments
    × (normalize_read known_library known_registry shop (pay "40") ≡ ok scoped)
    × IsGranted known_library known_registry shop_grant scoped [] []
evaluate-IsGranted_example =
    evaluate-IsGranted known_library known_registry shop (pay "40") [] [] pays

pub unchanged :
    (amount : String)
    → normalize_read known_library known_registry shop (pay amount) ≡ ok (pay amount)
unfolding normalize_read tool_effect
unchanged amount = refl

two_payments : AllowedRun known_library known_registry shop (pay "50" ∷ pay "40" ∷ [])
two_payments =
    next (pay "40" ∷ []) (pay "50") (pay "50") []
      (next [] (pay "40") (pay "40") [] start pays (unchanged "40")) pays_again (unchanged "50")

run_within_amount_example :
    leb_numbers known_library
      (whole (pos (total_paid known_library (pay "50" ∷ pay "40" ∷ []))))
      (floating "100.0")
    ≡ true
run_within_amount_example =
    run_within_amount known_library known_registry shop (pay "50" ∷ pay "40" ∷ [])
      (floating "100.0") refl refl (refl, (refl, tt)) two_payments

run_repeats_nothing_example :
    Pairs
      (λ c earlier. is_repeat known_library known_registry shop_grant c earlier ≡ false)
      (pay "50" ∷ pay "40" ∷ [])
run_repeats_nothing_example =
    run_repeats_nothing known_library known_registry shop (pay "50" ∷ pay "40" ∷ []) two_payments

grant_is_valid : validate_authority known_registry shop_grant (some shop_schemas) ≡ ok tt
unfolding validate_authority generates_forbidden check_tools conflicts names_absent
grant_is_valid = refl

validate_authority-IsWellFormed_example :
    (allowed : List String) × IsWellFormed known_registry shop_grant (some shop_schemas) allowed
validate_authority-IsWellFormed_example =
    validate_authority-IsWellFormed known_registry shop_grant (some shop_schemas) grant_is_valid

abbrev bound_schema : Fields
bound_schema = field "properties" (obj (field "path" (obj end) end)) (
    field "required" (arr (cons (str "path") nil)) (
      field "x-traceguard-read-adapter"
        (obj
          (field "id" (str "notes") (field "schema_digest" (str (render (obj note_schema))) end)))
        end))

binds :
    bind_read_schema known_library known_registry note_schema "notes" "read_note" ≡ ok bound_schema
unfolding bind_read_schema remove_field add_field check_selectors
binds = refl

abbrev read_today : ToolCall
read_today = call "read_note" (field "path" (str "today") end)

scopes :
    scoped_read_call known_library known_registry read_today bound_schema
    ≡ ok (record read_today { requested_resources = "workspace" ∷ [] })
unfolding scoped_read_call bind_read_schema remove_field add_field check_selectors fill fill_one
scopes = refl

scoped_read_call-IsScopedRead_example :
    IsScopedRead known_registry read_today
      (record read_today { requested_resources = "workspace" ∷ [] })
scoped_read_call-IsScopedRead_example =
    scoped_read_call-IsScopedRead known_library known_registry read_today
      (record read_today { requested_resources = "workspace" ∷ [] }) bound_schema scopes

bound_scopes_example :
    scoped_read_call known_library known_registry read_today bound_schema
    ≡ normalized known_library read_today notes
        (fill known_library notes.defaults notes.resources read_today.arguments)
bound_scopes_example =
    bound_scopes known_library known_registry read_today note_schema bound_schema "notes" notes
      (λ v. eq_refl (render v)) refl binds
