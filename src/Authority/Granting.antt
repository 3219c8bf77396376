-- ===== src/Authority/Granting.antt =====
-- What it is for a call to be granted, said of the call, the grant and the schema of
-- src/traceguard/policy/kernel.py.
use trace_guard.Common.{
  String, true, false, none, some, List, [], ◌∷◌, ◌≡◌, ◌⊎◌, any, keys, All, get_all, mem, ok,
}
use trace_guard.Json.{Json, num, obj, Fields, field, get_field}
use trace_guard.Authority.Calls.{Number, ToolCall, Observation, TaskAuthority}
use trace_guard.Authority.Registry.{
  Registry, Library, read, unknown, EmailEffects, tool_effect, field_names, email_effects,
  sensitive_path,
}
use trace_guard.Authority.Checks.{
  spent, add_numbers, leb_numbers, is_amount, is_payment, actual_of, same, repeats,
}
use trace_guard.Authority.Permits.{HasSource}
use trace_guard.Authority.Covered.{IsCovered}
use trace_guard.Authority.Omitted.{OmitsFields}
use trace_guard.Authority.InScope.{IsFixed, IsInScope}

-- A payment's amount: a finite number that is not negative.
abbrev pub HasAmount : Library → ToolCall → Type 0
HasAmount lib call =
    (n : String) × (get_field "amount" call.arguments ≡ num n)
    × (is_amount lib (lib.number_value n) ≡ true)

-- The earlier payments and the amount together are at most the limit.
abbrev pub IsAffordable : Library → List ToolCall → ToolCall → Number → Type 0
IsAffordable lib previous_calls call limit =
    (n : String) × (get_field "amount" call.arguments ≡ num n)
    × (is_amount lib (lib.number_value n) ≡ true)
    × (leb_numbers lib (add_numbers lib (spent lib previous_calls) (lib.number_value n)) limit
        ≡ true)

-- A field is in scope, if the call has it.
abbrev pub IsPresentInScope : Library → TaskAuthority → ToolCall → String → Type 0
IsPresentInScope lib a call f = mem f (field_names call.arguments) ≡ true → IsInScope lib a call f

-- A call that a grant permits.
pub record IsGranted (lib : Library) (g : Registry) (a : TaskAuthority) (call : ToolCall)
    (observations : List Observation) (previous_calls : List ToolCall) : Type 0 where
  pub allowed : List String
  pub allowlist : a.allowed_tools ≡ some allowed
  pub listed : mem call.tool_name allowed ≡ true
  pub harmless : ¬ (call.tool_name ≡ "harmful_action_simulator")
  pub known : ¬ (tool_effect g call ≡ unknown)
  pub fresh :
      (tool_effect g call ≡ read)
      ⊎ (mem call.tool_name a.repeatable_tools ≡ true)
      ⊎ (any (repeats lib call) previous_calls ≡ false)
  pub pinned :
      All (λ p. same lib (actual_of call p.0) p.1 ≡ true) (get_all call.tool_name a.argument_values)
  pub delegated : All (HasSource lib call observations) (get_all call.tool_name a.delegated_fields)
  -- The registered fields that the call has, what is named like an id, and what the grant restricts
  pub objects : All (IsPresentInScope lib a call) (g.object_fields call.tool_name)
  pub networks : All (IsPresentInScope lib a call) (g.network_fields call.tool_name)
  pub named :
      All (λ f. lib.ends_in_id f ≡ true → IsInScope lib a call f) (field_names call.arguments)
  pub restricted : All (IsInScope lib a call) (keys (get_all call.tool_name a.resource_values))
  pub paid : is_payment call ≡ true → HasAmount lib call
  pub affordable :
      (limit : Number)
      → a.max_amount ≡ some limit
      → mem "amount" (field_names call.arguments) ≡ true
      → IsAffordable lib previous_calls call limit
  pub decided : is_payment call ≡ true → a.max_amount ≡ none → IsFixed a call "amount"
  pub hidden : All (λ t. (t ≡ "") ⊎ OmitsFields t call.arguments) a.prohibited_content
  pub emailed :
      call.tool_name ≡ "send_email"
      → (e : EmailEffects) × (email_effects lib g call ≡ ok e)
        × All (IsFixed a call) e.referenced_objects
  pub unprotected :
      All
        (λ f.
          mem f (field_names call.arguments) ≡ true
          → sensitive_path lib (lib.text_of (get_field f call.arguments)) ≡ false)
        ("path" ∷ "file_path" ∷ [])
  pub covered : (tool_effect g call ≡ read) ⊎ All (IsCovered a call) (field_names call.arguments)
  pub requested : (call.requested_resources ≡ []) ⊎ IsCovered a call "requested_resources"

-- The names that a schema's properties, if there are any, know.
abbrev pub KnowsNames : Json → Fields → Type 0
KnowsNames (obj (field k v fs)) arguments =
    All (λ f. mem f (k ∷ field_names fs) ≡ true) (field_names arguments)
KnowsNames _ arguments = Unit
