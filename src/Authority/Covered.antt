-- ===== src/Authority/Covered.antt =====
-- The fields of a call that src/traceguard/policy/kernel.py takes as granted.
use trace_guard.Common.{
  String, true, not, some, List, [], ◌∷◌, ◌++◌, ◌==◌, ◌≡◌, ◌⊎◌, sym, keep, keys, All, get_all, mem,
  Bool-cases, Option-cases, inl, inr, arith, ==→eq,
}
use trace_guard.Json.{get_field}
use trace_guard.Authority.Calls.{Number, ToolCall, TaskAuthority}
use trace_guard.Authority.Grants.{
  explicit_fields, is_idle, is_empty_value, payment_tools, granted_names,
}

-- The grants that a field of a call can have.
pub data IsCovered (a : TaskAuthority) (call : ToolCall) (f : String) : Type 0 where
  by_value : mem f (keys (get_all call.tool_name a.argument_values)) ≡ true → IsCovered a call f
  by_resource : mem f (keys (get_all call.tool_name a.resource_values)) ≡ true → IsCovered a call f
  by_source : mem f (keys (get_all call.tool_name a.delegated_fields)) ≡ true → IsCovered a call f
  by_generation : mem f (get_all call.tool_name a.generated_fields) ≡ true → IsCovered a call f
  by_budget :
      (limit : Number)
      → a.max_amount ≡ some limit
      → mem call.tool_name ("send_money" ∷ "schedule_transaction" ∷ []) ≡ true
      → f ≡ "amount"
      → IsCovered a call f
  -- `cc`, `bcc` or `attachments` of an email, with no value
  left_empty :
      call.tool_name ≡ "send_email"
      → mem f ("cc" ∷ "bcc" ∷ "attachments" ∷ []) ≡ true
      → is_empty_value (get_field f call.arguments) ≡ true
      → IsCovered a call f

module _ (a : TaskAuthority) (call : ToolCall) (f : String) where
  mem-split :
      (xs ys : List String) → mem f (xs ++ ys) ≡ true → (mem f xs ≡ true) ⊎ (mem f ys ≡ true)
  mem-split [] ys h = inr h
  mem-split (x ∷ xs) ys h = elim (Bool-cases (x == f)) [
    | inl t ↦ inl (ground arith)
    | inr t ↦ elim (mem-split xs ys (ground arith)) [ inl m ↦ inl (ground arith) | inr m ↦ inr m ]
  ]

  names-IsCovered : mem f (granted_names a call.tool_name) ≡ true → IsCovered a call f
  names-IsCovered h = elim (mem-split (keys (get_all call.tool_name a.argument_values)) _ h) [
    | inl m ↦ by_value m
    | inr r ↦ elim (mem-split (keys (get_all call.tool_name a.resource_values)) _ r) [
      | inl m ↦ by_resource m
      | inr s ↦ elim (mem-split (keys (get_all call.tool_name a.delegated_fields)) _ s) [
        | inl m ↦ by_source m
        | inr m ↦ by_generation m
      ]
    ]
  ]

  pub explicit-IsCovered : mem f (explicit_fields call a) ≡ true → IsCovered a call f
  unfolding explicit_fields
  explicit-IsCovered h = elim (Option-cases a.max_amount) [
    | inl n ↦ names-IsCovered (rw n at h)
    | inr (limit, e) ↦ elim (Bool-cases (mem call.tool_name payment_tools)) [
      | inr o ↦ names-IsCovered (rw (e, o) at h)
      | inl p ↦ elim (Bool-cases ("amount" == f)) [
        | inl t ↦ by_budget limit e p (sym (==→eq "amount" f t))
        | inr t ↦ names-IsCovered (rw (e, p, t) at h)
      ]
    ]
  ]

  idle-IsCovered : is_idle call f ≡ true → IsCovered a call f
  unfolding is_idle
  idle-IsCovered h = left_empty (==→eq _ _ (ground arith)) (ground arith) (ground arith)

module _ (a : TaskAuthority) (call : ToolCall) where
  -- What is kept and has a grant, or is left out as idle.
  pub kept-IsCovered :
      (fs : List String)
      → All (λ f. mem f (explicit_fields call a) ≡ true) (keep (λ f. not (is_idle call f)) fs)
      → All (IsCovered a call) fs
  kept-IsCovered [] h = tt
  kept-IsCovered (f ∷ fs) h = elim (Bool-cases (is_idle call f)) [
    | inl t ↦ (idle-IsCovered a call f t, kept-IsCovered fs (rw t at h))
    | inr t ↦
        (let (x, rest) = (rw t at h) in (explicit-IsCovered a call f x, kept-IsCovered fs rest))
  ]
