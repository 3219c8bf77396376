-- ===== src/Authority/InScope.antt =====
-- The resources that a grant of src/traceguard/policy/kernel.py permits, and lists of fields.
use trace_guard.Common.{
  String, Bool, true, some, List, [], ◌∷◌, ◌++◌, ◌≡◌, ◌⊎◌, refl, eq_refl, any, all, keep, keys, All,
  get, get_all, mem, Bool-cases, Option-cases, inl, inr, arith,
}
use trace_guard.Json.{Json}
use trace_guard.Authority.Calls.{ToolCall, TaskAuthority}
use trace_guard.Authority.Registry.{Library, values_of}
use trace_guard.Authority.Checks.{is_fixed, actual_of, same, is_within, is_permitted}
use trace_guard.Authority.Permits.{is_scoped}

-- A field is pinned or delegated.
abbrev pub IsFixed : TaskAuthority → ToolCall → String → Type 0
IsFixed a call f =
    (mem f (keys (get_all call.tool_name a.argument_values)) ≡ true)
    ⊎ (mem f (keys (get_all call.tool_name a.delegated_fields)) ≡ true)

-- Among the permitted values.
abbrev pub IsAmong : Library → List Json → Json → Type 0
IsAmong lib permitted v = any (λ w. same lib v w) permitted ≡ true

-- The field is fixed, or the grant permits each of its values, of which there is one at least.
abbrev pub IsInScope : Library → TaskAuthority → ToolCall → String → Type 0
IsInScope lib a call f =
    IsFixed a call f
    ⊎ ((permitted : List Json) × (get f (get_all call.tool_name a.resource_values) ≡ some permitted)
        × (¬ (values_of (actual_of call f) ≡ []))
        × All (IsAmong lib permitted) (values_of (actual_of call f)))

pub is_fixed-IsFixed :
    (a : TaskAuthority) (call : ToolCall) (f : String)
    → is_fixed a call.tool_name f ≡ true
    → IsFixed a call f
is_fixed-IsFixed a call f h =
    elim (Bool-cases (mem f (keys (get_all call.tool_name a.argument_values)))) [
      | inl t ↦ inl t
      | inr t ↦ inr (ground arith)
    ]

all-IsAmong :
    (lib : Library) (permitted vs : List Json)
    → all (is_permitted lib permitted) vs ≡ true
    → All (IsAmong lib permitted) vs
all-IsAmong lib permitted [] h = tt
all-IsAmong lib permitted (v ∷ vs) h = (ground arith, all-IsAmong lib permitted vs (ground arith))

within-IsAmong :
    (lib : Library) (permitted vs : List Json)
    → is_within lib permitted vs ≡ true
    → (¬ (vs ≡ [])) × All (IsAmong lib permitted) vs
within-IsAmong lib permitted [] h = cc
within-IsAmong lib permitted (v ∷ vs) h = (λ e. cc, all-IsAmong lib permitted (v ∷ vs) h)

pub scoped-IsInScope :
    (lib : Library) (a : TaskAuthority) (call : ToolCall) (f : String)
    → is_scoped lib call a f ≡ true
    → IsInScope lib a call f
scoped-IsInScope lib a call f h = elim (Bool-cases (is_fixed a call.tool_name f)) [
  | inl t ↦ inl (is_fixed-IsFixed a call f t)
  | inr t ↦ elim (Option-cases (get f (get_all call.tool_name a.resource_values))) [
    | inl n ↦ cc (rw (t, n) at h)
    | inr (permitted, e) ↦
        (let (some_value, each) =
            within-IsAmong lib permitted (values_of (actual_of call f)) (rw (t, e) at h) in
          inr (permitted, e, some_value, each))
  ]
]

-- The parts of a list of fields.
pub keep-All :
    (P : String → Type 0) (q : String → Bool) (xs : List String)
    → All P (keep q xs)
    → All (λ x. q x ≡ true → P x) xs
keep-All P q [] h = tt
keep-All P q (x ∷ xs) h = elim (Bool-cases (q x)) [
  | inl t ↦ (let (y, rest) = (rw t at h) in (λ e. y, keep-All P q xs rest))
  | inr t ↦ (λ e. cc (rw t at e), keep-All P q xs (rw t at h))
]

pub All-left : (P : String → Type 0) (xs ys : List String) → All P (xs ++ ys) → All P xs
All-left P [] ys h = tt
All-left P (x ∷ xs) ys h = (h.0, All-left P xs ys h.1)

pub All-right : (P : String → Type 0) (xs ys : List String) → All P (xs ++ ys) → All P ys
All-right P [] ys h = h
All-right P (x ∷ xs) ys h = All-right P xs ys h.1

pub All-map :
    (P Q : String → Type 0) (xs : List String) → ((x : String) → P x → Q x) → All P xs → All Q xs
All-map P Q [] f h = tt
All-map P Q (x ∷ xs) f h = (f x h.0, All-map P Q xs f h.1)

All-mem : (xs : List String) → All (λ x. mem x xs ≡ true) xs
All-mem [] = tt
All-mem (x ∷ xs) =
    (rw (eq_refl x) refl, All-map (λ y. mem y xs ≡ true) _ xs (λ y h. ground arith) (All-mem xs))

All-apply :
    (P Q : String → Type 0) (xs : List String) → All (λ x. P x → Q x) xs → All P xs → All Q xs
All-apply P Q [] f h = tt
All-apply P Q (x ∷ xs) f h = (f.0 h.0, All-apply P Q xs f.1 h.1)

-- A condition that every member of the list meets is left out.
pub All-present :
    (P : String → Type 0) (xs : List String) → All (λ x. mem x xs ≡ true → P x) xs → All P xs
All-present P xs h = All-apply (λ x. mem x xs ≡ true) P xs h (All-mem xs)
