-- ===== src/Authority/Valid.antt =====
-- What `validate_authority` of src/traceguard/policy/kernel.py accepts.
use trace_guard.Common.{
  String, true, false, ◌||◌, Option, none, some, List, [], ◌∷◌, ◌≡◌, refl, All, All-any-false, Dict,
  mem, exceeds, meets, Bool-cases, inl, inr, arith, ok,
}
use trace_guard.Json.{Fields}
use trace_guard.Authority.Calls.{TaskAuthority}
use trace_guard.Authority.Registry.{Registry}
use trace_guard.Authority.Grants.{
  is_strict, pinned_fields, resource_fields, delegated_names, generated_names, configured_tools,
  conflicts, names_absent, unset_properties, check_tools, lacks_schema, validate_tools,
  validate_authority, generates_forbidden,
}

-- A field of a tool has at most one definition.
pub record IsUnambiguous (a : TaskAuthority) (tool : String) : Type 0 where
  pub resources : All (λ f. mem f (pinned_fields a tool) ≡ false) (resource_fields a tool)
  pub delegated :
      All
        (λ f. (mem f (pinned_fields a tool) || mem f (resource_fields a tool)) ≡ false)
        (delegated_names a tool)
  pub generated :
      All
        (λ f.
          (mem f (pinned_fields a tool)
            || mem f (resource_fields a tool)
            || mem f (delegated_names a tool))
          ≡ false)
        (generated_names a tool)

pub record IsWellFormed (g : Registry) (a : TaskAuthority) (schemas : Option (Dict Fields))
    (allowed : List String) : Type 0 where
  pub strict_mode : is_strict a.enforcement_mode ≡ true
  pub listed : a.allowed_tools ≡ some allowed
  pub configured : All (λ tool. mem tool allowed ≡ true) (configured_tools a)
  pub repeatable : All (λ tool. mem tool allowed ≡ true) a.repeatable_tools
  pub described : lacks_schema allowed schemas ≡ false
  pub generatable :
      All (λ e. All (λ f. mem f (g.generatable_fields e.0) ≡ true) e.1) a.generated_fields
  pub unambiguous : All (IsUnambiguous a) allowed
  pub named : All (λ tool. names_absent a schemas tool ≡ false) allowed

pub exceeds_within : (xs ys : List String) → exceeds xs ys ≡ false → All (λ x. mem x ys ≡ true) xs
exceeds_within [] ys h = tt
exceeds_within (x ∷ xs) ys h = (ground arith, exceeds_within xs ys (ground arith))

apart2 :
    (xs ys zs : List String)
    → (meets xs ys || meets xs zs) ≡ false
    → All (λ x. (mem x ys || mem x zs) ≡ false) xs
apart2 [] ys zs h = tt
apart2 (x ∷ xs) ys zs h = (ground arith, apart2 xs ys zs (ground arith))

apart3 :
    (xs ys zs ws : List String)
    → (meets xs ys || meets xs zs || meets xs ws) ≡ false
    → All (λ x. (mem x ys || mem x zs || mem x ws) ≡ false) xs
apart3 [] ys zs ws h = tt
apart3 (x ∷ xs) ys zs ws h = (ground arith, apart3 xs ys zs ws (ground arith))

conflicts-IsUnambiguous :
    (a : TaskAuthority) (tool : String) → conflicts a tool ≡ false → IsUnambiguous a tool
unfolding conflicts
conflicts-IsUnambiguous a tool h = record {
  resources = All-any-false _ (resource_fields a tool) (ground arith);
  delegated = apart2 _ _ _ (ground arith);
  generated = apart3 _ _ _ _ (ground arith);
}

check_tools-All :
    (a : TaskAuthority) (schemas : Option (Dict Fields)) (tools : List String)
    → check_tools a schemas tools ≡ ok tt
    → All (IsUnambiguous a) tools × All (λ tool. names_absent a schemas tool ≡ false) tools
unfolding check_tools
check_tools-All a schemas [] h = (tt, tt)
check_tools-All a schemas (tool ∷ tools) h = elim (Bool-cases (conflicts a tool)) [
  | inl c ↦ cc (rw c at h)
  | inr c ↦ elim (Bool-cases (unset_properties schemas tool)) [
    | inl u ↦ cc (rw (c, u) at h)
    | inr u ↦ elim (Bool-cases (names_absent a schemas tool)) [
      | inl n ↦ cc (rw (c, u, n) at h)
      | inr n ↦
          (let rest = check_tools-All a schemas tools (rw (c, u, n) at h) in
            ((conflicts-IsUnambiguous a tool c, rest.0), (n, rest.1)))
    ]
  ]
]

generatable-All :
    (g : Registry) (d : Dict (List String))
    → generates_forbidden g d ≡ false
    → All (λ e. All (λ f. mem f (g.generatable_fields e.0) ≡ true) e.1) d
unfolding generates_forbidden
generatable-All g [] h = tt
generatable-All g ((tool, fields) ∷ rest) h =
    (exceeds_within fields _ (ground arith), generatable-All g rest (ground arith))

validate_tools-IsWellFormed :
    (g : Registry) (a : TaskAuthority) (schemas : Option (Dict Fields))
    (tools : Option (List String))
    → is_strict a.enforcement_mode ≡ true
    → a.allowed_tools ≡ tools
    → validate_tools g a schemas tools ≡ ok tt
    → (allowed : List String) × IsWellFormed g a schemas allowed
validate_tools-IsWellFormed g a schemas none m e h = cc
validate_tools-IsWellFormed g a schemas (some allowed) m e h =
    elim (Bool-cases (exceeds (configured_tools a) allowed)) [
      | inl t ↦ cc (rw t at h)
      | inr c ↦ elim (Bool-cases (lacks_schema allowed schemas)) [
        | inl t ↦ cc (rw (c, t) at h)
        | inr l ↦ elim (Bool-cases (exceeds a.repeatable_tools allowed)) [
          | inl t ↦ cc (rw (c, l, t) at h)
          | inr r ↦ elim (Bool-cases (generates_forbidden g a.generated_fields)) [
            | inl t ↦ cc (rw (c, l, r, t) at h)
            | inr f ↦
                (let tools = check_tools-All a schemas allowed (rw (c, l, r, f) at h) in
                  (
                    allowed,
                    record {
                      strict_mode = m;
                      listed = e;
                      configured = exceeds_within _ _ c;
                      repeatable = exceeds_within _ _ r;
                      described = l;
                      generatable = generatable-All g _ f;
                      unambiguous = tools.0;
                      named = tools.1;
                    },
                  ))
          ]
        ]
      ]
    ]

-- A grant that validate_authority accepts is strict and lists its tools; what it configures or
-- repeats is listed; generated fields are ones that may be generated; and every field of a listed
-- tool has at most one definition, in a schema that has the tool and the field where schemas are
-- given.
pub validate_authority-IsWellFormed :
    (g : Registry) (a : TaskAuthority) (schemas : Option (Dict Fields))
    → validate_authority g a schemas ≡ ok tt
    → (allowed : List String) × IsWellFormed g a schemas allowed
unfolding validate_authority
validate_authority-IsWellFormed g a schemas h = elim (Bool-cases (is_strict a.enforcement_mode)) [
  | inr f ↦ cc (rw f at h)
  | inl m ↦ validate_tools-IsWellFormed g a schemas a.allowed_tools m refl (rw m at h)
]
