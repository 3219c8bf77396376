-- ===== src/Authority/Bound.antt =====
-- What src/traceguard/policy/read_resources.py guarantees of a read call, and that a schema which it
-- bound is accepted again.
use trace_guard.Common.{
  String, true, false, Option, none, some, List, [], ◌∷◌, ◌++◌, ◌≡◌, refl, sym, ap, ◌∙◌, ◌==◌, All,
  All-sorted_set, mem, sorted_set, Bool-cases, Result-cases, inl, inr, arith, ok_injective, exceeds,
  Result, ok, err, eq_refl,
}
use trace_guard.Json.{Json, Fields, end, field, get_field}
use trace_guard.Authority.Calls.{ToolCall}
use trace_guard.Authority.Registry.{Registry, Library, Adapter, field_names, is_null}
use trace_guard.Authority.Reads.{
  fill_one, extension, remove_field, add_field, fields_of, binding_of, bind_reviewed,
  bind_read_schema, fill, normalized, with_adapter, with_binding, scoped_read_call, check_selectors,
}

remove-add :
    (key : String) (v : Json) (fs : Fields)
    → remove_field key (add_field key v fs) ≡ remove_field key fs
unfolding remove_field add_field
remove-add key v end = rw (eq_refl key) refl
remove-add key v (field k w fs) = ground (arith, remove-add key v fs)

remove-remove :
    (key : String) (fs : Fields) → remove_field key (remove_field key fs) ≡ remove_field key fs
unfolding remove_field
remove-remove key end = refl
remove-remove key (field k w fs) = elim (Bool-cases (k == key)) [
  | inl t ↦ rw t (remove-remove key fs)
  | inr f ↦ rw (f, f) (ap (field k w) (remove-remove key fs))
]

get-add-remove :
    (key : String) (v : Json) (fs : Fields)
    → get_field key (add_field key v (remove_field key fs)) ≡ v
unfolding remove_field add_field
get-add-remove key v end = rw (eq_refl key) refl
get-add-remove key v (field k w fs) = elim (Bool-cases (k == key)) [
  | inl t ↦ rw t (get-add-remove key v fs)
  | inr f ↦ rw (f, f) (get-add-remove key v fs)
]

get-add :
    (f key : String) (v : Json) (fs : Fields)
    → is_null (get_field f fs) ≡ false
    → is_null (get_field f (add_field key v fs)) ≡ false
unfolding add_field
get-add f key v end h = cc
get-add f key v (field k w fs) h = ground (arith, get-add f key v fs)

module _ (lib : Library) where
  bind_reviewed_bound :
      (plain bound : Fields) (adapter_id : String) (reviewed : Option Adapter)
      → bind_reviewed lib plain adapter_id reviewed ≡ ok bound
      → add_field extension (binding_of lib adapter_id plain) plain ≡ bound
  bind_reviewed_bound plain bound adapter_id none h = cc
  bind_reviewed_bound plain bound adapter_id (some reviewed) h =
      elim (Bool-cases
        (exceeds (field_names (fields_of (get_field "properties" plain))) reviewed.fields)) [
          | inl t ↦ cc (rw t at h)
          | inr t ↦
              elim (Result-cases (
                check_selectors lib plain (fields_of (get_field "properties" plain))
                  reviewed.defaults reviewed.resources)) [
                    | inl (x, e) ↦ cc (rw (t, e) at h)
                    | inr (x, e) ↦ ok_injective (rw (t, e) at h)
                  ]
        ]

  -- The bound schema is the one without its binding, and the binding.
  bind_read_schema_bound :
      (g : Registry) (schema bound : Fields) (adapter_id tool_name : String)
      → bind_read_schema lib g schema adapter_id tool_name ≡ ok bound
      → add_field extension
          (binding_of lib adapter_id (remove_field extension schema))
          (remove_field extension schema)
        ≡ bound
  unfolding bind_read_schema
  bind_read_schema_bound g schema bound adapter_id tool_name h =
      bind_reviewed_bound (remove_field extension schema) bound adapter_id
        (g.read_adapters adapter_id tool_name) h

  -- A schema that was bound is bound again to itself.
  pub bind_again :
      (g : Registry) (schema bound : Fields) (adapter_id tool_name : String)
      → bind_read_schema lib g schema adapter_id tool_name ≡ ok bound
      → bind_read_schema lib g bound adapter_id tool_name ≡ ok bound
  unfolding bind_read_schema
  bind_again g schema bound adapter_id tool_name h =
      let e = bind_read_schema_bound g schema bound adapter_id tool_name h in
      let plain : remove_field extension bound ≡ remove_field extension schema =
        ap (remove_field extension) (sym e)
        ∙ (remove-add extension _ (remove_field extension schema)
            ∙ remove-remove extension schema) in
      rw plain h

  fill_one-keeps :
      (defaults : Fields) (x : String) (arguments : Fields) (f : String)
      → is_null (get_field f arguments) ≡ false
      → is_null (get_field f (fill_one lib defaults x arguments)) ≡ false
  unfolding fill_one
  fill_one-keeps defaults x arguments f k =
      ground (arith, get-add f x (get_field x defaults) arguments k)

  fill-keeps :
      (defaults : Fields) (fs : List String) (arguments filled : Fields) (f : String)
      → fill lib defaults fs arguments ≡ ok filled
      → is_null (get_field f arguments) ≡ false
      → is_null (get_field f filled) ≡ false
  unfolding fill
  fill-keeps defaults [] arguments filled f h k = rw (ok_injective h) at k
  fill-keeps defaults (x ∷ xs) arguments filled f h k =
      elim (Bool-cases (is_null (get_field x (fill_one lib defaults x arguments)))) [
        | inl t ↦ cc (rw t at h)
        | inr t ↦
            fill-keeps defaults xs (fill_one lib defaults x arguments) filled f (rw t at h)
              (fill_one-keeps defaults x arguments f k)
      ]

  -- Every reviewed resource has a value.
  fill-All :
      (defaults : Fields) (fs : List String) (arguments filled : Fields)
      → fill lib defaults fs arguments ≡ ok filled
      → All (λ f. is_null (get_field f filled) ≡ false) fs
  unfolding fill
  fill-All defaults [] arguments filled h = tt
  fill-All defaults (x ∷ xs) arguments filled h =
      elim (Bool-cases (is_null (get_field x (fill_one lib defaults x arguments)))) [
        | inl t ↦ cc (rw t at h)
        | inr t ↦ (
          fill-keeps defaults xs (fill_one lib defaults x arguments) filled x (rw t at h) t,
          fill-All defaults xs (fill_one lib defaults x arguments) filled (rw t at h),
        )
      ]

-- Every member of a list stands in it, and in its sorted set.
All-mem-skip :
    (z : String) (xs ys : List String)
    → All (λ x. mem x ys ≡ true) xs
    → All (λ x. mem x (z ∷ ys) ≡ true) xs
All-mem-skip z [] ys h = tt
All-mem-skip z (x ∷ xs) ys h = (ground arith, All-mem-skip z xs ys h.1)

All-mem : (xs : List String) → All (λ x. mem x xs ≡ true) xs
All-mem [] = tt
All-mem (x ∷ xs) = (rw (eq_refl x) refl, All-mem-skip x xs xs (All-mem xs))

-- What a read call has, once it is scoped.
pub record IsScopedRead (g : Registry) (call scoped : ToolCall) : Type 0 where
  pub adapter_id : String
  pub reviewed : Adapter
  pub approved : g.read_adapters adapter_id call.tool_name ≡ some reviewed
  pub given : All (λ f. is_null (get_field f scoped.arguments) ≡ false) reviewed.resources
  pub requested :
      All
        (λ r. mem r scoped.requested_resources ≡ true)
        (call.requested_resources ++ reviewed.implicit)
  pub same_tool : scoped.tool_name ≡ call.tool_name
  pub same_call : scoped.call_id ≡ call.call_id

module _ (lib : Library) (g : Registry) where
  normalized-IsScopedRead :
      (call scoped : ToolCall) (adapter_id : String) (reviewed : Adapter) (r : Result Fields)
      → g.read_adapters adapter_id call.tool_name ≡ some reviewed
      → r ≡ fill lib reviewed.defaults reviewed.resources call.arguments
      → normalized lib call reviewed r ≡ ok scoped
      → IsScopedRead g call scoped
  normalized-IsScopedRead call scoped adapter_id reviewed (err x) a e h = cc
  normalized-IsScopedRead call scoped adapter_id reviewed (ok arguments) a e h =
      rw (sym (ok_injective h)) (record {
        adapter_id = adapter_id;
        reviewed = reviewed;
        approved = a;
        given = fill-All lib reviewed.defaults reviewed.resources call.arguments arguments (sym e);
        requested =
            All-sorted_set _ _
              (All-mem (sorted_set (call.requested_resources ++ reviewed.implicit)));
        same_tool = refl;
        same_call = refl;
      })

  with_adapter-IsScopedRead :
      (call scoped : ToolCall) (adapter_id : String) (o : Option Adapter)
      → g.read_adapters adapter_id call.tool_name ≡ o
      → with_adapter lib call o ≡ ok scoped
      → IsScopedRead g call scoped
  with_adapter-IsScopedRead call scoped adapter_id none a h = cc
  with_adapter-IsScopedRead call scoped adapter_id (some reviewed) a h =
      normalized-IsScopedRead call scoped adapter_id reviewed _ a refl h

  with_binding-IsScopedRead :
      (call scoped : ToolCall) (binding : Json) (r : Result Fields)
      → with_binding lib g call binding r ≡ ok scoped
      → IsScopedRead g call scoped
  with_binding-IsScopedRead call scoped binding (err x) h = cc
  with_binding-IsScopedRead call scoped binding (ok verified) h =
      elim (Bool-cases (lib.equal (get_field extension verified) binding)) [
        | inr f ↦ cc (rw f at h)
        | inl t ↦ with_adapter-IsScopedRead call scoped _ _ refl (rw t at h)
      ]

  -- A read call that is returned is scoped by an adapter reviewed for its tool: every resource of
  -- the adapter has a value, the requested resources have all that were requested and all that
  -- the adapter implies, and the tool and the call's id are as they were.
  pub scoped_read_call-IsScopedRead :
      (call scoped : ToolCall) (schema : Fields)
      → scoped_read_call lib g call schema ≡ ok scoped
      → IsScopedRead g call scoped
  unfolding scoped_read_call
  scoped_read_call-IsScopedRead call scoped schema h = with_binding-IsScopedRead call scoped _ _ h

  -- If a schema is bound to an adapter reviewed for a call's tool, and equal values compare
  -- equal, the bound schema passes its own check: the call is scoped by that adapter, with its
  -- defaults filled in.
  pub bound_scopes :
      (call : ToolCall) (schema bound : Fields) (adapter_id : String) (reviewed : Adapter)
      → ((v : Json) → lib.equal v v ≡ true)
      → g.read_adapters adapter_id call.tool_name ≡ some reviewed
      → bind_read_schema lib g schema adapter_id call.tool_name ≡ ok bound
      → scoped_read_call lib g call bound
        ≡ normalized lib call reviewed
            (fill lib reviewed.defaults reviewed.resources call.arguments)
  unfolding scoped_read_call
  bound_scopes call schema bound adapter_id reviewed reflexive a h =
      let e = bind_read_schema_bound lib g schema bound adapter_id call.tool_name h in
      let stored : get_field extension bound
          ≡ binding_of lib adapter_id (remove_field extension schema) =
        ap (get_field extension) (sym e) ∙ get-add-remove extension _ schema in
      rw (stored, bind_again lib g schema bound adapter_id call.tool_name h, stored)
        (rw (reflexive (binding_of lib adapter_id (remove_field extension schema)), a) refl)
