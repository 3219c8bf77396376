-- ===== src/Authority/Granted.antt =====
-- What a call that `CompiledAuthority.evaluate` of src/traceguard/policy/kernel.py allows is, said of the
-- call, the grant and the schema.
use trace_guard.Common.{
  String, true, false, not, none, some, List, [], ◌∷◌, ◌++◌, ◌==◌, ◌≡◌, ◌⊎◌, refl, eq_refl,
  if◌then◌else◌, any, keep, keys, All, get, get_all, mem, Bool-cases, inl, inr, arith, ok, err,
  Result, ==→eq, ==→ne,
}
use trace_guard.Json.{Json, null, bool, num, str, arr, obj, Fields, end, field, get_field}
use trace_guard.Control.Models.{allow}
use trace_guard.Authority.Calls.{Number, ToolCall, Observation, TaskAuthority}
use trace_guard.Authority.Registry.{
  Registry, Library, Effect, is_unknown, is_consequential, read, mutate, command, unknown,
  EmailEffects, tool_effect, field_names, scoped_fields, email_effects, sensitive_path,
}
use trace_guard.Authority.Grants.{needed_fields, resource_fields, resource_name}
use trace_guard.Authority.Checks.{
  is_bad_amount, is_payment, is_fixed, discloses, is_unresolved, check_email, judge_email,
  is_sensitive_at, repeats, is_over,
}
use trace_guard.Authority.Permits.{IsPermitted, is_scoped, refuse_passes}
use trace_guard.Authority.Kernel.{CompiledAuthority, evaluate, normalize_read, arguments_fit}
use trace_guard.Authority.Valid.{exceeds_within, validate_authority-IsWellFormed}
use trace_guard.Authority.Allowed.{evaluate-IsAllowed}
use trace_guard.Authority.Covered.{IsCovered, kept-IsCovered}
use trace_guard.Authority.Omitted.{OmitsFields, fields-Omits}
use trace_guard.Authority.InScope.{
  IsFixed, IsInScope, is_fixed-IsFixed, scoped-IsInScope, keep-All, All-left, All-right, All-map,
  All-present,
}
use trace_guard.Authority.Granting.{
  HasAmount, IsAffordable, IsPresentInScope, IsGranted, KnowsNames,
}

module _ (lib : Library) (g : Registry) (call : ToolCall) (observations : List Observation)
    (a : TaskAuthority) (previous_calls : List ToolCall)
    (p : IsPermitted lib g call observations a previous_calls) where
  effect_of : (e : Effect) → is_unknown e ≡ false → (e ≡ read) ⊎ (is_consequential e ≡ true)
  effect_of read h = inl refl
  effect_of mutate h = inr refl
  effect_of command h = inr refl
  effect_of unknown h = cc

  fresh_call :
      (tool_effect g call ≡ read)
      ⊎ (mem call.tool_name a.repeatable_tools ≡ true)
      ⊎ (any (repeats lib call) previous_calls ≡ false)
  fresh_call =
      let f = p.fresh in
      elim (effect_of (tool_effect g call) p.known) [
        | inl e ↦ inl e
        | inr c ↦ elim (Bool-cases (mem call.tool_name a.repeatable_tools)) [
          | inl m ↦ inr (inl m)
          | inr m ↦ inr (inr (ground arith))
        ]
      ]

  resources-IsInScope :
      All
        (λ f. mem f (field_names call.arguments) ≡ true → IsInScope lib a call f)
        (g.object_fields call.tool_name
          ++ (g.network_fields call.tool_name ++ keep lib.ends_in_id (field_names call.arguments)))
      × All (IsInScope lib a call) (keys (get_all call.tool_name a.resource_values))
  unfolding scoped_fields
  resources-IsInScope =
      let each =
        All-map (λ f. is_scoped lib call a f ≡ true) (IsInScope lib a call)
          (scoped_fields lib g call ++ resource_fields a call.tool_name)
          (scoped-IsInScope lib a call) p.scoped in
      (
        keep-All (IsInScope lib a call) (λ f. mem f (field_names call.arguments)) _
            (All-left (IsInScope lib a call) (scoped_fields lib g call) _ each),
        All-right (IsInScope lib a call) (scoped_fields lib g call) _ each,
      )

  named-IsInScope :
      All (λ f. lib.ends_in_id f ≡ true → IsInScope lib a call f) (field_names call.arguments)
  named-IsInScope =
      let (registry_scope, grant_scope) = resources-IsInScope in
      let later =
        All-right (IsPresentInScope lib a call) (g.object_fields call.tool_name) _ registry_scope in
      let ids = All-right (IsPresentInScope lib a call) (g.network_fields call.tool_name) _ later in
      let both =
        keep-All (IsPresentInScope lib a call) lib.ends_in_id (field_names call.arguments) ids in
      All-present (λ f. lib.ends_in_id f ≡ true → IsInScope lib a call f)
        (field_names call.arguments)
        (All-map (λ f. lib.ends_in_id f ≡ true → IsPresentInScope lib a call f) _
          (field_names call.arguments) (λ f h there named. h named there) both)

  good-HasAmount :
      (v : Json)
      → get_field "amount" call.arguments ≡ v
      → is_bad_amount lib v ≡ false
      → HasAmount lib call
  unfolding is_bad_amount
  good-HasAmount (num n) e h = (n, e, ground arith)
  good-HasAmount null e h = cc
  good-HasAmount (bool b) e h = cc
  good-HasAmount (str s) e h = cc
  good-HasAmount (arr xs) e h = cc
  good-HasAmount (obj fs) e h = cc

  over-IsAffordable :
      (limit : Number) (v : Json)
      → get_field "amount" call.arguments ≡ v
      → is_over lib previous_calls v (some limit) ≡ false
      → IsAffordable lib previous_calls call limit
  unfolding is_bad_amount
  over-IsAffordable limit (num n) e h = (n, e, ground arith, ground arith)
  over-IsAffordable limit null e h = cc
  over-IsAffordable limit (bool b) e h = cc
  over-IsAffordable limit (str s) e h = cc
  over-IsAffordable limit (arr xs) e h = cc
  over-IsAffordable limit (obj fs) e h = cc

  budget-IsAffordable :
      (limit : Number)
      → a.max_amount ≡ some limit
      → mem "amount" (field_names call.arguments) ≡ true
      → IsAffordable lib previous_calls call limit
  budget-IsAffordable limit m there =
      over-IsAffordable limit (get_field "amount" call.arguments) refl
        (rw (m, there) at p.within_budget)

  omitted :
      (ts : List String)
      → any (discloses lib call) ts ≡ false
      → All (λ t. (t ≡ "") ⊎ OmitsFields t call.arguments) ts
  omitted [] h = tt
  omitted (t ∷ ts) h = elim (Bool-cases (t == "")) [
    | inl e ↦ (inl (==→eq t "" e), omitted ts (ground arith))
    | inr e ↦ (inr (fields-Omits t call.arguments (ground arith)), omitted ts (ground arith))
  ]

  attached-IsFixed :
      (fs : List String)
      → any (λ f. not (is_fixed a call.tool_name f)) fs ≡ false
      → All (IsFixed a call) fs
  attached-IsFixed [] h = tt
  attached-IsFixed (f ∷ fs) h =
      (is_fixed-IsFixed a call f (ground arith), attached-IsFixed fs (ground arith))

  email_effect :
      (r : Result EmailEffects)
      → email_effects lib g call ≡ r
      → judge_email lib a call r ≡ none
      → (e : EmailEffects) × (email_effects lib g call ≡ ok e)
        × All (IsFixed a call) e.referenced_objects
  email_effect (err x) t h = cc
  email_effect (ok e) t h = (e, t, attached-IsFixed e.referenced_objects (refuse_passes _ _ h))

  email :
      call.tool_name ≡ "send_email"
      → (e : EmailEffects) × (email_effects lib g call ≡ ok e)
        × All (IsFixed a call) e.referenced_objects
  unfolding check_email
  email t =
      let is_email : (call.tool_name == "send_email") ≡ true = rw t (eq_refl "send_email") in
      email_effect (email_effects lib g call) refl (rw is_email at p.attached)

  fields-IsCovered :
      (tool_effect g call ≡ read) ⊎ All (IsCovered a call) (field_names call.arguments)
  unfolding needed_fields
  fields-IsCovered = elim (effect_of (tool_effect g call) p.known) [
    | inl e ↦ inl e
    | inr c ↦ inr (
        All-left (IsCovered a call) (field_names call.arguments) _
          (kept-IsCovered a call _ (rw c at p.covered)))
  ]

  requested_of :
      (rs : List String)
      → All (IsCovered a call) (resource_name rs)
      → (rs ≡ []) ⊎ IsCovered a call "requested_resources"
  requested_of [] h = inl refl
  requested_of (x ∷ rs) h = inr h.0

  requested-IsCovered : (call.requested_resources ≡ []) ⊎ IsCovered a call "requested_resources"
  unfolding needed_fields
  requested-IsCovered = requested_of call.requested_resources (
      All-right (IsCovered a call)
        (if is_consequential (tool_effect g call) then field_names call.arguments else []) _
        (kept-IsCovered a call _ p.covered))

  paid_amount : is_payment call ≡ true → HasAmount lib call
  paid_amount t = good-HasAmount (get_field "amount" call.arguments) refl (rw t at p.paid)

  decided_amount : is_payment call ≡ true → a.max_amount ≡ none → IsFixed a call "amount"
  unfolding is_unresolved
  decided_amount t m = let resolved = p.resolved in is_fixed-IsFixed a call "amount" (ground arith)

  path_part :
      (f : String)
      → is_sensitive_at lib call f ≡ false
      → mem f (field_names call.arguments) ≡ true
      → sensitive_path lib (lib.text_of (get_field f call.arguments)) ≡ false
  path_part f h there = ground arith

  listed_tool :
      (tools : List String) → a.allowed_tools ≡ some tools → mem call.tool_name tools ≡ true
  listed_tool tools e = ground (arith, rw e at p.listed)

  pub permitted-IsGranted : IsGranted lib g a call observations previous_calls
  permitted-IsGranted =
      let (tools, w) = validate_authority-IsWellFormed g a none p.valid in
      let (registry_scope, grant_scope) = resources-IsInScope in
      let known = p.known in
      let paths = p.unprotected in
      record {
        allowed = tools;
        allowlist = w.listed;
        listed = listed_tool tools w.listed;
        harmless = ==→ne call.tool_name "harmful_action_simulator" p.harmless;
        known = λ e. cc (rw e at known);
        fresh = fresh_call;
        pinned = p.pinned;
        delegated = p.delegated;
        objects =
            All-left (IsPresentInScope lib a call) (g.object_fields call.tool_name) _
              registry_scope;
        networks = All-left (IsPresentInScope lib a call) (g.network_fields call.tool_name) _ (
            All-right (IsPresentInScope lib a call) (g.object_fields call.tool_name) _
              registry_scope);
        named = named-IsInScope;
        restricted = grant_scope;
        paid = paid_amount;
        affordable = budget-IsAffordable;
        decided = decided_amount;
        hidden = omitted a.prohibited_content p.undisclosed;
        emailed = email;
        unprotected = (path_part "path" (ground arith), (path_part "file_path" (ground arith), tt));
        covered = fields-IsCovered;
        requested = requested-IsCovered;
      }

fit-KnowsNames :
    (lib : Library) (arguments schema : Fields) (v : Json)
    → get_field "properties" schema ≡ v
    → arguments_fit lib arguments schema ≡ true
    → (lib.schema_accepts schema arguments ≡ true) × KnowsNames v arguments
unfolding arguments_fit
fit-KnowsNames lib arguments schema (obj (field k w fs)) e h =
    let g = rw e at h in
    (ground arith, exceeds_within (field_names arguments) (k ∷ field_names fs) (ground arith))
fit-KnowsNames lib arguments schema (obj end) e h = (ground arith, tt)
fit-KnowsNames lib arguments schema null e h = (ground arith, tt)
fit-KnowsNames lib arguments schema (bool b) e h = (ground arith, tt)
fit-KnowsNames lib arguments schema (num n) e h = (ground arith, tt)
fit-KnowsNames lib arguments schema (str s) e h = (ground arith, tt)
fit-KnowsNames lib arguments schema (arr xs) e h = (ground arith, tt)

-- If an evaluation allows a call, the tool has a schema that accepts the arguments and, where it
-- lists properties, knows their names; and the call, with the scope of its reads, is granted: its
-- tool is listed, has a known effect and is not the prohibited one; it repeats no earlier call,
-- unless it only reads or its tool is repeatable; pinned and delegated fields have their values; a
-- registered object or network field that is present, a field named like an id, and every field
-- that the grant restricts is pinned, delegated or has only permitted values; a payment has a
-- finite amount that is not negative, pinned or delegated where there is no limit, and within the
-- limit, where there is one, together with the earlier payments; no prohibited text stands in a
-- key or a text of the arguments at any depth; an email's referenced objects are pinned or
-- delegated; the path arguments are not sensitive; and each argument of a call that does more than
-- read, and the requested resources if there are any, has a grant of its own.
pub evaluate-IsGranted :
    (lib : Library) (g : Registry) (c : CompiledAuthority) (call : ToolCall)
    (observations : List Observation) (previous_calls : List ToolCall)
    → (evaluate lib g c call observations previous_calls).decision ≡ allow
    → (schema : Fields) × (scoped : ToolCall) × (get call.tool_name c.schemas ≡ some schema)
      × (lib.schema_accepts schema call.arguments ≡ true)
      × KnowsNames (get_field "properties" schema) call.arguments
      × (normalize_read lib g c call ≡ ok scoped)
      × IsGranted lib g c.scope scoped observations previous_calls
evaluate-IsGranted lib g c call observations previous_calls h =
    let x = evaluate-IsAllowed lib g c call observations previous_calls h in
    let (accepts, known) =
      fit-KnowsNames lib call.arguments x.schema (get_field "properties" x.schema) refl x.fits in
    (
      x.schema,
      x.scoped,
      x.described,
      accepts,
      known,
      x.normalized,
      permitted-IsGranted lib g x.scoped observations c.scope previous_calls x.permitted,
    )
