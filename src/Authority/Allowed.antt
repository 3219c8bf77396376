-- ===== src/Authority/Allowed.antt =====
-- What `CompiledAuthority.evaluate` of src/traceguard/policy/kernel.py allows.
use mathlib.Core.Path.{subst}
use trace_guard.Common.{
  String, Bool, true, false, ◌&&◌, not, Option, none, some, List, [], ◌∷◌, ◌≡◌, refl, any, get, mem,
  Bool-cases, Option-cases, All, Pairs, inl, inr, arith, ok, err, Result, ok_injective,
}
use trace_guard.Json.{Fields, end, field, get_field}
use trace_guard.Control.Models.{allow}
use trace_guard.Authority.Calls.{ToolCall, Observation, TaskAuthority}
use trace_guard.Authority.Registry.{
  Registry, Library, tool_effect, is_consequential, output, field_names, is_null,
}
use trace_guard.Authority.Checks.{Denial, blocks, escalates, repeats}
use trace_guard.Authority.Permits.{IsPermitted, check_authority-IsPermitted}
use trace_guard.Authority.Kernel.{
  CompiledAuthority, evaluate, normalize_read, arguments_fit, conclude, judge,
}

conclude_allows :
    (lib : Library) (g : Registry) (d : Option Denial)
    → (conclude lib g d).decision ≡ allow
    → d ≡ none
unfolding output
conclude_allows lib g none h = refl
conclude_allows lib g (some (blocks rule reason)) h = cc
conclude_allows lib g (some (escalates rule reason)) h = cc

judge-IsPermitted :
    (lib : Library) (g : Registry) (a : TaskAuthority) (observations : List Observation)
    (previous_calls : List ToolCall) (r : Result ToolCall)
    → (judge lib g a observations previous_calls r).decision ≡ allow
    → (call : ToolCall) × (r ≡ ok call) × IsPermitted lib g call observations a previous_calls
unfolding output
judge-IsPermitted lib g a observations previous_calls (err x) h = cc
judge-IsPermitted lib g a observations previous_calls (ok call) h = (
  call,
  refl,
  check_authority-IsPermitted lib g call observations a previous_calls (conclude_allows lib g _ h),
)

-- What stands behind an allowed call: its schema takes its arguments, its reads are scoped, and the
-- grant's tests pass.
pub record IsAllowed (lib : Library) (g : Registry) (c : CompiledAuthority) (call : ToolCall)
    (observations : List Observation) (previous_calls : List ToolCall) : Type 0 where
  pub schema : Fields
  pub described : get call.tool_name c.schemas ≡ some schema
  pub fits : arguments_fit lib call.arguments schema ≡ true
  pub scoped : ToolCall
  pub normalized : normalize_read lib g c call ≡ ok scoped
  pub permitted : IsPermitted lib g scoped observations c.scope previous_calls

pub evaluate-IsAllowed :
    (lib : Library) (g : Registry) (c : CompiledAuthority) (call : ToolCall)
    (observations : List Observation) (previous_calls : List ToolCall)
    → (evaluate lib g c call observations previous_calls).decision ≡ allow
    → IsAllowed lib g c call observations previous_calls
unfolding evaluate normalize_read output
evaluate-IsAllowed lib g c call observations previous_calls h =
    elim (Option-cases (get call.tool_name c.schemas)) [
      | inl e ↦ cc (rw e at h)
      | inr (schema, e) ↦ elim (Bool-cases (arguments_fit lib call.arguments schema)) [
        | inr f ↦ cc (rw (e, f) at h)
        | inl f ↦
            (let (scoped, same, permitted) =
                judge-IsPermitted lib g c.scope observations previous_calls _ (rw (e, f) at h) in
              record {
                schema = schema;
                described = e;
                fits = f;
                scoped = scoped;
                normalized = rw e same;
                permitted = permitted;
              })
      ]
    ]

pub has-null :
    (f : String) (fs : Fields) → is_null (get_field f fs) ≡ false → mem f (field_names fs) ≡ true
has-null f end h = cc
has-null f (field k v fs) h = ground (arith, has-null f fs)

-- Calls that were evaluated in turn, the last one first, each against the ones allowed before it.
pub data AllowedRun (lib : Library) (g : Registry) (c : CompiledAuthority)
    : List ToolCall → Type 0 where
  start : AllowedRun lib g c []
  next :
      (calls : List ToolCall) (call scoped : ToolCall) (observations : List Observation)
      → AllowedRun lib g c calls
      → (evaluate lib g c call observations calls).decision ≡ allow
      → normalize_read lib g c call ≡ ok scoped
      → AllowedRun lib g c (scoped ∷ calls)

-- What an allowed call, once its reads are scoped, has to satisfy.
pub allowed-IsPermitted :
    (lib : Library) (g : Registry) (c : CompiledAuthority) (call scoped : ToolCall)
    (observations : List Observation) (previous_calls : List ToolCall)
    → (evaluate lib g c call observations previous_calls).decision ≡ allow
    → normalize_read lib g c call ≡ ok scoped
    → IsPermitted lib g scoped observations c.scope previous_calls
allowed-IsPermitted lib g c call scoped observations previous_calls h n =
    let p = evaluate-IsAllowed lib g c call observations previous_calls h in
    let same : p.scoped ≡ scoped = ok_injective (rw p.normalized at n) in
    subst (λ x. IsPermitted lib g x observations c.scope previous_calls) same p.permitted

-- A call that changes something does not repeat an earlier one, unless its tool is repeatable.
abbrev pub is_repeat : Library → Registry → TaskAuthority → ToolCall → ToolCall → Bool
is_repeat lib g a call earlier =
    is_consequential (tool_effect g call)
    && not (mem call.tool_name a.repeatable_tools)
    && repeats lib call earlier

All-is_repeat :
    (lib : Library) (g : Registry) (a : TaskAuthority) (call : ToolCall) (calls : List ToolCall)
    → (is_consequential (tool_effect g call)
        && not (mem call.tool_name a.repeatable_tools)
        && any (repeats lib call) calls)
      ≡ false
    → All (λ earlier. is_repeat lib g a call earlier ≡ false) calls
All-is_repeat lib g a call [] h = tt
All-is_repeat lib g a call (earlier ∷ calls) h =
    (ground arith, All-is_repeat lib g a call calls (ground arith))

-- In a run of calls, each allowed against the ones allowed before it, no call that changes
-- something equals an earlier one in its tool and arguments, unless its tool is repeatable.
pub run_repeats_nothing :
    (lib : Library) (g : Registry) (c : CompiledAuthority) (calls : List ToolCall)
    → AllowedRun lib g c calls
    → Pairs (λ call earlier. is_repeat lib g c.scope call earlier ≡ false) calls
run_repeats_nothing lib g c [] start = tt
run_repeats_nothing lib g c (_ ∷ _) (next calls call scoped observations before h n) = (
  All-is_repeat lib g c.scope scoped calls
      (allowed-IsPermitted lib g c call scoped observations calls h n).fresh,
  run_repeats_nothing lib g c calls before,
)
