-- ===== src/Authority/Paid.antt =====
-- What the calls that `CompiledAuthority.evaluate` of src/traceguard/policy/kernel.py allows pay
-- together, where amounts are ints, which Python adds exactly.
use mathlib.Core.Path.{subst}
use trace_guard.Common.{
  ℕ, ◌+◌, pos, negsuc, pos_part, pos_add, ◌||◌, if◌then◌else◌, ap, String, Bool, true, false, not,
  some, List, [], ◌∷◌, ◌≡◌, refl, ◌∙◌, mem, Bool-cases, All, inl, inr, arith,
}
use trace_guard.Json.{Json, null, bool, num, str, arr, obj, get_field}
use trace_guard.Authority.Calls.{Number, whole, floating, ToolCall, Observation, TaskAuthority}
use trace_guard.Authority.Registry.{Registry, Library, is_null, field_names}
use trace_guard.Authority.Checks.{
  spent, sum_numbers, add_numbers, leb_numbers, is_payment, amount_of, paid_numbers, whole_sum,
  fits_budget, is_bad_amount, is_unresolved,
}
use trace_guard.Authority.Permits.{IsPermitted}
use trace_guard.Authority.Kernel.{CompiledAuthority}
use trace_guard.Authority.Allowed.{AllowedRun, start, next, allowed-IsPermitted, has-null}

-- The ints that a run pays, by a count of their own. The payment's amount is an int.
abbrev pub has_whole : Library → Json → Bool
has_whole lib (num n) = elim (lib.number_value n) [ whole z ↦ true | floating s ↦ false ]
has_whole lib _ = false

abbrev pub pays_whole : Library → ToolCall → Bool
pays_whole lib c = not (is_payment c) || has_whole lib (get_field "amount" c.arguments)

abbrev pub natural_of : Library → Json → ℕ
natural_of lib (num n) = elim (lib.number_value n) [ whole z ↦ pos_part z | floating s ↦ 0 ]
natural_of lib _ = 0

abbrev pub total_paid : Library → List ToolCall → ℕ
total_paid lib [] = 0
total_paid lib (c ∷ rest) =
    total_paid lib rest
    + (if is_payment c then natural_of lib (get_field "amount" c.arguments) else 0)

record IsWholeAmount (lib : Library) (v : Json) : Type 0 where
  pub text : String
  pub is_num : v ≡ num text
  pub value_of : lib.number_value text ≡ whole (pos (natural_of lib v))

whole_natural :
    (lib : Library) (n : String) (x : Number)
    → lib.number_value n ≡ x
    → has_whole lib (num n) ≡ true
    → is_bad_amount lib (num n) ≡ false
    → lib.number_value n ≡ whole (pos (natural_of lib (num n)))
unfolding is_bad_amount
whole_natural lib n (whole (pos k)) e w h = rw (e, natural_of) refl
whole_natural lib n (whole (negsuc k)) e w h = (let g = rw e at h in ground arith)
whole_natural lib n (floating s) e w h = cc (rw (e, has_whole) at w)

payment_IsWholeAmount :
    (lib : Library) (v : Json)
    → has_whole lib v ≡ true
    → is_bad_amount lib v ≡ false
    → IsWholeAmount lib v
payment_IsWholeAmount lib (num n) w h = record {
  text = n;
  is_num = refl;
  value_of = whole_natural lib n (lib.number_value n) refl w h;
}
payment_IsWholeAmount lib null w h = cc
payment_IsWholeAmount lib (bool b) w h = cc
payment_IsWholeAmount lib (str s) w h = cc
payment_IsWholeAmount lib (arr xs) w h = cc
payment_IsWholeAmount lib (obj fs) w h = cc

-- The test on an allowed payment.
payment_fits :
    (lib : Library) (g : Registry) (call : ToolCall) (observations : List Observation)
    (a : TaskAuthority) (previous_calls : List ToolCall) (limit : Number)
    → a.max_amount ≡ some limit
    → is_payment call ≡ true
    → IsPermitted lib g call observations a previous_calls
    → (mem "amount" (field_names call.arguments) ≡ true)
      × (fits_budget lib previous_calls (get_field "amount" call.arguments) limit ≡ true)
unfolding is_unresolved
payment_fits lib g call observations a previous_calls limit m t p =
    let resolved = p.resolved in
    let given : is_null (get_field "amount" call.arguments) ≡ false = ground arith in
    let there = has-null "amount" call.arguments given in
    let within = (rw (m, there) at p.within_budget) in (there, ground arith)

-- What a payment of an int adds.
amount-whole :
    (lib : Library) (call : ToolCall) (n : String) (k : ℕ)
    → mem "amount" (field_names call.arguments) ≡ true
    → get_field "amount" call.arguments ≡ num n
    → lib.number_value n ≡ whole (pos k)
    → amount_of lib call ≡ some (whole (pos k))
amount-whole lib call n k there e v = rw there (rw e (ap some v))

paid-whole :
    (lib : Library) (call : ToolCall) (previous_calls : List ToolCall) (n : String) (k t : ℕ)
    → is_payment call ≡ true
    → amount_of lib call ≡ some (whole (pos k))
    → whole_sum (paid_numbers lib previous_calls) ≡ some (pos t)
    → whole_sum (paid_numbers lib (call ∷ previous_calls)) ≡ some (pos (t + k))
unfolding paid_numbers
paid-whole lib call previous_calls n k t p e h =
    let comm : k + t ≡ t + k = omega arith in
    rw p (rw e (rw h (ap some (pos_add k t ∙ ap pos comm))))

sum-whole :
    (lib : Library) (ns : List Number) (t : ℕ)
    → whole_sum ns ≡ some (pos t)
    → sum_numbers lib ns ≡ whole (pos t)
sum-whole lib ns t h = rw (h, sum_numbers) refl

spent-whole :
    (lib : Library) (previous_calls : List ToolCall) (t : ℕ)
    → whole_sum (paid_numbers lib previous_calls) ≡ some (pos t)
    → spent lib previous_calls ≡ whole (pos t)
unfolding spent
spent-whole lib previous_calls t h = sum-whole lib (paid_numbers lib previous_calls) t h

add-whole :
    (lib : Library) (x y : Number) (t k : ℕ)
    → x ≡ whole (pos t)
    → y ≡ whole (pos k)
    → add_numbers lib x y ≡ whole (pos (t + k))
add-whole lib x y t k e v = rw e (rw v (ap whole (pos_add t k)))

fits-whole :
    (lib : Library) (previous_calls : List ToolCall) (v : Json) (n : String) (k t : ℕ)
    (limit : Number)
    → v ≡ num n
    → lib.number_value n ≡ whole (pos k)
    → whole_sum (paid_numbers lib previous_calls) ≡ some (pos t)
    → fits_budget lib previous_calls v limit ≡ true
    → leb_numbers lib (whole (pos (t + k))) limit ≡ true
fits-whole lib previous_calls v n k t limit e w h f =
    let sum =
      add-whole lib (spent lib previous_calls) (lib.number_value n) t k
        (spent-whole lib previous_calls t h) w in
    let fit : leb_numbers lib (add_numbers lib (spent lib previous_calls) (lib.number_value n))
          limit
        ≡ true =
      rw e at f in
    subst (λ x. leb_numbers lib x limit ≡ true) sum fit

total-payment :
    (lib : Library) (call : ToolCall) (calls : List ToolCall)
    → is_payment call ≡ true
    → total_paid lib calls + natural_of lib (get_field "amount" call.arguments)
      ≡ total_paid lib (call ∷ calls)
total-payment lib call calls p = rw p refl

-- What holds of a run: the program's sum is the total, and the total fits.
record IsPaid (lib : Library) (limit : Number) (calls : List ToolCall) : Type 0 where
  pub summed : whole_sum (paid_numbers lib calls) ≡ some (pos (total_paid lib calls))
  pub fits : leb_numbers lib (whole (pos (total_paid lib calls))) limit ≡ true

call_IsPaid :
    (lib : Library) (g : Registry) (call : ToolCall) (observations : List Observation)
    (a : TaskAuthority) (previous_calls : List ToolCall) (limit : Number)
    → a.max_amount ≡ some limit
    → pays_whole lib call ≡ true
    → IsPaid lib limit previous_calls
    → IsPermitted lib g call observations a previous_calls
    → IsPaid lib limit (call ∷ previous_calls)
unfolding paid_numbers
call_IsPaid lib g call observations a previous_calls limit m w h p =
    elim (Bool-cases (is_payment call)) [
      | inr f ↦
          (let zero : total_paid lib previous_calls + 0 ≡ total_paid lib previous_calls =
              omega arith in
            record { summed = rw f (rw zero h.summed); fits = rw f (rw zero h.fits) })
      | inl t ↦
          (let (there, fit) = payment_fits lib g call observations a previous_calls limit m t p in
            let v =
              payment_IsWholeAmount lib (get_field "amount" call.arguments) (rw t at w)
                (rw t at p.paid) in
            let k = natural_of lib (get_field "amount" call.arguments) in
            let e = amount-whole lib call v.text k there v.is_num v.value_of in
            let total = total-payment lib call previous_calls t in
            record {
              summed =
                  paid-whole lib call previous_calls v.text k (total_paid lib previous_calls) t e
                    h.summed
                  ∙ ap (λ x. some (pos x)) total;
              fits =
                  subst (λ x. leb_numbers lib (whole (pos x)) limit ≡ true) total
                    (fits-whole lib previous_calls (get_field "amount" call.arguments) v.text k
                      (total_paid lib previous_calls) limit v.is_num v.value_of h.summed fit);
            })
    ]

run_IsPaid :
    (lib : Library) (g : Registry) (c : CompiledAuthority) (calls : List ToolCall) (limit : Number)
    → c.scope.max_amount ≡ some limit
    → leb_numbers lib (whole (pos 0)) limit ≡ true
    → All (λ call. pays_whole lib call ≡ true) calls
    → AllowedRun lib g c calls
    → IsPaid lib limit calls
unfolding paid_numbers
run_IsPaid lib g c [] limit m z w start = record { summed = refl; fits = z }
run_IsPaid lib g c (_ ∷ _) limit m z w (next calls call scoped observations before h n) =
    call_IsPaid lib g scoped observations c.scope calls limit m w.0
      (run_IsPaid lib g c calls limit m z w.1 before)
      (allowed-IsPermitted lib g c call scoped observations calls h n)

-- In a run of calls, each allowed by an authority with a maximal amount, which is not negative,
-- against the ones allowed before it, if every payment's amount is an int, the exact total of the
-- payments is at most the maximal amount.
pub run_within_amount :
    (lib : Library) (g : Registry) (c : CompiledAuthority) (calls : List ToolCall) (limit : Number)
    → c.scope.max_amount ≡ some limit
    → leb_numbers lib (whole (pos 0)) limit ≡ true
    → All (λ call. pays_whole lib call ≡ true) calls
    → AllowedRun lib g c calls
    → leb_numbers lib (whole (pos (total_paid lib calls))) limit ≡ true
run_within_amount lib g c calls limit m z w r = (run_IsPaid lib g c calls limit m z w r).fits
