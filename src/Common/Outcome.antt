-- ===== src/Common/Outcome.antt =====
-- Python's exceptions as values: a class for each exception that the program raises, with its
-- message. A method on an object returns the object's new state beside its result, because what
-- was written before a raise stays written.
use Prim.Native.String.{String}
use mathlib.Core.Path.{◌≡◌, refl}
use mathlib.Core.Logic.{◌⊎◌, inl, inr}
use mathlib.Core.Bool.{Bool, true, false}
use native.Mathlib.Omega.{arith}

pub data Error : Type 0 where
  value_error type_error authorization_error key_error execution_unknown : String → Error
  idempotency_conflict policy_unavailable integrity_error dispatch_error : String → Error

pub data Result {ℓ} (A : Type ℓ) : Type ℓ where
  ok : A → Result A
  err : Error → Result A

-- `if test: raise error`, for code that changes nothing.
abbrev pub check : Bool → Error → Result (Unit {0})
check true e = err e
check false e = ok tt

abbrev pub Action {ℓ} : Type 0 → Type ℓ → Type ℓ
Action S A = S → Result A × S

pub Result-cases {ℓ} :
    {A : Type ℓ} (r : Result A) → ((e : Error) × (r ≡ err e)) ⊎ ((a : A) × (r ≡ ok a))
Result-cases (ok a) = inr (a, refl)
Result-cases (err e) = inl (e, refl)

-- The rest of a method, once a check has passed. If the check raised, nothing is written.
abbrev pub after {ℓ} :
    {S : Type 0} {A : Type ℓ} → Result (Unit {0}) → S → Result A × S → Result A × S
after (err e) s rest = (err e, s)
after (ok _) s rest = rest

pub after-holds {ℓ} :
    {S : Type 0} {A : Type ℓ} (P : S → Type 0) (r : Result (Unit {0})) (s : S) (rest : Result A × S)
    → P s
    → P rest.1
    → P (after r s rest).1
after-holds P (err e) s rest h k = h
after-holds P (ok _) s rest h k = k

pub ok_injective {ℓ} : {A : Type ℓ} {a b : A} → ok a ≡ ok b → a ≡ b
ok_injective h = ground arith
