-- ===== src/Common/Dicts.antt =====
-- Dicts with text keys in their order, sets of texts as lists, and signed numbers.
use Prim.Native.Nat.{ℕ, suc, ◌+◌, ◌-◌, Ordering}
use Prim.Native.String.{String, compare}
use Prim.Native.String.{◌++◌ as append_text}
use mathlib.Core.Path.{◌≡◌}
use mathlib.Core.Bool.{Bool, not, ◌||◌}
use mathlib.Core.Option.{Option, none, some}
use mathlib.Core.List.{List, [], ◌∷◌}
use native.Mathlib.Omega.{arith}
use text.Mathlib.Text.{◌==◌, starts_with}
use trace_guard.Common.Tests.{if◌then◌else◌, leb}
use trace_guard.Common.Lists.{any}

abbrev pub Dict {ℓ} : Type ℓ → Type ℓ
Dict A = List (String × A)

module _ {ℓ} {A : Type ℓ} where
  abbrev pub get : String → Dict A → Option A
  get key [] = none
  get key ((k, v) ∷ entries) = if k == key then some v else get key entries

  abbrev pub keys : Dict A → List String
  keys [] = []
  keys ((k, v) ∷ entries) = k ∷ keys entries

-- `d.get(key, {})`, where the values are dicts or lists
abbrev pub get_all {ℓ} : {A : Type ℓ} → String → List (String × List A) → List A
get_all key d = elim (get key d) [ none ↦ [] | some entries ↦ entries ]

abbrev pub mem : String → List String → Bool
mem x ys = any (λ y. y == x) ys

-- `set(a) - set(b)` and `set(a) & set(b)` are not empty.
abbrev pub exceeds : List String → List String → Bool
exceeds xs ys = any (λ x. not (mem x ys)) xs

abbrev pub meets : List String → List String → Bool
meets xs ys = any (λ x. mem x ys) xs

abbrev pub place : String → String → List String → List String → Ordering → List String
place x y ys rest Ordering.lt = x ∷ y ∷ ys
place x y ys rest Ordering.eq = y ∷ ys
place x y ys rest Ordering.gt = y ∷ rest

-- A text put in its place, once.
abbrev pub insert_text : String → List String → List String
insert_text x [] = x ∷ []
insert_text x (y ∷ ys) = place x y ys (insert_text x ys) (compare x y)

-- `sorted(set(…))`
abbrev pub sorted_set : List String → List String
sorted_set [] = []
sorted_set (x ∷ xs) = insert_text x (sorted_set xs)

-- `", ".join(…)`
abbrev pub join : List String → String
join [] = ""
join (x ∷ []) = x
join (x ∷ y ∷ ys) = append_text x (append_text ", " (join (y ∷ ys)))

-- `value in text`
abbrev pub contains : String → String → Bool
contains value String.[] = value == ""
contains value (String.◌∷◌ c s) = starts_with (String.◌∷◌ c s) value || contains value s

-- `negsuc n` is -(n + 1).
pub data ℤ : Type 0 where
  pos : ℕ → ℤ
  negsuc : ℕ → ℤ

abbrev pub pos_part : ℤ → ℕ
pos_part (pos n) = n
pos_part (negsuc n) = 0

abbrev pub neg_part : ℤ → ℕ
neg_part (pos n) = 0
neg_part (negsuc n) = suc n

infixl 65 ◌+ℤ◌
unfoldable pub ◌+ℤ◌ : ℤ → ℤ → ℤ
a +ℤ b =
    let p = pos_part a + pos_part b in
    let n = neg_part a + neg_part b in if leb n p then pos (p - n) else negsuc (n - p - 1)

abbrev pub leb_ℤ : ℤ → ℤ → Bool
leb_ℤ a b = leb (pos_part a + neg_part b) (pos_part b + neg_part a)

pub +ℤ_parts :
    (a b : ℤ)
    → pos_part (a +ℤ b) + neg_part a + neg_part b ≡ neg_part (a +ℤ b) + pos_part a + pos_part b
unfolding ◌+ℤ◌
+ℤ_parts a b = ground arith

pub pos_add : (m n : ℕ) → pos m +ℤ pos n ≡ pos (m + n)
unfolding ◌+ℤ◌
pos_add m n = ground arith
