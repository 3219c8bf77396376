-- ===== src/Common/Sorted.antt =====
-- A sorted set of texts has every member of its list.
use Prim.Native.String.{String, compare}
use Prim.Native.Nat.{Ordering}
use mathlib.Core.Path.{◌≡◌, refl, sym, subst}
use mathlib.Core.List.{List, [], ◌∷◌, ◌++◌}
use text.Mathlib.TextEquality.{path_by_compare}
use trace_guard.Common.Lists.{All}
use trace_guard.Common.Dicts.{place, insert_text, sorted_set}

pub All-split {ℓ κ} :
    {A : Type ℓ} (P : A → Type κ) (xs ys : List A) → All P (xs ++ ys) → All P xs × All P ys
All-split P [] ys h = (tt, h)
All-split P (x ∷ xs) ys h = let rest = All-split P xs ys h.1 in ((h.0, rest.0), rest.1)

module _ {κ} (P : String → Type κ) where
  All-place :
      (x y : String) (ys rest : List String) (o : Ordering)
      → compare x y ≡ o
      → (All P rest → P x × All P ys)
      → All P (place x y ys rest o)
      → P x × All P (y ∷ ys)
  All-place x y ys rest Ordering.lt e split h = h
  All-place x y ys rest Ordering.eq e split h = (subst P (sym (path_by_compare x y e)) h.0, h)
  All-place x y ys rest Ordering.gt e split h = let k = split h.1 in (k.0, (h.0, k.1))

  All-insert_text : (x : String) (ys : List String) → All P (insert_text x ys) → P x × All P ys
  All-insert_text x [] h = h
  All-insert_text x (y ∷ ys) h =
      All-place x y ys (insert_text x ys) (compare x y) refl (All-insert_text x ys) h

  pub All-sorted_set : (xs : List String) → All P (sorted_set xs) → All P xs
  All-sorted_set [] h = tt
  All-sorted_set (x ∷ xs) h =
      let k = All-insert_text x (sorted_set xs) h in (k.0, All-sorted_set xs k.1)
