-- ===== src/Authority/Omitted.antt =====
-- `argument_strings` of src/traceguard/policy/authorization.py: a text that none of the strings has stands
-- nowhere in the value.
use trace_guard.Common.{String, Bool, false, List, [], ◌∷◌, ◌++◌, ◌≡◌, refl, any, contains, arith}
use trace_guard.Json.{Json, null, bool, num, str, arr, obj, Items, nil, cons, Fields, end, field}
use trace_guard.Authority.Checks.{argument_strings, item_strings, field_strings}

-- Neither a key nor a text of the value, at any depth, has the text.
abbrev mutual
  pub Omits : String → Json → Type 0
  Omits t (str s) = contains t s ≡ false
  Omits t (arr xs) = OmitsItems t xs
  Omits t (obj fs) = OmitsFields t fs
  Omits t null = Unit
  Omits t (bool b) = Unit
  Omits t (num n) = Unit

  pub OmitsItems : String → Items → Type 0
  OmitsItems t nil = Unit
  OmitsItems t (cons x xs) = Omits t x × OmitsItems t xs

  pub OmitsFields : String → Fields → Type 0
  OmitsFields t end = Unit
  OmitsFields t (field k v fs) = (contains t k ≡ false) × Omits t v × OmitsFields t fs

any-split :
    (p : String → Bool) (xs ys : List String)
    → any p (xs ++ ys) ≡ false
    → (any p xs ≡ false) × (any p ys ≡ false)
any-split p [] ys h = (refl, h)
any-split p (x ∷ xs) ys h = (let r = any-split p xs ys (ground arith) in (ground arith, r.1))

mutual
  unfolding argument_strings

  pub strings-Omits :
      (t : String) (v : Json) → any (contains t) (argument_strings v) ≡ false → Omits t v
  strings-Omits t (str s) h = ground arith
  strings-Omits t (arr xs) h = items-Omits t xs h
  strings-Omits t (obj fs) h = fields-Omits t fs h
  strings-Omits t null h = tt
  strings-Omits t (bool b) h = tt
  strings-Omits t (num n) h = tt

  items-Omits :
      (t : String) (xs : Items) → any (contains t) (item_strings xs) ≡ false → OmitsItems t xs
  items-Omits t nil h = tt
  items-Omits t (cons x xs) h =
      (let r = any-split (contains t) (argument_strings x) (item_strings xs) h in
        (strings-Omits t x r.0, items-Omits t xs r.1))

  pub fields-Omits :
      (t : String) (fs : Fields) → any (contains t) (field_strings fs) ≡ false → OmitsFields t fs
  fields-Omits t end h = tt
  fields-Omits t (field k v fs) h =
      (let r = any-split (contains t) (argument_strings v) (field_strings fs) (ground arith) in
        (ground arith, strings-Omits t v r.0, fields-Omits t fs r.1))
