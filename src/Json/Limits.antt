-- ===== src/Json/Limits.antt =====
-- `validate_json` of src/traceguard/limits.py: the budget of nodes is what the loop runs on. A key
-- of a `Json` object is always a text. The length of the encoding is given, `none` where it raises.
use trace_guard.Common.{
  ℕ, zero, suc, ◌+◌, ◌≤◌, ◌≡◌, refl, Bool, true, false, ◌&&◌, ◌||◌, Option, none, some, List, [],
  ◌∷◌, ltb, leb, if◌then◌else◌, Result, ok, err, value_error, arith, Bool-cases, Option-cases, inl,
  inr,
}
use trace_guard.Json.Values.{
  Json, null, bool, num, str, arr, obj, Items, nil, cons, Fields, end, field,
}

abbrev pub count_items : Items → ℕ
count_items nil = 0
count_items (cons x xs) = suc (count_items xs)

abbrev pub count_fields : Fields → ℕ
count_fields end = 0
count_fields (field k v fs) = suc (count_fields fs)

-- `stack.extend(…)`: the last child is on top.
abbrev pub push_items : ℕ → Items → List (Json × ℕ) → List (Json × ℕ)
push_items depth nil stack = stack
push_items depth (cons x xs) stack = push_items depth xs ((x, depth) ∷ stack)

abbrev pub push_fields : ℕ → Fields → List (Json × ℕ) → List (Json × ℕ)
push_fields depth end stack = stack
push_fields depth (field k v fs) stack = push_fields depth fs ((v, depth) ∷ stack)

-- `len(item)`
abbrev pub width : Json → ℕ
width (arr xs) = count_items xs
width (obj fs) = count_fields fs
width _ = 0

abbrev pub push : ℕ → Json → List (Json × ℕ) → List (Json × ℕ)
push depth (arr xs) stack = push_items depth xs stack
push depth (obj fs) stack = push_fields depth fs stack
push depth _ stack = stack

-- How many values stand in a value, itself included.
unfoldable mutual
  pub nodes : Json → ℕ
  nodes (arr xs) = suc (nodes_items xs)
  nodes (obj fs) = suc (nodes_fields fs)
  nodes null = 1
  nodes (bool b) = 1
  nodes (num n) = 1
  nodes (str s) = 1

  pub nodes_items : Items → ℕ
  nodes_items nil = 0
  nodes_items (cons x xs) = nodes x + nodes_items xs

  pub nodes_fields : Fields → ℕ
  nodes_fields end = 0
  nodes_fields (field k v fs) = nodes v + nodes_fields fs

-- No value in it lies deeper than the limit.
unfoldable mutual
  pub is_shallow : ℕ → ℕ → Json → Bool
  is_shallow limit depth (arr xs) = leb depth limit && are_shallow limit (suc depth) xs
  is_shallow limit depth (obj fs) = leb depth limit && fields_shallow limit (suc depth) fs
  is_shallow limit depth null = leb depth limit
  is_shallow limit depth (bool b) = leb depth limit
  is_shallow limit depth (num n) = leb depth limit
  is_shallow limit depth (str s) = leb depth limit

  pub are_shallow : ℕ → ℕ → Items → Bool
  are_shallow limit depth nil = true
  are_shallow limit depth (cons x xs) = is_shallow limit depth x && are_shallow limit depth xs

  pub fields_shallow : ℕ → ℕ → Fields → Bool
  fields_shallow limit depth end = true
  fields_shallow limit depth (field k v fs) =
      is_shallow limit depth v && fields_shallow limit depth fs

module _ (max_bytes max_nodes max_depth : ℕ) (encoded : Json → Option ℕ) where
  -- The loop, with the number of nodes that it may still visit.
  unfoldable pub walk : ℕ → List (Json × ℕ) → Bool
  walk n [] = true
  walk zero ((v, depth) ∷ stack) = false
  walk (suc n) ((v, depth) ∷ stack) =
      let rest = walk n (push (suc depth) v stack) in
      if ltb max_depth depth || ltb max_nodes (width v) then false else rest

  abbrev pub check_length : Option ℕ → Result (Unit {0})
  check_length none = err (value_error "invalid bounded JSON value")
  check_length (some length) =
      if ltb max_bytes length then err (value_error "JSON byte budget exceeded") else ok tt

  unfoldable pub validate_json : Json → Result (Unit {0})
  validate_json v =
      if walk max_nodes ((v, 0) ∷ [])
      then check_length (encoded v)
      else err (value_error "JSON depth or node budget exceeded")

  abbrev total : List (Json × ℕ) → ℕ
  total [] = 0
  total ((v, depth) ∷ stack) = nodes v + total stack

  abbrev all_shallow : List (Json × ℕ) → Bool
  all_shallow [] = true
  all_shallow ((v, depth) ∷ stack) = is_shallow max_depth depth v && all_shallow stack

  -- What stands on a stack, after the children of a value were pushed.
  total-push_items :
      (depth : ℕ) (xs : Items) (stack : List (Json × ℕ))
      → total (push_items depth xs stack) ≡ nodes_items xs + total stack
  unfolding nodes
  total-push_items depth nil stack = omega arith
  total-push_items depth (cons x xs) stack =
      omega (arith, total-push_items depth xs ((x, depth) ∷ stack))

  total-push_fields :
      (depth : ℕ) (fs : Fields) (stack : List (Json × ℕ))
      → total (push_fields depth fs stack) ≡ nodes_fields fs + total stack
  unfolding nodes
  total-push_fields depth end stack = omega arith
  total-push_fields depth (field k v fs) stack =
      omega (arith, total-push_fields depth fs ((v, depth) ∷ stack))

  total-push :
      (depth : ℕ) (v : Json) (stack : List (Json × ℕ))
      → suc (total (push depth v stack)) ≡ nodes v + total stack
  unfolding nodes
  total-push depth (arr xs) stack = omega (arith, total-push_items depth xs stack)
  total-push depth (obj fs) stack = omega (arith, total-push_fields depth fs stack)
  total-push depth null stack = omega arith
  total-push depth (bool b) stack = omega arith
  total-push depth (num n) stack = omega arith
  total-push depth (str s) stack = omega arith

  shallow-push_items :
      (depth : ℕ) (xs : Items) (stack : List (Json × ℕ))
      → all_shallow (push_items depth xs stack) ≡ true
      → (are_shallow max_depth depth xs && all_shallow stack) ≡ true
  unfolding is_shallow
  shallow-push_items depth nil stack h = h
  shallow-push_items depth (cons x xs) stack h =
      ground (arith, shallow-push_items depth xs ((x, depth) ∷ stack) h)

  shallow-push_fields :
      (depth : ℕ) (fs : Fields) (stack : List (Json × ℕ))
      → all_shallow (push_fields depth fs stack) ≡ true
      → (fields_shallow max_depth depth fs && all_shallow stack) ≡ true
  unfolding is_shallow
  shallow-push_fields depth end stack h = h
  shallow-push_fields depth (field k v fs) stack h =
      ground (arith, shallow-push_fields depth fs ((v, depth) ∷ stack) h)

  shallow-push :
      (depth : ℕ) (v : Json) (stack : List (Json × ℕ))
      → leb depth max_depth ≡ true
      → all_shallow (push (suc depth) v stack) ≡ true
      → (is_shallow max_depth depth v && all_shallow stack) ≡ true
  unfolding is_shallow
  shallow-push depth (arr xs) stack d h = ground (arith, shallow-push_items (suc depth) xs stack h)
  shallow-push depth (obj fs) stack d h = ground (arith, shallow-push_fields (suc depth) fs stack h)
  shallow-push depth null stack d h = ground arith
  shallow-push depth (bool b) stack d h = ground arith
  shallow-push depth (num n) stack d h = ground arith
  shallow-push depth (str s) stack d h = ground arith

  walk_bounds :
      (n : ℕ) (stack : List (Json × ℕ))
      → walk n stack ≡ true
      → (total stack ≤ n) × (all_shallow stack ≡ true)
  unfolding walk
  walk_bounds n [] h = (omega arith, refl)
  walk_bounds zero ((v, depth) ∷ stack) h = cc
  walk_bounds (suc n) ((v, depth) ∷ stack) h =
      elim (Bool-cases (ltb max_depth depth || ltb max_nodes (width v))) [
        | inl over ↦ cc (rw over at h)
        | inr within ↦
            (let (few, flat) = walk_bounds n (push (suc depth) v stack) (rw within at h) in
              (
                omega (arith, few, total-push (suc depth) v stack),
                shallow-push depth v stack (ground arith) flat,
              ))
      ]

  -- A value that is accepted has at most `max_nodes` values in it, itself included, none of them
  -- deeper than `max_depth`, and an encoding of at most `max_bytes` bytes.
  pub validate_json_bounds :
      (v : Json)
      → validate_json v ≡ ok tt
      → (nodes v ≤ max_nodes)
        × (is_shallow max_depth 0 v ≡ true)
        × (length : ℕ) × (encoded v ≡ some length)
        × (length ≤ max_bytes)
  unfolding validate_json
  validate_json_bounds v h = elim (Bool-cases (walk max_nodes ((v, 0) ∷ []))) [
    | inr over ↦ cc (rw over at h)
    | inl within ↦ elim (Option-cases (encoded v)) [
      | inl failed ↦ cc (rw (within, failed) at h)
      | inr (length, e) ↦
          (let (few, flat) = walk_bounds max_nodes ((v, 0) ∷ []) within in
            let short : ltb max_bytes length ≡ false = ground arith in
            (omega (arith, few), ground arith, length, e, ground arith))
    ]
  ]
