-- ===== src/Admission/Budgets.antt =====
-- The concurrency and the number of principals that src/traceguard/control/admission.py keeps to.
use trace_guard.Common.{
  ℕ, ◌+◌, ◌≤◌, Bool, true, false, ◌&&◌, not, ◌≡◌, refl, Option, none, some, List, [], ◌∷◌, leb, any,
  keep, length, arith, Bool-cases, inl, inr,
}
use trace_guard.Admission.{
  Principal, Bucket, Limits, Admissions, is_of, is_live, times_of, put_times, expire,
  admit_principal, admit, release,
}
use trace_guard.Admission.Rate.{AdmissionRun, opened, arrived, ended}

-- A write adds at most the one deque that was missing.
put_length_there :
    (p : Principal) (ts : List ℕ) (bs : List Bucket)
    → any (is_of p) bs ≡ true
    → length (put_times p ts bs) ≡ length bs
unfolding put_times
put_length_there p ts [] h = cc
put_length_there p ts (b ∷ bs) h = elim (Bool-cases (is_of p b)) [
  | inl t ↦ rw t refl
  | inr f ↦ rw f (let rest = put_length_there p ts bs (rw f at h) in omega (arith, rest))
]

put_length :
    (p : Principal) (ts : List ℕ) (bs : List Bucket) → length (put_times p ts bs) ≤ length bs + 1
unfolding put_times
put_length p ts [] = omega arith
put_length p ts (b ∷ bs) = elim (Bool-cases (is_of p b)) [
  | inl t ↦ rw t (omega arith)
  | inr f ↦ rw f (let rest = put_length p ts bs in omega (arith, rest))
]

length-keep : (q : Bucket → Bool) (bs : List Bucket) → length (keep q bs) ≤ length bs
length-keep q [] = omega arith
length-keep q (b ∷ bs) = ground (arith, length-keep q bs)

module _ (l : Limits) where
  -- The two budgets that a state stays within.
  pub record KeepsBudgets (s : Admissions) : Type 0 where
    pub concurrency : s.inflight ≤ l.max_inflight
    pub principals : length s.buckets ≤ l.max_principals

  put_within :
      (p : Principal) (ts : List ℕ) (bs : List Bucket)
      → length bs ≤ l.max_principals
      → (not (any (is_of p) bs) && leb l.max_principals (length bs)) ≡ false
      → length (put_times p ts bs) ≤ l.max_principals
  put_within p ts bs h f = elim (Bool-cases (any (is_of p) bs)) [
    | inl t ↦ (let same = put_length_there p ts bs t in omega (arith, same, h))
    | inr n ↦
        (let room : leb l.max_principals (length bs) ≡ false = ground arith in
          let more = put_length p ts bs in ground arith)
  ]

  principal_KeepsBudgets :
      (now : ℕ) (p : Principal) (bs : List Bucket) (s : Admissions)
      → leb l.max_inflight s.inflight ≡ false
      → length bs ≤ l.max_principals
      → KeepsBudgets (admit_principal l now p bs s).1
  principal_KeepsBudgets now p bs s room h =
      elim (Bool-cases (not (any (is_of p) bs) && leb l.max_principals (length bs))) [
        | inl t ↦ rw t (record { concurrency = ground arith; principals = h })
        | inr f ↦
            rw f
              (elim (Bool-cases (leb l.requests_per_minute (length (expire now (times_of p bs))))) [
                | inl t ↦
                    rw t (record { concurrency = ground arith; principals = put_within p _ bs h f })
                | inr g ↦
                    rw g (record { concurrency = ground arith; principals = put_within p _ bs h f })
              ])
      ]

  admit-KeepsBudgets :
      (now : ℕ) (actor : Option Principal) (s : Admissions)
      → KeepsBudgets s
      → KeepsBudgets (admit l now actor s).1
  unfolding admit
  admit-KeepsBudgets now none s h = elim (Bool-cases (leb l.max_inflight s.inflight)) [
    | inl t ↦ rw t h
    | inr room ↦
        (let b = h.principals in rw room (record { concurrency = ground arith; principals = b }))
  ]
  admit-KeepsBudgets now (some p) s h = elim (Bool-cases (leb l.max_inflight s.inflight)) [
    | inl t ↦ rw t h
    | inr room ↦
        (let b = h.principals in
          let shorter = length-keep (is_live now) s.buckets in
          rw room (
            principal_KeepsBudgets now p (keep (is_live now) s.buckets) s room
              (omega (arith, b, shorter))))
  ]

  -- Whatever requests arrive and end, never more than `max_inflight` run at a time, and never more
  -- than `max_principals` principals have a deque.
  pub run_within_budgets :
      (now : ℕ) (log : List (Principal × ℕ)) (s : Admissions)
      → AdmissionRun l now log s
      → KeepsBudgets s
  unfolding release
  run_within_budgets _ _ _ opened = record { concurrency = omega arith; principals = omega arith }
  run_within_budgets _ _ _ (arrived before now log s actor r h) =
      admit-KeepsBudgets now actor s (run_within_budgets before log s r)
  run_within_budgets _ _ _ (ended now log s r busy) =
      let w = run_within_budgets now log s r in
      let b = w.concurrency in record { concurrency = omega (arith, b); principals = w.principals }
