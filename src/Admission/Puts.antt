-- ===== src/Admission/Puts.antt =====
-- The writes that src/traceguard/control/admission.py makes to its deques.
use mathlib.Core.Path.{subst}
use trace_guard.Common.{
  ℕ, ◌+◌, ◌≤◌, Bool, false, ◌≡◌, refl, sym, List, [], ◌∷◌, leb, keep, All, Pairs, arith, Bool-cases,
  inl, inr,
}
use trace_guard.Admission.{
  Principal, Bucket, Limits, same_principal, is_of, times_of, put_times, expire,
}
use trace_guard.Admission.Window.{
  IsFit, Differ, same_principal-eq, same_principal_self, same_principal-swap,
}

module _ (p : Principal) (ts : List ℕ) where
  pub put_own : (bs : List Bucket) → times_of p (put_times p ts bs) ≡ ts
  unfolding put_times
  put_own [] = rw (same_principal_self p) refl
  put_own (b ∷ bs) = elim (Bool-cases (is_of p b)) [
    | inl t ↦ rw t (rw t refl)
    | inr f ↦ rw f (rw f (put_own bs))
  ]

  pub put_other :
      (q : Principal) (bs : List Bucket)
      → same_principal p q ≡ false
      → times_of q (put_times p ts bs) ≡ times_of q bs
  unfolding put_times
  put_other q [] h = rw h refl
  put_other q (b ∷ bs) h = elim (Bool-cases (is_of p b)) [
    | inl t ↦
        (let e = same_principal-eq b.owner p t in
          let other : is_of q b ≡ false = subst (λ x. same_principal x q ≡ false) (sym e) h in
          rw t (rw other refl))
    | inr f ↦
        rw f (elim (Bool-cases (is_of q b)) [ inl t ↦ rw t refl | inr g ↦ rw g (put_other q bs h) ])
  ]

  pub put_All :
      (P : Bucket → Type 0) (bs : List Bucket)
      → ((owner : Principal) → P (record { owner = owner; times = ts }))
      → All P bs
      → All P (put_times p ts bs)
  unfolding put_times
  put_All P [] n a = (n p, tt)
  put_All P (b ∷ bs) n a = elim (Bool-cases (is_of p b)) [
    | inl t ↦ rw t (n b.owner, a.1)
    | inr f ↦ rw f (a.0, put_All P bs n a.1)
  ]

  pub put_All-Differ :
      (b : Bucket) (bs : List Bucket)
      → is_of p b ≡ false
      → All (Differ b) bs
      → All (Differ b) (put_times p ts bs)
  unfolding put_times
  put_All-Differ b [] f a = (same_principal-swap b.owner p f, tt)
  put_All-Differ b (c ∷ bs) f a = elim (Bool-cases (is_of p c)) [
    | inl t ↦ rw t (a.0, a.1)
    | inr g ↦ rw g (a.0, put_All-Differ b bs f a.1)
  ]

  pub put_Pairs : (bs : List Bucket) → Pairs Differ bs → Pairs Differ (put_times p ts bs)
  unfolding put_times
  put_Pairs [] a = (tt, tt)
  put_Pairs (b ∷ bs) a = elim (Bool-cases (is_of p b)) [
    | inl t ↦ rw t (a.0, a.1)
    | inr f ↦ rw f (put_All-Differ b bs f a.0, put_Pairs bs a.1)
  ]

pub keep_All :
    (P : Bucket → Type 0) (q : Bucket → Bool) (bs : List Bucket) → All P bs → All P (keep q bs)
keep_All P q [] a = tt
keep_All P q (b ∷ bs) a = elim (Bool-cases (q b)) [
  | inl t ↦ rw t (a.0, keep_All P q bs a.1)
  | inr f ↦ rw f (keep_All P q bs a.1)
]

pub keep-Pairs : (q : Bucket → Bool) (bs : List Bucket) → Pairs Differ bs → Pairs Differ (keep q bs)
keep-Pairs q [] a = tt
keep-Pairs q (b ∷ bs) a = elim (Bool-cases (q b)) [
  | inl t ↦ rw t (keep_All (Differ b) q bs a.0, keep-Pairs q bs a.1)
  | inr f ↦ rw f (keep-Pairs q bs a.1)
]

-- What `popleft` leaves is in order and in the past.
pub expire_All : (P : ℕ → Type 0) (now : ℕ) (ts : List ℕ) → All P ts → All P (expire now ts)
unfolding expire
expire_All P now [] a = tt
expire_All P now (t ∷ ts) a = elim (Bool-cases (leb (t + 60) now)) [
  | inl e ↦ rw e (expire_All P now ts a.1)
  | inr e ↦ rw e a
]

pub expire-Pairs :
    (now : ℕ) (ts : List ℕ) → Pairs (λ x y. x ≤ y) ts → Pairs (λ x y. x ≤ y) (expire now ts)
unfolding expire
expire-Pairs now [] a = tt
expire-Pairs now (t ∷ ts) a = elim (Bool-cases (leb (t + 60) now)) [
  | inl e ↦ rw e (expire-Pairs now ts a.1)
  | inr e ↦ rw e a
]

All-weaken :
    (now later : ℕ) (ts : List ℕ) → now ≤ later → All (λ t. t ≤ now) ts → All (λ t. t ≤ later) ts
All-weaken now later [] h a = tt
All-weaken now later (t ∷ ts) h a = (let b = a.0 in omega arith, All-weaken now later ts h a.1)

pub times_IsFit :
    (l : Limits) (now : ℕ) (p : Principal) (bs : List Bucket)
    → All (IsFit l now) bs
    → IsFit l now (record { owner = p; times = times_of p bs })
times_IsFit l now p [] a = record { ordered = tt; past = tt; bounded = omega arith }
times_IsFit l now p (b ∷ bs) a = elim (Bool-cases (is_of p b)) [
  | inl t ↦
      (let f = a.0 in rw t (record { ordered = f.ordered; past = f.past; bounded = f.bounded }))
  | inr f ↦ rw f (times_IsFit l now p bs a.1)
]

pub All-later :
    (l : Limits) (now later : ℕ) (bs : List Bucket)
    → now ≤ later
    → All (IsFit l now) bs
    → All (IsFit l later) bs
All-later l now later [] h a = tt
All-later l now later (b ∷ bs) h a =
    let f = a.0 in
    (
      record {
        ordered = f.ordered;
        past = All-weaken now later b.times h f.past;
        bounded = f.bounded;
      },
      All-later l now later bs h a.1,
    )
