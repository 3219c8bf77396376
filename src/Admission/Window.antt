-- ===== src/Admission/Window.antt =====
-- What src/traceguard/control/admission.py admits in a minute.
use mathlib.Core.Path.{subst}
use trace_guard.Common.{
  ℕ, ◌≤◌, String, Bool, true, false, ◌&&◌, ◌≡◌, refl, Option, none, some, List, [], ◌∷◌, ◌==◌,
  same_option, keep, length, get_last?, count, All, Pairs, arith, Bool-cases, Option-cases, inl,
  inr, ==→eq, eq_refl, and-eq-true,
}
use trace_guard.Admission.{
  Principal, Bucket, Limits, same_principal, is_of, is_recent, is_live, times_of, expire,
}

-- How many times of a list are recent.
abbrev pub recent : ℕ → List ℕ → ℕ
recent now ts = count (is_recent now) ts

pub recent-length : (now : ℕ) (ts : List ℕ) → recent now ts ≤ length ts
recent-length now [] = omega arith
recent-length now (t ∷ ts) = ground (arith, recent-length now ts)

-- The loop of `popleft` drops only what is not recent.
pub recent-expire :
    (now later : ℕ) (ts : List ℕ) → now ≤ later → recent later (expire now ts) ≡ recent later ts
unfolding expire
recent-expire now later [] h = refl
recent-expire now later (t ∷ ts) h = ground (arith, recent-expire now later ts h)

pub length-expire : (now : ℕ) (ts : List ℕ) → length (expire now ts) ≤ length ts
unfolding expire
length-expire now [] = omega arith
length-expire now (t ∷ ts) = ground (arith, length-expire now ts)

last_none : (ts : List ℕ) → get_last? ts ≡ none → ts ≡ []
last_none [] h = refl
last_none (t ∷ ts) h = elim (Option-cases (get_last? ts)) [
  | inl e ↦ cc (rw e at h)
  | inr (y, e) ↦ cc (rw e at h)
]

All-last : (x : ℕ) (ts : List ℕ) (t : ℕ) → All (λ y. x ≤ y) ts → get_last? ts ≡ some t → x ≤ t
All-last x [] t a h = cc
All-last x (y ∷ ts) t a h = elim (Option-cases (get_last? ts)) [
  | inl e ↦ (let k = rw e at h in let w = a.0 in ground arith)
  | inr (z, e) ↦ All-last x ts t a.1 (let k = rw e at h in rw e k)
]

-- A list in order whose last time is not recent has no recent one.
stale_times :
    (now later t : ℕ) (ts : List ℕ)
    → Pairs (λ x y. x ≤ y) ts
    → get_last? ts ≡ some t
    → is_recent now t ≡ false
    → now ≤ later
    → recent later ts ≡ 0
stale_times now later t [] o e f h = refl
stale_times now later t (x ∷ ts) o e f h = elim (Option-cases (get_last? ts)) [
  | inl n ↦ (let k = rw n at e in rw (last_none ts n) (ground arith))
  | inr (y, n) ↦
      (let k : get_last? ts ≡ some t = (let w = rw n at e in rw n w) in
        let below = All-last x ts t o.0 k in
        let rest = stale_times now later t ts o.1 k f h in ground arith)
]

-- Every deque is in order, in the past and within the limit.
pub record IsFit (l : Limits) (now : ℕ) (b : Bucket) : Type 0 where
  pub ordered : Pairs (λ x y. x ≤ y) b.times
  pub past : All (λ t. t ≤ now) b.times
  pub bounded : length b.times ≤ l.requests_per_minute

-- A deque that is not live has no recent time.
dead_times :
    (l : Limits) (before now later : ℕ) (b : Bucket)
    → IsFit l before b
    → is_live now b ≡ false
    → now ≤ later
    → recent later b.times ≡ 0
dead_times l before now later b h f k = elim (Option-cases (get_last? b.times)) [
  | inl e ↦ rw (last_none b.times e) refl
  | inr (t, e) ↦ stale_times now later t b.times h.ordered e (rw (e, is_live) at f) k
]

pub same_principal-eq : (p q : Principal) → same_principal p q ≡ true → p ≡ q
same_principal-eq p q h =
    let (a, b) = and-eq-true (p.subject == q.subject) (same_option p.credential q.credential) h in
    λ i. record {
      subject = ==→eq p.subject q.subject a i;
      credential = same_option-eq p.credential q.credential b i;
    }
  where
    same_option-eq : (x y : Option String) → same_option x y ≡ true → x ≡ y
    same_option-eq none none k = refl
    same_option-eq (some x) (some y) k = rw (==→eq x y k) refl
    same_option-eq none (some y) k = cc
    same_option-eq (some x) none k = cc

pub same_principal_self : (p : Principal) → same_principal p p ≡ true
same_principal_self p = self_option p.credential
  where
    self_option : (o : Option String) → (p.subject == p.subject && same_option o o) ≡ true
    self_option none = rw (eq_refl p.subject) refl
    self_option (some c) = rw (eq_refl p.subject, eq_refl c) refl

pub same_principal-swap :
    (p q : Principal) → same_principal p q ≡ false → same_principal q p ≡ false
same_principal-swap p q h = elim (Bool-cases (same_principal q p)) [
  | inr f ↦ f
  | inl t ↦
      (let e = same_principal-eq q p t in
        let self = same_principal_self p in
        let k : same_principal p p ≡ false = subst (λ x. same_principal p x ≡ false) e h in
        cc (self, k))
]

-- Two deques are of two principals.
abbrev pub Differ : Bucket → Bucket → Type 0
Differ b c = is_of b.owner c ≡ false

-- No later deque is of the principal of an earlier one.
no_match :
    (p : Principal) (b : Bucket) (q : Bucket → Bool) (bs : List Bucket)
    → is_of p b ≡ true
    → All (Differ b) bs
    → times_of p (keep q bs) ≡ []
no_match p b q [] t a = refl
no_match p b q (c ∷ bs) t a =
    let e = same_principal-eq b.owner p t in
    let other : is_of p c ≡ false = subst (λ x. is_of x c ≡ false) e a.0 in
    elim (Bool-cases (q c)) [
      | inl k ↦ rw k (rw other (no_match p b q bs t a.1))
      | inr k ↦ rw k (no_match p b q bs t a.1)
    ]

pub keep_times :
    (l : Limits) (p : Principal) (before now later : ℕ) (bs : List Bucket)
    → All (IsFit l before) bs
    → Pairs Differ bs
    → now ≤ later
    → recent later (times_of p (keep (is_live now) bs)) ≡ recent later (times_of p bs)
keep_times l p before now later [] f a k = refl
keep_times l p before now later (b ∷ bs) f a k = elim (Bool-cases (is_live now b)) [
  | inl live ↦ elim (Bool-cases (is_of p b)) [
    | inl own ↦ rw live (rw own refl)
    | inr other ↦ rw live (rw other (keep_times l p before now later bs f.1 a.1 k))
  ]
  | inr dead ↦ elim (Bool-cases (is_of p b)) [
    | inl own ↦
        rw (dead, own)
          (rw (no_match p b (is_live now) bs own a.0, dead_times l before now later b f.0 dead k)
            refl)
    | inr other ↦ rw (dead, other) (keep_times l p before now later bs f.1 a.1 k)
  ]
]
