-- ===== src/Admission/Rate.antt =====
-- Runs of the budgets of src/traceguard/control/admission.py, with the log of what was admitted.
use mathlib.Core.Path.{subst}
use trace_guard.Common.{
  ℕ, ◌≤◌, false, ◌&&◌, not, ◌≡◌, refl, sym, ◌∙◌, Option, none, some, List, [], ◌∷◌, ◌++◌, leb, any,
  keep, length, count, count-append, length-append, All, Pairs, All-append, Pairs-append, arith,
  Bool-cases, inl, inr,
}
use trace_guard.Admission.{
  Principal, Bucket, Limits, Admissions, Verdict, admitted, same_principal, is_of, is_recent,
  is_live, times_of, put_times, expire, admit_principal, admit, release,
}
use trace_guard.Admission.Window.{
  recent, recent-length, recent-expire, length-expire, IsFit, Differ, same_principal-eq,
  same_principal_self, keep_times,
}
use trace_guard.Admission.Puts.{
  put_own, put_other, put_All, put_Pairs, keep_All, keep-Pairs, expire_All, expire-Pairs,
  times_IsFit, All-later,
}

-- The admissions of a principal in the minute before a time.
abbrev pub admitted_since : Principal → ℕ → List (Principal × ℕ) → ℕ
admitted_since p now log = count (λ e. same_principal e.0 p && is_recent now e.1) log

-- The deques are fit, of different principals, and count what the log has of the last minute.
record IsCounted (l : Limits) (now : ℕ) (log : List (Principal × ℕ)) (bs : List Bucket)
    : Type 0 where
  pub fits : All (IsFit l now) bs
  pub apart : Pairs Differ bs
  pub counted :
      (p : Principal) (later : ℕ)
      → now ≤ later
      → admitted_since p later log ≡ recent later (times_of p bs)

module _ (l : Limits) (now : ℕ) where
  kept_IsCounted :
      (before : ℕ) (log : List (Principal × ℕ)) (bs : List Bucket)
      → before ≤ now
      → IsCounted l before log bs
      → IsCounted l now log (keep (is_live now) bs)
  kept_IsCounted before log bs h c = record {
    fits = keep_All (IsFit l now) (is_live now) bs (All-later l before now bs h c.fits);
    apart = keep-Pairs (is_live now) bs c.apart;
    counted = λ p later k.
        c.counted p later (omega (arith, h, k))
        ∙ sym (keep_times l p before now later bs c.fits c.apart k);
  }

  later_IsCounted :
      (before : ℕ) (log : List (Principal × ℕ)) (bs : List Bucket)
      → before ≤ now
      → IsCounted l before log bs
      → IsCounted l now log bs
  later_IsCounted before log bs h c = record {
    fits = All-later l before now bs h c.fits;
    apart = c.apart;
    counted = λ p later k. c.counted p later (omega (arith, h, k));
  }

  expired_IsCounted :
      (log : List (Principal × ℕ)) (p : Principal) (bs : List Bucket)
      → IsCounted l now log bs
      → IsCounted l now log (put_times p (expire now (times_of p bs)) bs)
  expired_IsCounted log p bs c =
      let ts = times_of p bs in
      let f = times_IsFit l now p bs c.fits in
      let shorter = length-expire now ts in
      let bound = f.bounded in
      record {
        fits =
            put_All p (expire now ts) (IsFit l now) bs
              (λ owner. record {
                ordered = expire-Pairs now ts f.ordered;
                past = expire_All (λ t. t ≤ now) now ts f.past;
                bounded = omega arith;
              })
              c.fits;
        apart = put_Pairs p (expire now ts) bs c.apart;
        counted = λ q later k. elim (Bool-cases (same_principal p q)) [
          | inl t ↦
              (let e = same_principal-eq p q t in
                subst
                  (λ x.
                    admitted_since x later log
                    ≡ recent later (times_of x (put_times p (expire now ts) bs)))
                  e
                  (rw (put_own p (expire now ts) bs)
                    (c.counted p later k ∙ sym (recent-expire now later ts k))))
          | inr g ↦ rw (put_other p (expire now ts) q bs g) (c.counted q later k)
        ];
      }

  admitted_IsCounted :
      (log : List (Principal × ℕ)) (p : Principal) (bs : List Bucket)
      → leb l.requests_per_minute (length (expire now (times_of p bs))) ≡ false
      → IsCounted l now log bs
      → IsCounted l now ((p, now) ∷ log) (put_times p (expire now (times_of p bs) ++ now ∷ []) bs)
  admitted_IsCounted log p bs room c =
      let ts = expire now (times_of p bs) in
      let f = times_IsFit l now p bs c.fits in
      let past = expire_All (λ t. t ≤ now) now (times_of p bs) f.past in
      let sum = length-append ts (now ∷ []) in
      record {
        fits =
            put_All p (ts ++ now ∷ []) (IsFit l now) bs
              (λ owner. record {
                ordered =
                    Pairs-append (λ x y. x ≤ y) ts now (expire-Pairs now (times_of p bs) f.ordered)
                      past;
                past = All-append (λ t. t ≤ now) ts (now ∷ []) past (omega arith, tt);
                bounded = ground arith;
              })
              c.fits;
        apart = put_Pairs p (ts ++ now ∷ []) bs c.apart;
        counted = λ q later k. elim (Bool-cases (same_principal p q)) [
          | inl t ↦
              (let e = same_principal-eq p q t in
                subst
                  (λ x.
                    admitted_since x later ((p, now) ∷ log)
                    ≡ recent later (times_of x (put_times p (ts ++ now ∷ []) bs)))
                  e
                  (let own = c.counted p later k in
                    let old = recent-expire now later (times_of p bs) k in
                    let more = count-append (is_recent later) ts (now ∷ []) in
                    rw (put_own p (ts ++ now ∷ []) bs, same_principal_self p) (ground arith)))
          | inr g ↦
              (let same = c.counted q later k in
                rw (put_other p (ts ++ now ∷ []) q bs g, g) (omega (arith, same)))
        ];
      }

-- The log, after a verdict.
abbrev pub logged : Verdict → Option Principal → ℕ → List (Principal × ℕ) → List (Principal × ℕ)
logged admitted (some p) now log = (p, now) ∷ log
logged _ _ now log = log

-- Requests that arrive, at times that do not fall, and end.
pub data AdmissionRun (l : Limits) : ℕ → List (Principal × ℕ) → Admissions → Type 0 where
  opened : AdmissionRun l 0 [] (record { inflight = 0; buckets = [] })
  arrived :
      (before now : ℕ) (log : List (Principal × ℕ)) (s : Admissions) (actor : Option Principal)
      → AdmissionRun l before log s
      → before ≤ now
      → AdmissionRun l now (logged (admit l now actor s).0 actor now log) (admit l now actor s).1
  ended :
      (now : ℕ) (log : List (Principal × ℕ)) (s : Admissions)
      → AdmissionRun l now log s
      → 1 ≤ s.inflight
      → AdmissionRun l now log (release s)

module _ (l : Limits) where
  principal_IsCounted :
      (now : ℕ) (log : List (Principal × ℕ)) (p : Principal) (bs : List Bucket) (s : Admissions)
      → IsCounted l now log bs
      → IsCounted l now
          (logged (admit_principal l now p bs s).0 (some p) now log)
          (admit_principal l now p bs s).1.buckets
  principal_IsCounted now log p bs s c =
      elim (Bool-cases (not (any (is_of p) bs) && leb l.max_principals (length bs))) [
        | inl t ↦ rw t c
        | inr f ↦
            rw f
              (elim (Bool-cases (leb l.requests_per_minute (length (expire now (times_of p bs))))) [
                | inl t ↦ rw t (expired_IsCounted l now log p bs c)
                | inr g ↦ rw g (admitted_IsCounted l now log p bs g c)
              ])
      ]

  admit-IsCounted :
      (before now : ℕ) (log : List (Principal × ℕ)) (s : Admissions) (actor : Option Principal)
      → before ≤ now
      → IsCounted l before log s.buckets
      → IsCounted l now
          (logged (admit l now actor s).0 actor now log)
          (admit l now actor s).1.buckets
  unfolding admit
  admit-IsCounted before now log s none h c = elim (Bool-cases (leb l.max_inflight s.inflight)) [
    | inl t ↦ rw t (later_IsCounted l now before log s.buckets h c)
    | inr f ↦ rw f (later_IsCounted l now before log s.buckets h c)
  ]
  admit-IsCounted before now log s (some p) h c =
      elim (Bool-cases (leb l.max_inflight s.inflight)) [
        | inl t ↦ rw t (later_IsCounted l now before log s.buckets h c)
        | inr f ↦ rw f (
            principal_IsCounted now log p (keep (is_live now) s.buckets) s
              (kept_IsCounted l now before log s.buckets h c))
      ]

  run_IsCounted :
      (now : ℕ) (log : List (Principal × ℕ)) (s : Admissions)
      → AdmissionRun l now log s
      → IsCounted l now log s.buckets
  unfolding release
  run_IsCounted _ _ _ opened = record { fits = tt; apart = tt; counted = λ p later k. refl }
  run_IsCounted _ _ _ (arrived before now log s actor r h) =
      admit-IsCounted before now log s actor h (run_IsCounted before log s r)
  run_IsCounted _ _ _ (ended now log s r busy) = run_IsCounted now log s r

  -- Whatever requests arrive and end, at times that do not fall, no principal has more than
  -- `requests_per_minute` requests admitted in the last 60 seconds.
  pub run_within_rate :
      (now : ℕ) (log : List (Principal × ℕ)) (s : Admissions) (p : Principal)
      → AdmissionRun l now log s
      → admitted_since p now log ≤ l.requests_per_minute
  run_within_rate now log s p r =
      let c = run_IsCounted now log s r in
      let same = c.counted p now (omega arith) in
      let f = times_IsFit l now p s.buckets c.fits in
      let few = f.bounded in
      let some_of = recent-length now (times_of p s.buckets) in omega (arith, same, few, some_of)
