-- ===== src/Admission.antt =====
-- `RequestLimits` of src/traceguard/control/admission.py: the concurrency and rate budgets that
-- `__call__` checks before it reads a request, and the release at its end. The identity of the caller
-- is given. A time is a number of seconds, and `x > now - 60` is written `now < x + 60`.
pub mod Window
pub mod Puts
pub mod Rate
pub mod Budgets
mod Tests
use trace_guard.Common.{
  ℕ, ◌+◌, ◌-◌, String, Bool, true, false, ◌&&◌, not, Option, none, some, List, [], ◌∷◌, ◌++◌, ◌==◌,
  ltb, leb, if◌then◌else◌, same_option, any, keep, find, length, get_last?,
}

-- `(actor.subject, actor.service_key_id)`
pub record Principal : Type 0 where
  pub subject : String
  pub credential : Option String

-- A deque of times, the oldest first.
pub record Bucket : Type 0 where
  pub owner : Principal
  pub times : List ℕ

pub record Limits : Type 0 where
  pub max_inflight : ℕ
  pub requests_per_minute : ℕ
  pub max_principals : ℕ

pub record Admissions : Type 0 where
  pub inflight : ℕ
  pub buckets : List Bucket

pub data Verdict : Type 0 where
  admitted concurrency_exhausted principals_exhausted requests_exhausted : Verdict

abbrev pub same_principal : Principal → Principal → Bool
same_principal p q = p.subject == q.subject && same_option p.credential q.credential

abbrev pub is_of : Principal → Bucket → Bool
is_of p b = same_principal b.owner p

abbrev pub is_recent : ℕ → ℕ → Bool
is_recent now t = ltb now (t + 60)

-- `value and value[-1] > now - 60`
abbrev pub is_live : ℕ → Bucket → Bool
is_live now b = elim (get_last? b.times) [ none ↦ false | some t ↦ is_recent now t ]

abbrev pub times_of : Principal → List Bucket → List ℕ
times_of p [] = []
times_of p (b ∷ bs) = if is_of p b then b.times else times_of p bs

-- A write to the deque of a principal, which is there or is added.
unfoldable pub put_times : Principal → List ℕ → List Bucket → List Bucket
put_times p ts [] = record { owner = p; times = ts } ∷ []
put_times p ts (b ∷ bs) =
    let rest = put_times p ts bs in if is_of p b then record b { times = ts } ∷ bs else b ∷ rest

-- The loop of `popleft`.
unfoldable pub expire : ℕ → List ℕ → List ℕ
expire now [] = []
expire now (t ∷ ts) = let rest = expire now ts in if leb (t + 60) now then rest else t ∷ ts

module _ (l : Limits) where
  abbrev pub admit_bucket : ℕ → Principal → List ℕ → List Bucket → Admissions → Verdict × Admissions
  admit_bucket now p ts bs s =
      if leb l.requests_per_minute (length ts)
      then (requests_exhausted, record s { buckets = put_times p ts bs })
      else (
        admitted,
        record { inflight = s.inflight + 1; buckets = put_times p (ts ++ now ∷ []) bs },
      )

  abbrev pub admit_principal : ℕ → Principal → List Bucket → Admissions → Verdict × Admissions
  admit_principal now p bs s =
      if not (any (is_of p) bs) && leb l.max_principals (length bs)
      then (principals_exhausted, record s { buckets = bs })
      else admit_bucket now p (expire now (times_of p bs)) bs s

  abbrev pub admit_actor : ℕ → Option Principal → Admissions → Verdict × Admissions
  admit_actor now none s = (admitted, record s { inflight = s.inflight + 1 })
  admit_actor now (some p) s = admit_principal now p (keep (is_live now) s.buckets) s

  unfoldable pub admit : ℕ → Option Principal → Admissions → Verdict × Admissions
  admit now actor s =
      if leb l.max_inflight s.inflight then (concurrency_exhausted, s) else admit_actor now actor s

-- `finally: self.inflight -= 1`
unfoldable pub release : Admissions → Admissions
release s = record s { inflight = s.inflight - 1 }
