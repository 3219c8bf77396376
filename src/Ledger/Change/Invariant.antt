-- ===== src/Ledger/Change/Invariant.antt =====
-- The invariant of the table `executions` of src/traceguard/ledger.py, and that every change of
-- the specification keeps it.
use trace_guard.Common.{
  ◌≡◌, refl, Bool, false, ◌&&◌, ◌||◌, List, [], ◌∷◌, map, arith, any, All, Pairs, All-append,
  Pairs-append,
}
use trace_guard.Ledger.Rows.{is_in_flight, Row, Request, same_task, bound, blocks, reservation}
use trace_guard.Ledger.Change.Row.{
  Lifecycle, Change, revise, insert, IsHonest, Lifecycle-SameEffect, Lifecycle-in_flight,
  Lifecycle-IsHonest,
}

-- Two rows share a nonce, or the scope and the key, or are both unresolved in one task.
unfoldable pub clash : Row → Row → Bool
unfolding bound
clash r r' =
    bound r'.nonce r'.scope r'.idempotency_key r
    || (is_in_flight r.status && is_in_flight r'.status && same_task r.scope r'.scope)

abbrev pub AreApart : Row → Row → Type 0
AreApart r r' = clash r r' ≡ false

-- Nonces and keys are unique, at most one effect of a task is unresolved, and accepted results are
-- stored results of executions that succeeded.
pub record IsValid (rows : List Row) : Type 0 where
  pub apart : Pairs AreApart rows
  pub honest : All IsHonest rows

clash-Lifecycle :
    (x x' y y' : Row) → Lifecycle x x' → Lifecycle y y' → clash x y ≡ false → clash x' y' ≡ false
unfolding clash
clash-Lifecycle x x' y y' l m h =
    let a = Lifecycle-SameEffect l in
    let b = Lifecycle-SameEffect m in
    rw (a.nonce, a.scope, a.idempotency_key, b.nonce, b.scope, b.idempotency_key)
      (ground (arith, Lifecycle-in_flight l, Lifecycle-in_flight m))

All-apart_map :
    (f : Row → Row) (x : Row) (rows : List Row)
    → Lifecycle x (f x)
    → All (λ r. Lifecycle r (f r)) rows
    → All (AreApart x) rows
    → All (AreApart (f x)) (map f rows)
All-apart_map f x [] l ls h = tt
All-apart_map f x (y ∷ rows) l ls h =
    (clash-Lifecycle x (f x) y (f y) l ls.0 h.0, All-apart_map f x rows l ls.1 h.1)

Pairs-apart_map :
    (f : Row → Row) (rows : List Row)
    → All (λ r. Lifecycle r (f r)) rows
    → Pairs AreApart rows
    → Pairs AreApart (map f rows)
Pairs-apart_map f [] ls h = tt
Pairs-apart_map f (x ∷ rows) ls h =
    (All-apart_map f x rows ls.0 ls.1 h.0, Pairs-apart_map f rows ls.1 h.1)

All-IsHonest-map :
    (f : Row → Row) (rows : List Row)
    → All (λ r. Lifecycle r (f r)) rows
    → All IsHonest rows
    → All IsHonest (map f rows)
All-IsHonest-map f [] ls h = tt
All-IsHonest-map f (x ∷ rows) ls h = (Lifecycle-IsHonest ls.0 h.0, All-IsHonest-map f rows ls.1 h.1)

-- The first two queries of `reserve` make room for the row that it inserts.
apart_of_queries :
    (q : Request) (rows : List Row)
    → any (bound q.nonce q.scope q.idempotency_key) rows ≡ false
    → any (blocks q.scope) rows ≡ false
    → All (λ r. AreApart r (reservation q)) rows
unfolding clash blocks
apart_of_queries q [] h k = tt
apart_of_queries q (r ∷ rows) h k =
    (ground arith, apart_of_queries q rows (ground arith) (ground arith))

-- Every change of the specification keeps the invariant.
pub Change-IsValid :
    {Asked : Request → Type 0} (rows rows' : List Row)
    → Change Asked rows rows'
    → IsValid rows
    → IsValid rows'
Change-IsValid rows rows' (revise f ls e) v = rw e (record {
  apart = Pairs-apart_map f rows ls v.apart;
  honest = All-IsHonest-map f rows ls v.honest;
})
Change-IsValid rows rows' (insert q asked free clear fresh covered e) v = rw e (record {
  apart = Pairs-append AreApart rows (reservation q) v.apart (apart_of_queries q rows free clear);
  honest = All-append IsHonest rows (reservation q ∷ []) v.honest (refl, tt);
})
