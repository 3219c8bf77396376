-- ===== src/Ledger/Change/Operations.antt =====
-- The operations of src/traceguard/ledger.py refine the specification.
use mathlib.Core.Path.{subst}
use trace_guard.Common.{
  String, ◌≡◌, refl, Bool, true, false, ◌&&◌, ◌||◌, not, Option, none, some, List, [], ◌∷◌, ◌++◌,
  map, arith, ◌==◌, find, any, All, Pairs, All-find, Bool-cases, ◌⊎◌, inl, inr, eq_iff, eq_refl,
  Result, ok, err, and-eq-true,
}
use trace_guard.Ledger.Rows.{
  Status, pending, succeeded, unknown, not_dispatched, other_status, Disposition, is_succeeded,
  is_accepted, Row, Request, same_scope, bound, blocks, repeats, reservation,
}
use trace_guard.Ledger.Store.{Database, connect}
use trace_guard.Ledger.Reserve.{
  stale_acceptance, demote, replay, settled, reserve_again, reserve_new, reserve_after, reserve,
  over_budget,
}
use trace_guard.Ledger.Settle.{
  update_where, settle, can_finish, is_definitive, unfounded, awaits_finish, awaits_review,
  awaits_verdict, dispose, finish, decide_result, record_verdict, reconcile, Verdict,
}
use trace_guard.Ledger.Perform.{
  Call, reserving, finishing, deciding, reconciling, perform, Requests,
}
use trace_guard.Ledger.Change.Row.{
  Lifecycle, unchanged, finished, reconciled, reviewed, demoted, Change, revise, insert,
}
use trace_guard.Ledger.Change.Invariant.{IsValid, AreApart, clash}

All-unchanged : (rows : List Row) → All (λ r. Lifecycle r r) rows
All-unchanged [] = tt
All-unchanged (r ∷ rows) = (unchanged refl, All-unchanged rows)

map_id : (rows : List Row) → rows ≡ map (λ r. r) rows
map_id [] = refl
map_id (r ∷ rows) = ground (arith, map_id rows)

module _ {Asked : Request → Type 0} where
  Change-refl : (rows : List Row) → Change Asked rows rows
  Change-refl rows = revise (λ r. r) (All-unchanged rows) (map_id rows)

  -- A raise before the first write.
  Change-of_eq : (db db' : Database) → db' ≡ db → Change Asked db.rows db'.rows
  Change-of_eq db db' e = rw e (Change-refl db.rows)

-- An UPDATE moves the rows that it selects, and leaves the others.
All-update_where :
    (test : Row → Bool) (change : Row → Row) (rows : List Row)
    → ((r : Row) → test r ≡ true → Lifecycle r (change r))
    → All (λ r. Lifecycle r (update_where test change r)) rows
All-update_where test change [] h = tt
All-update_where test change (r ∷ rows) h = (
  elim (Bool-cases (test r)) [ inl t ↦ rw t (h r t) | inr f ↦ rw f (unchanged refl) ],
  All-update_where test change rows h,
)

finish-cases :
    (store_id nonce : String) (s : Status) (result : Option String) (d : Disposition)
    (db : Database)
    → let db' = (finish store_id nonce s result d db).1 in
      (db' ≡ db)
      ⊎ ((can_finish s ≡ true)
          × (unfounded s result d ≡ false)
          × (db'.rows ≡ map (update_where (awaits_finish nonce) (settle s result d)) db.rows))
unfolding finish
finish-cases store_id nonce s result d db = ground arith

finish-Change :
    {Asked : Request → Type 0} (store_id nonce : String) (s : Status) (result : Option String)
    (d : Disposition) (db : Database)
    → Change Asked db.rows (finish store_id nonce s result d db).1.rows
finish-Change store_id nonce s result d db = elim (finish-cases store_id nonce s result d db) [
  | inl same ↦ Change-of_eq db _ same
  | inr (can, founded, e) ↦
      revise (update_where (awaits_finish nonce) (settle s result d))
        (All-update_where (awaits_finish nonce) (settle s result d) db.rows
          (λ r t. finished s result d (ground arith) can founded refl))
        e
]

decide_result-cases :
    (store_id nonce : String) (d : Disposition) (policy : String) (db : Database)
    → let db' = (decide_result store_id nonce d policy db).1 in
      (db' ≡ db) ⊎ (db'.rows ≡ map (update_where (awaits_review nonce policy) (dispose d)) db.rows)
unfolding decide_result
decide_result-cases store_id nonce d policy db = ground arith

decide_result-Change :
    {Asked : Request → Type 0} (store_id nonce : String) (d : Disposition) (policy : String)
    (db : Database)
    → Change Asked db.rows (decide_result store_id nonce d policy db).1.rows
decide_result-Change store_id nonce d policy db =
    elim (decide_result-cases store_id nonce d policy db) [
      | inl same ↦ Change-of_eq db _ same
      | inr e ↦
          revise (update_where (awaits_review nonce policy) (dispose d))
            (All-update_where (awaits_review nonce policy) (dispose d) db.rows
              (λ r t. reviewed d (ground arith) (ground arith) (ground arith) refl))
            e
    ]

reconcile-cases :
    (store_id nonce : String) (v : Verdict) (db : Database)
    → let db' = (reconcile store_id nonce v db).1 in
      (db' ≡ db)
      ⊎ ((is_definitive v.status ≡ true)
          × (unfounded v.status v.result v.disposition ≡ false)
          × (db'.rows
              ≡ map
                  (update_where (awaits_verdict nonce) (settle v.status v.result v.disposition))
                  db.rows))
unfolding reconcile record_verdict
reconcile-cases store_id nonce v db = ground arith

reconcile-Change :
    {Asked : Request → Type 0} (store_id nonce : String) (v : Verdict) (db : Database)
    → Change Asked db.rows (reconcile store_id nonce v db).1.rows
reconcile-Change store_id nonce v db = elim (reconcile-cases store_id nonce v db) [
  | inl same ↦ Change-of_eq db _ same
  | inr (definitive, founded, e) ↦
      revise (update_where (awaits_verdict nonce) (settle v.status v.result v.disposition))
        (All-update_where (awaits_verdict nonce) (settle v.status v.result v.disposition) db.rows
          (λ r t.
            reconciled v.status v.result v.disposition (ground arith) definitive founded refl))
        e
]

-- Where nonces are unique, a row whose nonce is that of a found row is the found row.
demote-others :
    (x : Row) (rows : List Row)
    → All (AreApart x) rows
    → All (λ r. Lifecycle r (demote x.nonce r)) rows
unfolding clash bound
demote-others x [] h = tt
demote-others x (r ∷ rows) h = (
  unchanged (ground (arith, eq_iff r.nonce x.nonce, eq_iff x.nonce r.nonce, h.0)),
  demote-others x rows h.1,
)

demote_self :
    (x : Row)
    → is_succeeded x.status ≡ true
    → is_accepted x.disposition ≡ true
    → Lifecycle x (demote x.nonce x)
demote_self x s a = rw (eq_refl x.nonce) (demoted s a refl)

demote-found :
    (test : Row → Bool) (found : Row) (rows : List Row)
    → Pairs AreApart rows
    → find test rows ≡ some found
    → is_succeeded found.status ≡ true
    → is_accepted found.disposition ≡ true
    → All (λ r. Lifecycle r (demote found.nonce r)) rows
unfolding clash bound
demote-found test found [] v e s a = tt
demote-found test found (x ∷ rows) v e s a = elim (Bool-cases (test x)) [
  | inl t ↦
      (let same : x ≡ found = ground arith in
        subst (λ y. All (λ r. Lifecycle r (demote y.nonce r)) (x ∷ rows)) same
          (demote_self x (rw (← same) at s) (rw (← same) at a), demote-others x rows v.0))
  | inr f ↦
      (let later : find test rows ≡ some found = ground arith in
        (
          unchanged (
              ground (
                arith,
                eq_iff x.nonce found.nonce,
                All-find (AreApart x) test rows found v.0 later,
              )),
          demote-found test found rows v.1 later s a,
        ))
]

-- The ways in which `reserve` ends: nothing is written, a stale acceptance goes back to review, or
-- the reservation is inserted.
pub data Reserved (q : Request) (db : Database) (rows' : List Row) : Type 0 where
  untouched : rows' ≡ db.rows → Reserved q db rows'
  reopened :
      (r : Row)
      → find (bound q.nonce q.scope q.idempotency_key) db.rows ≡ some r
      → is_succeeded r.status ≡ true
      → is_accepted r.disposition ≡ true
      → rows' ≡ map (demote r.nonce) db.rows
      → Reserved q db rows'
  inserted :
      any (bound q.nonce q.scope q.idempotency_key) db.rows ≡ false
      → any (blocks q.scope) db.rows ≡ false
      → (not q.repeatable && any (repeats q.scope q.effect_digest) db.rows) ≡ false
      → over_budget q db.rows ≡ false
      → rows' ≡ db.rows ++ reservation q ∷ []
      → Reserved q db rows'

replay-Reserved :
    (q : Request) (r : Row) (db : Database)
    → find (bound q.nonce q.scope q.idempotency_key) db.rows ≡ some r
    → is_succeeded r.status ≡ true
    → Reserved q db (replay q r db).1.rows
unfolding replay
replay-Reserved q r db f s = elim (Bool-cases (stale_acceptance q r)) [
  | inl stale ↦ reopened r f s (and-eq-true _ _ stale).0 (rw stale)
  | inr fresh ↦ untouched (rw fresh)
]

settled-Reserved :
    (s : Status) (q : Request) (r : Row) (db : Database)
    → r.status ≡ s
    → find (bound q.nonce q.scope q.idempotency_key) db.rows ≡ some r
    → Reserved q db (settled s q r db).1.rows
settled-Reserved succeeded q r db e f = replay-Reserved q r db f (rw e)
settled-Reserved not_dispatched q r db e f = untouched refl
settled-Reserved pending q r db e f = untouched refl
settled-Reserved unknown q r db e f = untouched refl
settled-Reserved (other_status _) q r db e f = untouched refl

reserve_again-Reserved :
    (q : Request) (r : Row) (db : Database)
    → find (bound q.nonce q.scope q.idempotency_key) db.rows ≡ some r
    → Reserved q db (reserve_again q r db).1.rows
unfolding reserve_again
reserve_again-Reserved q r db f =
    elim (Bool-cases (not (r.digest == q.digest) || not (same_scope r.scope q.scope))) [
      | inl bad ↦ untouched (rw bad)
      | inr good ↦ rw good (settled-Reserved r.status q r db refl f)
    ]

reserve_new-Reserved : (q : Request) (db : Database) → Reserved q db (reserve_new q db).1.rows
unfolding reserve_new
reserve_new-Reserved q db = elim (Bool-cases (any (blocks q.scope) db.rows)) [
  | inl b ↦ untouched (rw b)
  | inr clear ↦
      rw clear
        (elim (Bool-cases (not q.repeatable && any (repeats q.scope q.effect_digest) db.rows)) [
          | inl b ↦ untouched (rw b)
          | inr fresh ↦ rw fresh (elim (Bool-cases (over_budget q db.rows)) [
            | inl b ↦ untouched (rw b)
            | inr covered ↦
                rw covered
                  (elim (Bool-cases (any (bound q.nonce q.scope q.idempotency_key) db.rows)) [
                    | inl b ↦ untouched (rw b)
                    | inr free ↦ rw free (inserted free clear fresh covered refl)
                  ])
          ])
        ])
]

pub reserve-Reserved :
    (store_id : String) (q : Request) (db : Database) → Reserved q db (reserve store_id q db).1.rows
unfolding reserve
reserve-Reserved store_id q db = by_connection (connect store_id db) refl
  where
    by_search :
        (o : Option Row)
        → find (bound q.nonce q.scope q.idempotency_key) db.rows ≡ o
        → Reserved q db (reserve_after o q db).1.rows
    by_search none f = reserve_new-Reserved q db
    by_search (some r) f = reserve_again-Reserved q r db f

    by_connection :
        (c : Result Unit) → connect store_id db ≡ c → Reserved q db (reserve store_id q db).1.rows
    by_connection (err e) h = untouched (rw (h, reserve))
    by_connection (ok u) h =
        rw (h, reserve) (by_search (find (bound q.nonce q.scope q.idempotency_key) db.rows) refl)

reserve-Change :
    (store_id : String) (q : Request) (db : Database)
    → IsValid db.rows
    → Change (λ q'. q' ≡ q) db.rows (reserve store_id q db).1.rows
reserve-Change store_id q db v = elim (reserve-Reserved store_id q db) [
  | untouched e ↦ rw e (Change-refl db.rows)
  | reopened r f s a e ↦
      revise (demote r.nonce)
        (demote-found (bound q.nonce q.scope q.idempotency_key) r db.rows v.apart f s a) e
  | inserted free clear fresh covered e ↦ insert q refl free clear fresh covered e
]

-- On a valid table every operation, however it ends, makes one change of the specification: it moves
-- each row along its life, or it adds the one reservation that it was asked for.
pub perform-Change :
    (store_id : String) (c : Call) (db : Database)
    → IsValid db.rows
    → Change (Requests c) db.rows (perform store_id c db).rows
unfolding perform
perform-Change store_id (reserving q) db v = reserve-Change store_id q db v
perform-Change store_id (finishing nonce s result d) db v =
    finish-Change store_id nonce s result d db
perform-Change store_id (deciding nonce d policy) db v =
    decide_result-Change store_id nonce d policy db
perform-Change store_id (reconciling nonce verdict) db v =
    reconcile-Change store_id nonce verdict db
