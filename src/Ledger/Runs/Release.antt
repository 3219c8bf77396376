-- ===== src/Ledger/Runs/Release.antt =====
-- Which results `reserve` of src/traceguard/ledger.py hands back.
use trace_guard.Common.{
  String, ◌≡◌, ◌≢◌, refl, Bool, true, false, List, [], ◌∷◌, any, find, arith, ◌||◌, not, Option,
  none, some, Result, ok, err, All, Pairs, All-find, Bool-cases, inl, inr, eq_iff, ◌==◌, is_some,
}
use trace_guard.Ledger.Rows.{
  Status, succeeded, not_dispatched, Row, Request, bound, same_scope, is_succeeded, is_accepted,
  is_withheld,
}
use trace_guard.Ledger.Store.{Database, connect}
use trace_guard.Ledger.Reserve.{
  Replay, replay, settled, reserve_again, reserve_new, reserve_after, reserve,
}
use trace_guard.Ledger.Perform.{Call, run}
use trace_guard.Ledger.Change.Invariant.{IsValid, AreApart, clash}
use trace_guard.Ledger.Runs.Safety.{any-run, run-IsValid, withheld_as, withheld_as-IsLasting}

-- A reply `p` hands over the result of a row: the row is bound to the same effect by the same
-- caller, it succeeded, its result was accepted under the caller's policy, and nothing is written.
pub record HandsOver (q : Request) (r : Row) (p : Replay) (db db' : Database) : Type 0 where
  pub same_digest : (r.digest == q.digest) ≡ true
  pub caller : same_scope r.scope q.scope ≡ true
  pub status : is_succeeded r.status ≡ true
  pub accepted : is_accepted r.disposition ≡ true
  pub same_policy : (r.result_policy == q.result_policy) ≡ true
  pub nonce : p.nonce ≡ r.nonce
  pub result : p.result ≡ r.result
  pub kept : db' ≡ db

module _ (q : Request) (p : Replay) (db : Database) where
  replay-HandsOver :
      (r : Row)
      → (r.digest == q.digest) ≡ true
      → same_scope r.scope q.scope ≡ true
      → is_succeeded r.status ≡ true
      → (replay q r db).0 ≡ ok (some p)
      → is_some p.result ≡ true
      → HandsOver q r p db (replay q r db).1
  unfolding replay
  replay-HandsOver r d s t h g = ground arith

  settled-HandsOver :
      (s : Status) (r : Row)
      → r.status ≡ s
      → (r.digest == q.digest) ≡ true
      → same_scope r.scope q.scope ≡ true
      → (settled s q r db).0 ≡ ok (some p)
      → is_some p.result ≡ true
      → HandsOver q r p db (settled s q r db).1
  settled-HandsOver succeeded r e d c h g = replay-HandsOver r d c (rw e) h g
  settled-HandsOver not_dispatched r e d c h g = cc
  settled-HandsOver _ r e d c h g = cc

  reserve_again-HandsOver :
      (r : Row)
      → (reserve_again q r db).0 ≡ ok (some p)
      → is_some p.result ≡ true
      → HandsOver q r p db (reserve_again q r db).1
  unfolding reserve_again
  reserve_again-HandsOver r h g =
      elim (Bool-cases (not (r.digest == q.digest) || not (same_scope r.scope q.scope))) [
        | inl bad ↦ cc (rw bad at h)
        | inr good ↦
            rw good
              (settled-HandsOver r.status r refl (ground arith) (ground arith) (rw good at h) g)
      ]

  reserve_new-no_replay : (reserve_new q db).0 ≢ ok (some p)
  unfolding reserve_new
  reserve_new-no_replay h = ground arith

  reserve_after-HandsOver :
      (o : Option Row)
      → (reserve_after o q db).0 ≡ ok (some p)
      → is_some p.result ≡ true
      → (r : Row) × (o ≡ some r) × HandsOver q r p db (reserve_after o q db).1
  reserve_after-HandsOver none h g = absurd (reserve_new-no_replay h)
  reserve_after-HandsOver (some r) h g = (r, refl, reserve_again-HandsOver r h g)

-- `reserve` hands a stored result over only from the row that the request is bound to, if that row
-- has the request's effect and caller, succeeded, and was accepted under the request's policy; it
-- then writes nothing.
pub release_needs_acceptance :
    (store_id : String) (q : Request) (p : Replay) (db : Database)
    → (reserve store_id q db).0 ≡ ok (some p)
    → is_some p.result ≡ true
    → (r : Row) × (find (bound q.nonce q.scope q.idempotency_key) db.rows ≡ some r)
      × HandsOver q r p db (reserve store_id q db).1
unfolding reserve
release_needs_acceptance store_id q p db h g = by_connection (connect store_id db) refl
  where
    by_connection :
        (c : Result Unit)
        → connect store_id db ≡ c
        → (r : Row) × (find (bound q.nonce q.scope q.idempotency_key) db.rows ≡ some r)
          × HandsOver q r p db (reserve store_id q db).1
    by_connection (err e) k = cc (rw (k, reserve) at h)
    by_connection (ok u) k =
        rw (k, reserve)
          (reserve_after-HandsOver q p db (find (bound q.nonce q.scope q.idempotency_key) db.rows)
            (rw (k, reserve) at h) g)

others_differ :
    (x : Row) (rows : List Row) → All (AreApart x) rows → any (withheld_as x.nonce) rows ≡ false
unfolding clash bound withheld_as
others_differ x [] h = refl
others_differ x (y ∷ rows) h =
    ground (arith, eq_iff x.nonce y.nonce, eq_iff y.nonce x.nonce, others_differ x rows h.1)

-- In a valid table the row that has a nonce is the one that is withheld under it.
withheld_row :
    (test : Row → Bool) (r : Row) (rows : List Row)
    → Pairs AreApart rows
    → find test rows ≡ some r
    → any (withheld_as r.nonce) rows ≡ true
    → is_withheld r.disposition ≡ true
unfolding clash bound withheld_as
withheld_row test r [] v f w = cc
withheld_row test r (x ∷ rows) v f w = elim (Bool-cases (test x)) [
  | inl t ↦ (let same : x ≡ r = ground arith in ground (arith, others_differ x rows v.0))
  | inr t ↦
      (let later : find test rows ≡ some r = ground arith in
        ground (
          arith,
          withheld_row test r rows v.1,
          All-find (AreApart x) test rows r v.0 later,
          eq_iff x.nonce r.nonce,
        ))
]

accepted-ne-withheld :
    (r : Row) → is_accepted r.disposition ≡ true → is_withheld r.disposition ≡ true → ⊥
accepted-ne-withheld r a w = ground arith

-- A result that is withheld in a valid table is never handed over again: after any calls, a reply
-- that names its nonce has no result.
pub withheld_forever :
    (store_id : String) (calls : List Call) (q : Request) (p : Replay) (db : Database)
    → IsValid db.rows
    → any (withheld_as p.nonce) db.rows ≡ true
    → (reserve store_id q (run store_id calls db)).0 ≡ ok (some p)
    → p.result ≡ none
withheld_forever store_id calls q p db v w h = by_result p.result refl
  where
    by_result : (o : Option String) → p.result ≡ o → o ≡ none
    by_result none e = refl
    by_result (some t) e =
        let later = run store_id calls db in
        let (r, found, given) = release_needs_acceptance store_id q p later h (rw e) in
        let still =
          any-run (withheld_as p.nonce) store_id calls db (withheld_as-IsLasting p.nonce) v w in
        let withheld =
          withheld_row (bound q.nonce q.scope q.idempotency_key) r later.rows
            (run-IsValid store_id calls db v).apart found (rw given.nonce at still) in
        absurd (accepted-ne-withheld r given.accepted withheld)
