-- ===== src/Ledger/Runs/Once.antt =====
-- Who gets the permission to dispatch from `reserve` of src/traceguard/ledger.py.
use trace_guard.Common.{
  String, ◌≡◌, ◌≢◌, refl, Bool, true, List, [], ◌∷◌, ◌++◌, any, find, arith, Option, none, some, ok,
  err, any-append, any-find-none, eq_refl, ◌∙◌, execution_unknown,
}
use trace_guard.Ledger.Rows.{
  Status, succeeded, not_dispatched, Row, Request, Scope, bound, same_scope, blocks, reservation,
  same_task,
}
use trace_guard.Ledger.Store.{Database, connect}
use trace_guard.Ledger.Reserve.{replay, settled, reserve_again, reserve_new, reserve_after, reserve}
use trace_guard.Ledger.Perform.{Call, run, perform}
use trace_guard.Ledger.Change.Invariant.{IsValid}
use trace_guard.Ledger.Runs.Safety.{any-run, bound-IsLasting, perform-IsValid}

settled-ne-grant :
    (s : Status) (q : Request) (r : Row) (db : Database) → (settled s q r db).0 ≢ ok none
unfolding replay
settled-ne-grant succeeded q r db h = cc
settled-ne-grant not_dispatched q r db h = cc
settled-ne-grant _ q r db h = cc

reserve_again-ne-grant :
    (q : Request) (r : Row) (db : Database) → (reserve_again q r db).0 ≢ ok none
unfolding reserve_again
reserve_again-ne-grant q r db h = ground (arith, settled-ne-grant r.status q r db)

reserve_new-grant :
    (q : Request) (db : Database)
    → (reserve_new q db).0 ≡ ok none
    → (reserve_new q db).1 ≡ record db { rows = db.rows ++ reservation q ∷ [] }
unfolding reserve_new
reserve_new-grant q db h = ground arith

reserve_after-grant :
    (o : Option Row) (q : Request) (db : Database)
    → (reserve_after o q db).0 ≡ ok none
    → (o ≡ none) × ((reserve_after o q db).1 ≡ record db { rows = db.rows ++ reservation q ∷ [] })
reserve_after-grant none q db h = (refl, reserve_new-grant q db h)
reserve_after-grant (some r) q db h = absurd (reserve_again-ne-grant q r db h)

-- A grant finds the nonce and the key free, and records the reservation as pending.
pub reserve-grant :
    (store_id : String) (q : Request) (db : Database)
    → (reserve store_id q db).0 ≡ ok none
    → (find (bound q.nonce q.scope q.idempotency_key) db.rows ≡ none)
      × ((reserve store_id q db).1 ≡ record db { rows = db.rows ++ reservation q ∷ [] })
unfolding reserve
reserve-grant store_id q db h =
    ground
      (arith, reserve_after-grant (find (bound q.nonce q.scope q.idempotency_key) db.rows) q db)

bound-reservation :
    (nonce : String) (scope : Scope) (key : String) (q : Request)
    → bound nonce scope key (reservation q) ≡ true
    → (rows : List Row) → any (bound nonce scope key) (rows ++ reservation q ∷ []) ≡ true
bound-reservation nonce scope key q h rows = rw any-append (ground arith)

same_scope_refl : (s : Scope) → same_scope s s ≡ true
unfolding same_scope
same_scope_refl s = rw (eq_refl s.tenant, eq_refl s.principal, eq_refl s.credential, eq_refl s.task)

-- The permission to dispatch is given at most once: after a grant on a valid table, whatever calls
-- come between, no request with the same nonce is granted, and none with the same scope and
-- idempotency key.
pub granted_once :
    (store_id : String) (q q' : Request) (calls : List Call) (db : Database)
    → IsValid db.rows
    → (reserve store_id q db).0 ≡ ok none
    → bound q'.nonce q'.scope q'.idempotency_key (reservation q) ≡ true
    → (reserve store_id q' (run store_id calls (reserve store_id q db).1)).0 ≢ ok none
unfolding perform
granted_once store_id q q' calls db v granted shared again =
    let first = reserve-grant store_id q db granted in
    let after = (reserve store_id q db).1 in
    let valid : IsValid after.rows = perform-IsValid store_id (Call.reserving q) db v in
    let there : any (bound q'.nonce q'.scope q'.idempotency_key) after.rows ≡ true =
      rw first.1 (bound-reservation q'.nonce q'.scope q'.idempotency_key q shared db.rows) in
    let still =
      any-run (bound q'.nonce q'.scope q'.idempotency_key) store_id calls after
        (bound-IsLasting q'.nonce q'.scope q'.idempotency_key) valid there in
    let second = reserve-grant store_id q' (run store_id calls after) again in
    let gone =
      any-find-none (bound q'.nonce q'.scope q'.idempotency_key) (run store_id calls after).rows
        second.0 in
    cc

any-append_last :
    (p : Row → Bool) (rows : List Row) (r : Row) → p r ≡ true → any p (rows ++ r ∷ []) ≡ true
any-append_last p rows r h = rw any-append (ground arith)

blocks-reservation :
    (scope : Scope) (q : Request)
    → same_task q.scope scope ≡ true
    → blocks scope (reservation q) ≡ true
unfolding blocks
blocks-reservation scope q h = ground arith

connect-rows :
    (store_id : String) (db : Database) (rows : List Row)
    → connect store_id (record db { rows = rows }) ≡ connect store_id db
unfolding connect
connect-rows store_id db rows = refl

reserve-blocked :
    (store_id : String) (q : Request) (db : Database)
    → connect store_id db ≡ ok tt
    → find (bound q.nonce q.scope q.idempotency_key) db.rows ≡ none
    → any (blocks q.scope) db.rows ≡ true
    → reserve store_id q db
      ≡ (err (execution_unknown "task has a pending or unknown effect; reconcile before retry"), db)
unfolding reserve reserve_new
reserve-blocked store_id q db c f b = rw (c, reserve, f, b, reserve_new)

-- A grant closes its task: the next request of the task, with a nonce and a key of its own, is told
-- that the outcome is unknown, and the database stays as it was.
pub grant_closes_task :
    (store_id : String) (q q' : Request) (db : Database)
    → connect store_id db ≡ ok tt
    → (reserve store_id q db).0 ≡ ok none
    → same_task q.scope q'.scope ≡ true
    → find (bound q'.nonce q'.scope q'.idempotency_key) (reserve store_id q db).1.rows ≡ none
    → reserve store_id q' (reserve store_id q db).1 ≡ (
      err (execution_unknown "task has a pending or unknown effect; reconcile before retry"),
      (reserve store_id q db).1,
    )
grant_closes_task store_id q q' db c granted t f =
    let e = (reserve-grant store_id q db granted).1 in
    reserve-blocked store_id q' (reserve store_id q db).1
      (rw e (connect-rows store_id db (db.rows ++ reservation q ∷ []) ∙ c)) f
      (rw e (
        any-append_last (blocks q'.scope) db.rows (reservation q)
          (blocks-reservation q'.scope q t)))
