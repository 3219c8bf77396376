-- ===== src/Ledger/Runs/Safety.antt =====
-- What holds of the ledger of src/traceguard/ledger.py after any calls.
use trace_guard.Common.{
  ℕ, ◌≤◌, String, ◌≡◌, Bool, true, List, [], ◌∷◌, map, All, any, arith, ◌==◌, ◌&&◌, any-append,
}
use trace_guard.Ledger.Rows.{Row, Request, Scope, is_succeeded, is_withheld, spent, bound}
use trace_guard.Ledger.Store.{Database}
use trace_guard.Ledger.Perform.{Call, perform, run, Requests}
use trace_guard.Ledger.Change.Row.{
  Lifecycle, Change, revise, insert, Lifecycle-SameEffect, Lifecycle-withheld,
}
use trace_guard.Ledger.Change.Invariant.{IsValid, Change-IsValid}
use trace_guard.Ledger.Change.Budget.{Respects, spent-Change}
use trace_guard.Ledger.Change.Operations.{perform-Change}

pub perform-IsValid :
    (store_id : String) (c : Call) (db : Database)
    → IsValid db.rows
    → IsValid (perform store_id c db).rows
perform-IsValid store_id c db v =
    Change-IsValid db.rows (perform store_id c db).rows (perform-Change store_id c db v) v

-- From a valid table every run of calls leads to a valid one: nonces and idempotency keys stay
-- unique, a task never has two unresolved effects, and what is accepted was stored by an execution
-- that succeeded.
pub run-IsValid :
    (store_id : String) (calls : List Call) (db : Database)
    → IsValid db.rows
    → IsValid (run store_id calls db).rows
run-IsValid store_id [] db v = v
run-IsValid store_id (c ∷ calls) db v =
    run-IsValid store_id calls (perform store_id c db) (perform-IsValid store_id c db v)

-- From a valid table in which a task is within its budget, whatever is called, as long as the task's
-- reservations all name a limit within the budget, the task never has more than the budget reserved
-- or spent.
pub run_within_budget :
    (store_id : String) (budget : ℕ) (scope : Scope) (calls : List Call) (db : Database)
    → IsValid db.rows
    → All (λ c. (q : Request) → Requests c q → Respects budget scope q) calls
    → spent scope db.rows ≤ budget
    → spent scope (run store_id calls db).rows ≤ budget
run_within_budget store_id budget scope [] db v rs h = h
run_within_budget store_id budget scope (c ∷ calls) db v rs h =
    run_within_budget store_id budget scope calls (perform store_id c db)
      (perform-IsValid store_id c db v) rs.1
      (spent-Change budget scope db.rows (perform store_id c db).rows rs.0
        (perform-Change store_id c db v) h)

-- A test that no step of a row's life can make fail.
pub record IsLasting (test : Row → Bool) : Type 0 where
  pub lasts : (r r' : Row) → Lifecycle r r' → test r ≡ true → test r' ≡ true

any-map-IsLasting :
    (test : Row → Bool) (f : Row → Row) (rows : List Row)
    → IsLasting test
    → All (λ r. Lifecycle r (f r)) rows
    → any test rows ≡ true
    → any test (map f rows) ≡ true
any-map-IsLasting test f [] k ls h = h
any-map-IsLasting test f (r ∷ rows) k ls h =
    ground (arith, k.lasts r (f r) ls.0, any-map-IsLasting test f rows k ls.1)

any-Change :
    {Asked : Request → Type 0} (test : Row → Bool) (rows rows' : List Row)
    → IsLasting test
    → Change Asked rows rows'
    → any test rows ≡ true
    → any test rows' ≡ true
any-Change test rows rows' k (revise f ls e) h = rw e (any-map-IsLasting test f rows k ls h)
any-Change test rows rows' k (insert q asked free clear fresh covered e) h =
    rw (e, any-append) (ground arith)

-- A row that passes a lasting test keeps its place in the table, whatever is called.
pub any-run :
    (test : Row → Bool) (store_id : String) (calls : List Call) (db : Database)
    → IsLasting test
    → IsValid db.rows
    → any test db.rows ≡ true
    → any test (run store_id calls db).rows ≡ true
any-run test store_id [] db k v h = h
any-run test store_id (c ∷ calls) db k v h =
    any-run test store_id calls (perform store_id c db) k (perform-IsValid store_id c db v)
      (any-Change test db.rows (perform store_id c db).rows k (perform-Change store_id c db v) h)

-- That a row is bound to a nonce and a key lasts, and so does that its result is withheld.
pub bound-IsLasting :
    (nonce : String) (scope : Scope) (key : String) → IsLasting (bound nonce scope key)
unfolding bound
bound-IsLasting nonce scope key = record {
  lasts = λ r r' l h. let s = Lifecycle-SameEffect l in rw (s.nonce, s.scope, s.idempotency_key) h;
}

unfoldable pub withheld_as : String → Row → Bool
withheld_as nonce r = r.nonce == nonce && (is_succeeded r.status && is_withheld r.disposition)

pub withheld_as-IsLasting : (nonce : String) → IsLasting (withheld_as nonce)
unfolding withheld_as
withheld_as-IsLasting nonce = record {
  lasts = λ r r' l h.
      let s = Lifecycle-SameEffect l in rw s.nonce (ground (arith, Lifecycle-withheld l));
}
