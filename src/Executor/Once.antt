-- ===== src/Executor/Once.antt =====
-- How often `MediatedExecutor` of src/traceguard/executor.py dispatches.
use trace_guard.Common.{
  String, ◌≡◌, ◌≢◌, refl, true, false, not, Option, none, some, List, [], ◌∷◌, ◌==◌, Result, ok,
  err, arith, any, any-append, any-find-none, All, Pairs, Bool-cases, inl, inr, after-holds,
  eq_refl,
}
use trace_guard.Control.Models.{Actor, ActionRequest, ExecutionGrant}
use trace_guard.Ledger.Rows.{
  Row, Request, bound, Scope, unknown, succeeded, not_dispatched, accepted_for_agent,
  review_required,
}
use trace_guard.Ledger.Store.{Database}
use trace_guard.Ledger.Reserve.{Replay, reserve}
use trace_guard.Ledger.Settle.{has_nonce}
use trace_guard.Ledger.Perform.{Call, reserving, finishing, perform, run as run_calls}
use trace_guard.Ledger.Change.Row.{Lifecycle-SameEffect}
use trace_guard.Ledger.Change.Invariant.{IsValid}
use trace_guard.Ledger.Runs.Safety.{IsLasting, any-run, run-IsValid}
use trace_guard.Ledger.Runs.Once.{reserve-grant}
use trace_guard.Execution.Amount.{Decimal, payment_amount}
use trace_guard.Executor.{
  Executor, Outside, Effects, Outcome, then_reply, outcome_unknown, store_receipt, receive,
  dispatch, after_reserve, with_amount, is_unauthorized, execute, reservation_of, Step, executing,
  other, run,
}

has_nonce-IsLasting : (nonce : String) → IsLasting (has_nonce nonce)
has_nonce-IsLasting nonce = record {
  lasts = λ r r' l h. let s = Lifecycle-SameEffect l in rw s.nonce h;
}

-- The table is valid, every dispatched nonce stands in it, and none was dispatched twice.
pub record IsSafe (s : Effects) : Type 0 where
  pub valid : IsValid s.database.rows
  pub recorded : All (λ n. any (has_nonce n) s.database.rows ≡ true) s.dispatched
  pub once : Pairs (λ m n. m ≢ n) s.dispatched

any-bound :
    (nonce key : String) (scope : Scope) (rows : List Row)
    → any (bound nonce scope key) rows ≡ false
    → any (has_nonce nonce) rows ≡ false
unfolding bound
any-bound nonce key scope [] h = refl
any-bound nonce key scope (r ∷ rows) h = ground (arith, any-bound nonce key scope rows)

differs :
    (m n : String) (rows : List Row)
    → any (has_nonce m) rows ≡ false
    → any (has_nonce n) rows ≡ true
    → m ≢ n
differs m n rows f t e = cc (e, f, t)

module _ (store_id : String) where
  recorded-perform :
      (c : Call) (db : Database) (ns : List String)
      → IsValid db.rows
      → All (λ n. any (has_nonce n) db.rows ≡ true) ns
      → All (λ n. any (has_nonce n) (perform store_id c db).rows ≡ true) ns
  recorded-perform c db [] v h = tt
  recorded-perform c db (n ∷ ns) v h = (
    any-run (has_nonce n) store_id (c ∷ []) db (has_nonce-IsLasting n) v h.0,
    recorded-perform c db ns v h.1,
  )

  perform-IsSafe :
      (c : Call) (s : Effects)
      → IsSafe s
      → IsSafe (record s { database = perform store_id c s.database })
  perform-IsSafe c s h = record {
    valid = run-IsValid store_id (c ∷ []) s.database h.valid;
    recorded = recorded-perform c s.database s.dispatched h.valid h.recorded;
    once = h.once;
  }

  meanwhile-IsSafe :
      (calls : List Call) (s : Effects)
      → IsSafe s
      → IsSafe (record s { database = run_calls store_id calls s.database })
  meanwhile-IsSafe [] s h = h
  meanwhile-IsSafe (c ∷ calls) s h =
      meanwhile-IsSafe calls (record s { database = perform store_id c s.database })
        (perform-IsSafe c s h)

  finish-IsSafe :
      (nonce : String) (c : Call) (reply : Result Outcome) (s : Effects)
      (r : Result (Unit {0}) × Database)
      → r.1 ≡ perform store_id c s.database
      → IsSafe s
      → IsSafe (then_reply s reply r).1
  finish-IsSafe nonce c reply s (err x, db) e h = rw e (perform-IsSafe c s h)
  finish-IsSafe nonce c reply s (ok x, db) e h = rw e (perform-IsSafe c s h)

  All-differ :
      (nonce : String) (rows : List Row) (ns : List String)
      → any (has_nonce nonce) rows ≡ false
      → All (λ n. any (has_nonce n) rows ≡ true) ns
      → All (λ n. nonce ≢ n) ns
  All-differ nonce rows [] f h = tt
  All-differ nonce rows (n ∷ ns) f h = (differs nonce n rows f h.0, All-differ nonce rows ns f h.1)

  granted-IsSafe :
      (q : Request) (s : Effects)
      → (reserve store_id q s.database).0 ≡ ok none
      → IsSafe s
      → IsSafe (record {
        database = (reserve store_id q s.database).1;
        dispatched = q.nonce ∷ s.dispatched;
      })
  unfolding perform
  granted-IsSafe q s granted h =
      let g = reserve-grant store_id q s.database granted in
      let free : any (has_nonce q.nonce) s.database.rows ≡ false =
        any-bound q.nonce q.idempotency_key q.scope s.database.rows
          (any-find-none (bound q.nonce q.scope q.idempotency_key) s.database.rows g.0) in
      let there : any (has_nonce q.nonce) (reserve store_id q s.database).1.rows ≡ true =
        rw (g.1, any-append) (rw (eq_refl q.nonce) (ground arith)) in
      let kept = perform-IsSafe (reserving q) s h in
      record {
        valid = kept.valid;
        recorded = (there, kept.recorded);
        once = (All-differ q.nonce s.database.rows s.dispatched free h.recorded, h.once);
      }

module _ (e : Executor) where
  outcome_unknown-IsSafe :
      (nonce : String) (s : Effects) → IsSafe s → IsSafe (outcome_unknown e nonce s).1
  unfolding perform
  outcome_unknown-IsSafe nonce s h =
      finish-IsSafe e.store_id nonce (finishing nonce unknown none review_required) _ s _ refl h

  receive-IsSafe :
      (nonce : String) (r : Result String) (s : Effects) → IsSafe s → IsSafe (receive e nonce r s).1
  unfolding perform
  receive-IsSafe nonce (err x) s h = outcome_unknown-IsSafe nonce s h
  receive-IsSafe nonce (ok t) s h = elim (Bool-cases (e.is_bounded t)) [
    | inr long ↦ rw long (outcome_unknown-IsSafe nonce s h)
    | inl short ↦ rw short (by_receipt (e.sanitize t))
  ]
    where
      by_receipt : (o : Option String) → IsSafe (store_receipt e nonce o s).1
      by_receipt none = outcome_unknown-IsSafe nonce s h
      by_receipt (some safe) =
          finish-IsSafe e.store_id nonce (finishing nonce succeeded (some safe) accepted_for_agent)
            _ s _ refl h

  after_reserve-IsSafe :
      (w : Outside) (q : Request) (s : Effects) (r : Result (Option Replay) × Database)
      → r ≡ reserve e.store_id q s.database
      → IsSafe s
      → IsSafe (after_reserve e w q.nonce s r).1
  unfolding perform
  after_reserve-IsSafe w q s (err x, db) p h =
      let left : db ≡ perform e.store_id (reserving q) s.database = cc p in
      rw left (perform-IsSafe e.store_id (reserving q) s h)
  after_reserve-IsSafe w q s (ok (some r), db) p h =
      let left : db ≡ perform e.store_id (reserving q) s.database = cc p in
      rw left (perform-IsSafe e.store_id (reserving q) s h)
  after_reserve-IsSafe w q s (ok none, db) p h = by_check w.second_check
    where
      left : db ≡ perform e.store_id (reserving q) s.database
      left = cc p

      by_check :
          (c : Result (Unit {0}))
          → IsSafe
              (dispatch e w q.nonce c
                (record s { database = run_calls e.store_id w.meanwhile db })).1
      by_check (err x) =
          finish-IsSafe e.store_id q.nonce (finishing q.nonce not_dispatched none review_required) _
            (record s { database = run_calls e.store_id w.meanwhile db }) _ refl
            (meanwhile-IsSafe e.store_id w.meanwhile (record s { database = db })
              (rw left (perform-IsSafe e.store_id (reserving q) s h)))
      by_check (ok x) =
          receive-IsSafe q.nonce w.answer
            (record {
              database = run_calls e.store_id w.meanwhile db;
              dispatched = q.nonce ∷ s.dispatched;
            })
            (meanwhile-IsSafe e.store_id w.meanwhile
              (record { database = db; dispatched = q.nonce ∷ s.dispatched })
              (rw left (granted-IsSafe e.store_id q s (cc p) h)))

  with_amount-IsSafe :
      (w : Outside) (principal : Actor) (action : ActionRequest) (grant : ExecutionGrant)
      (s : Effects) (amount : Result Decimal)
      → IsSafe s
      → IsSafe (with_amount e w principal action grant s amount).1
  with_amount-IsSafe w principal action grant s (err x) h = h
  with_amount-IsSafe w principal action grant s (ok n) h =
      elim (Bool-cases (not (n.text == grant.amount))) [
        | inl unequal ↦ rw unequal h
        | inr same ↦
            rw same
              (after_reserve-IsSafe w (reservation_of e principal action grant n.units) s _ refl h)
      ]

  execute-IsSafe :
      (w : Outside) (principal : Actor) (action : ActionRequest) (grant : ExecutionGrant)
      (s : Effects)
      → IsSafe s
      → IsSafe (execute e w principal action grant s).1
  unfolding execute
  execute-IsSafe w principal action grant s h =
      elim (Bool-cases (is_unauthorized e w.now principal action grant)) [
        | inl refused ↦ rw refused h
        | inr passed ↦ rw passed (
            after-holds IsSafe w.first_check s _ h (
              with_amount-IsSafe w principal action grant s (payment_amount e.parse_amount action)
                h))
      ]

  -- From a state in which the table is valid, every dispatched nonce stands in it and none was
  -- dispatched twice, whatever grants are executed, with whatever the validations and the dispatch
  -- answer, and whatever calls of other clients on the ledger come between, this stays so.
  pub run-IsSafe : (steps : List Step) (s : Effects) → IsSafe s → IsSafe (run e steps s)
  run-IsSafe [] s h = h
  run-IsSafe (executing w principal action grant ∷ steps) s h =
      run-IsSafe steps (execute e w principal action grant s).1
        (execute-IsSafe w principal action grant s h)
  run-IsSafe (other c ∷ steps) s h =
      run-IsSafe steps (record s { database = perform e.store_id c s.database })
        (perform-IsSafe e.store_id c s h)
