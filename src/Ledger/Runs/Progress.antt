-- ===== src/Ledger/Runs/Progress.antt =====
-- From a reservation to a reply in src/traceguard/ledger.py: what follows a grant when the executor
-- finishes, and when an operator settles an unknown outcome.
use trace_guard.Common.{
  String, ◌≡◌, refl, Bool, true, false, List, [], ◌∷◌, ◌++◌, map, any, find, count, arith, Option,
  none, some, ok, eq_refl, ◌==◌, any-find-none,
}
use trace_guard.Ledger.Rows.{
  Status, succeeded, unknown, Disposition, accepted_for_agent, review_required, Row, Request, Scope,
  bound, same_scope, reservation,
}
use trace_guard.Ledger.Store.{Database, connect}
use trace_guard.Ledger.Reserve.{Replay, replay, reserve_again, reserve}
use trace_guard.Ledger.Settle.{
  can_finish, is_disposition, is_definitive, can_decide, unfounded, update_where, settle,
  awaits_finish, awaits_verdict, has_nonce, finish, Verdict, record_verdict, receipt, lookup,
  reconcile,
}
use trace_guard.Ledger.Runs.Once.{reserve-grant}

-- The tests of the UPDATEs pass over rows that are not bound to the nonce.
abbrev NeedsNonce : String → (Row → Bool) → Type 0
NeedsNonce nonce test = (r : Row) → (r.nonce == nonce) ≡ false → test r ≡ false

awaits_finish-NeedsNonce : (nonce : String) → NeedsNonce nonce (awaits_finish nonce)
awaits_finish-NeedsNonce nonce r h = rw h

awaits_verdict-NeedsNonce : (nonce : String) → NeedsNonce nonce (awaits_verdict nonce)
awaits_verdict-NeedsNonce nonce r h = rw h

-- A table whose last row is the only one with its nonce and key.
module _ (nonce : String) (scope : Scope) (key : String) where
  nonce_differs : (r : Row) → bound nonce scope key r ≡ false → (r.nonce == nonce) ≡ false
  unfolding bound
  nonce_differs r h = ground arith

  map-update_last :
      (test : Row → Bool) (change : Row → Row) (rows : List Row) (x : Row)
      → NeedsNonce nonce test
      → any (bound nonce scope key) rows ≡ false
      → test x ≡ true
      → map (update_where test change) (rows ++ x ∷ []) ≡ rows ++ change x ∷ []
  map-update_last test change [] x n free t = rw t
  map-update_last test change (r ∷ rows) x n free t =
      ground (arith, n r, nonce_differs r, map-update_last test change rows x n (ground arith) t)

  count_last :
      (test : Row → Bool) (rows : List Row) (x : Row)
      → NeedsNonce nonce test
      → any (bound nonce scope key) rows ≡ false
      → test x ≡ true
      → count test (rows ++ x ∷ []) ≡ 1
  count_last test [] x n free t = rw t
  count_last test (r ∷ rows) x n free t =
      ground (arith, n r, nonce_differs r, count_last test rows x n (ground arith) t)

  find_last_bound :
      (rows : List Row) (x : Row)
      → any (bound nonce scope key) rows ≡ false
      → bound nonce scope key x ≡ true
      → find (bound nonce scope key) (rows ++ x ∷ []) ≡ some x
  find_last_bound [] x free b = rw b
  find_last_bound (r ∷ rows) x free b = ground (arith, find_last_bound rows x (ground arith) b)

  find_last_nonce :
      (rows : List Row) (x : Row)
      → any (bound nonce scope key) rows ≡ false
      → (x.nonce == nonce) ≡ true
      → find (has_nonce nonce) (rows ++ x ∷ []) ≡ some x
  find_last_nonce [] x free b = rw b
  find_last_nonce (r ∷ rows) x free b =
      ground (arith, nonce_differs r, find_last_nonce rows x (ground arith) b)

same_scope_refl : (s : Scope) → same_scope s s ≡ true
unfolding same_scope
same_scope_refl s = rw (eq_refl s.tenant, eq_refl s.principal, eq_refl s.credential, eq_refl s.task)

-- The row of a request, in any state of its life.
abbrev pub in_state : Request → Status → Option String → Disposition → Row
in_state q s result d = settle s result d (reservation q)

bound-in_state :
    (q : Request) (s : Status) (result : Option String) (d : Disposition)
    → bound q.nonce q.scope q.idempotency_key (in_state q s result d) ≡ true
unfolding bound
bound-in_state q s result d = rw (eq_refl q.nonce)

-- The reply that hands over the result `t`.
abbrev pub reply : Request → String → Replay
reply q t = record {
  nonce = q.nonce;
  status = succeeded;
  result = some t;
  disposition = accepted_for_agent;
  replayed = true;
}

-- What the operator reports: the effect succeeded with the result `t`, which is accepted.
abbrev pub verdict_of : String → String → String → Bool → Verdict
verdict_of t actor reference fenced = record {
  status = succeeded;
  result = some t;
  actor = actor;
  provider_reference = reference;
  pending_worker_fenced = fenced;
  disposition = accepted_for_agent;
}

reserve_again-accepted :
    (q : Request) (t : String) (db : Database)
    → reserve_again q (in_state q succeeded (some t) accepted_for_agent) db
      ≡ (ok (some (reply q t)), db)
unfolding reserve_again replay
reserve_again-accepted q t db =
    rw (eq_refl q.digest, same_scope_refl q.scope, eq_refl q.result_policy)

module _ (store_id : String) (q : Request) (db : Database) (connected : connect store_id db ≡ ok tt)
    (free : any (bound q.nonce q.scope q.idempotency_key) db.rows ≡ false) where
  with_row : Row → Database
  with_row x = record db { rows = db.rows ++ x ∷ [] }

  finish_last :
      (s : Status) (result : Option String) (d : Disposition)
      → can_finish s ≡ true
      → is_disposition d ≡ true
      → unfounded s result d ≡ false
      → finish store_id q.nonce s result d (with_row (reservation q))
        ≡ (ok tt, with_row (in_state q s result d))
  unfolding finish with_row connect
  finish_last s result d a b c =
      let test = awaits_finish q.nonce in
      let mine : test (reservation q) ≡ true = rw (eq_refl q.nonce) in
      rw (
        a,
        b,
        c,
        connected,
        count_last q.nonce q.scope q.idempotency_key test db.rows (reservation q)
            (awaits_finish-NeedsNonce q.nonce) free mine,
        map-update_last q.nonce q.scope q.idempotency_key test (settle s result d) db.rows
            (reservation q) (awaits_finish-NeedsNonce q.nonce) free mine,
      )

  -- An accepted result is handed over, and nothing is written.
  replay_last :
      (t : String) (later : Database)
      → connect store_id later ≡ ok tt
      → later.rows ≡ db.rows ++ in_state q succeeded (some t) accepted_for_agent ∷ []
      → reserve store_id q later ≡ (ok (some (reply q t)), later)
  unfolding reserve
  replay_last t later c e =
      let row = in_state q succeeded (some t) accepted_for_agent in
      let test = bound q.nonce q.scope q.idempotency_key in
      let found : find test later.rows ≡ some row = rw e (
        find_last_bound q.nonce q.scope q.idempotency_key db.rows row free
          (bound-in_state q succeeded (some t) accepted_for_agent)) in
      rw (c, reserve, found) (reserve_again-accepted q t later)

  with_verdict : Verdict → Database
  unfolding with_row
  with_verdict v = record (with_row (in_state q v.status v.result v.disposition)) {
    reconciliations = db.reconciliations ++ receipt q.nonce v ∷ [];
  }

  record_verdict_last :
      (v : Verdict)
      → record_verdict q.nonce v (with_row (in_state q unknown none review_required))
        ≡ (ok tt, with_verdict v)
  unfolding record_verdict with_verdict
  record_verdict_last v =
      let test = awaits_verdict q.nonce in
      let row = in_state q unknown none review_required in
      let mine : test row ≡ true = rw (eq_refl q.nonce) in
      rw (
        find_last_nonce q.nonce q.scope q.idempotency_key db.rows row free (eq_refl q.nonce),
        count_last q.nonce q.scope q.idempotency_key test db.rows row
            (awaits_verdict-NeedsNonce q.nonce) free mine,
        map-update_last q.nonce q.scope q.idempotency_key test
            (settle v.status v.result v.disposition) db.rows row (awaits_verdict-NeedsNonce q.nonce)
            free mine,
      )

  connect-with_verdict : (v : Verdict) → connect store_id (with_verdict v) ≡ ok tt
  unfolding with_verdict connect
  connect-with_verdict v = connected

  find-with_verdict :
      (v : Verdict)
      → find (has_nonce q.nonce) (with_verdict v).rows
        ≡ some (in_state q v.status v.result v.disposition)
  unfolding with_verdict
  find-with_verdict v =
      find_last_nonce q.nonce q.scope q.idempotency_key db.rows
        (in_state q v.status v.result v.disposition) free (eq_refl q.nonce)

  lookup_last :
      (v : Verdict)
      → lookup store_id q.nonce (with_verdict v) ≡ ok (in_state q v.status v.result v.disposition)
  unfolding lookup
  lookup_last v = rw (connect-with_verdict v, lookup, find-with_verdict v)

  connect-with_row : (x : Row) → connect store_id (with_row x) ≡ ok tt
  unfolding with_row connect
  connect-with_row x = connected

  reconcile_last :
      (v : Verdict)
      → is_definitive v.status ≡ true
      → (v.provider_reference == "") ≡ false
      → can_decide v.disposition ≡ true
      → unfounded v.status v.result v.disposition ≡ false
      → reconcile store_id q.nonce v (with_row (in_state q unknown none review_required))
        ≡ (ok (in_state q v.status v.result v.disposition), with_verdict v)
  unfolding reconcile
  reconcile_last v a b c d = rw (
    a,
    b,
    c,
    d,
    connect-with_row (in_state q unknown none review_required),
    record_verdict_last v,
    record_verdict_last v,
    lookup_last v,
  )

module _ (store_id : String) (q : Request) (db : Database) (connected : connect store_id db ≡ ok tt)
    (granted : (reserve store_id q db).0 ≡ ok none) where
  free_nonce : any (bound q.nonce q.scope q.idempotency_key) db.rows ≡ false
  free_nonce =
      any-find-none (bound q.nonce q.scope q.idempotency_key) db.rows
        (reserve-grant store_id q db granted).0

  -- After a grant on a database that opens, `finish` with an accepted result succeeds, and the same
  -- request then gets that result back, without a change of the database.
  pub grant_finish_replay :
      (t : String)
      → let done =
          finish store_id q.nonce succeeded (some t) accepted_for_agent (reserve store_id q db).1 in
        (done.0 ≡ ok tt) × (reserve store_id q done.1 ≡ (ok (some (reply q t)), done.1))
  unfolding with_row connect
  grant_finish_replay t =
      let e = (reserve-grant store_id q db granted).1 in
      let f =
        finish_last store_id q db connected free_nonce succeeded (some t) accepted_for_agent refl
          refl refl in
      rw (e, f) (refl, replay_last store_id q db connected free_nonce t _ connected refl)

  -- After a grant on a database that opens, when the executor reports an unknown outcome, an
  -- operator's verdict with a provider reference that the effect succeeded settles the row, and the
  -- request then gets the provider's result, without a further change of the database.
  pub grant_unknown_reconcile_replay :
      (t actor reference : String) (fenced : Bool)
      → (reference == "") ≡ false
      → let v = verdict_of t actor reference fenced in
        let lost = finish store_id q.nonce unknown none review_required (reserve store_id q db).1 in
        let settled = reconcile store_id q.nonce v lost.1 in
        (lost.0 ≡ ok tt)
        × (settled.0 ≡ ok (in_state q succeeded (some t) accepted_for_agent))
        × (reserve store_id q settled.1 ≡ (ok (some (reply q t)), settled.1))
  unfolding with_row with_verdict connect
  grant_unknown_reconcile_replay t actor reference fenced named =
      let v = verdict_of t actor reference fenced in
      let e = (reserve-grant store_id q db granted).1 in
      let f =
        finish_last store_id q db connected free_nonce unknown none review_required refl refl
          refl in
      let r = reconcile_last store_id q db connected free_nonce v refl named refl refl in
      rw (e, f, r) (refl, refl, replay_last store_id q db connected free_nonce t _ connected refl)
