-- ===== src/Ledger/Settle.antt =====
-- `finish`, `decide_result`, `lookup` and `reconcile` of src/traceguard/ledger.py. `finish` and
-- `decide_result` run in autocommit: what their UPDATE wrote stays, also when its count is wrong.
use trace_guard.Common.{
  String, Bool, true, false, ◌&&◌, ◌||◌, not, Option, none, some, [], ◌∷◌, ◌++◌, map, ◌==◌, eqb,
  if◌then◌else◌, is_some, find, count, Result, ok, err, value_error, execution_unknown, key_error,
}
use trace_guard.Ledger.Rows.{
  Status, succeeded, unknown, not_dispatched, Disposition, pending_review, accepted_for_agent,
  withheld, review_required, is_pending, is_succeeded, is_in_flight, is_accepted, is_pending_review,
  Row, Reconciliation,
}
use trace_guard.Ledger.Store.{Database, connect}

-- `UPDATE executions SET … WHERE …`
abbrev pub update_where : (Row → Bool) → (Row → Row) → Row → Row
update_where test change r = if test r then change r else r

abbrev pub settle : Status → Option String → Disposition → Row → Row
settle s result d r = record r { status = s; result = result; disposition = d }

-- The statuses that `finish` and `reconcile` take, and the dispositions of each operation.
abbrev pub can_finish : Status → Bool
can_finish succeeded = true
can_finish unknown = true
can_finish not_dispatched = true
can_finish _ = false

abbrev pub is_definitive : Status → Bool
is_definitive succeeded = true
is_definitive not_dispatched = true
is_definitive _ = false

abbrev pub is_disposition : Disposition → Bool
is_disposition pending_review = true
is_disposition accepted_for_agent = true
is_disposition withheld = true
is_disposition review_required = true
is_disposition _ = false

abbrev pub can_decide : Disposition → Bool
can_decide accepted_for_agent = true
can_decide withheld = true
can_decide review_required = true
can_decide _ = false

-- `disposition == "accepted_for_agent" and (status != "succeeded" or result is None)`
abbrev pub unfounded : Status → Option String → Disposition → Bool
unfounded s result d = is_accepted d && (not (is_succeeded s) || not (is_some result))

abbrev pub awaits_finish : String → Row → Bool
awaits_finish nonce r = r.nonce == nonce && is_pending r.status

unfoldable pub finish :
    String → String → Status → Option String → Disposition → Database → Result (Unit {0}) × Database
finish store_id nonce s result d db =
    if not (can_finish s)
    then (err (value_error "invalid execution status"), db)
    else if not (is_disposition d)
    then (err (value_error "invalid result disposition"), db)
    else if unfounded s result d
    then (err (value_error "acceptance requires a succeeded execution and stored result"), db)
    else elim (connect store_id db) [
      | err e ↦ (err e, db)
      | ok _ ↦ (
        if eqb (count (awaits_finish nonce) db.rows) 1
            then ok tt
            else err (execution_unknown "reservation changed or was lost before completion"),
        record db { rows = map (update_where (awaits_finish nonce) (settle s result d)) db.rows },
      )
    ]

abbrev pub awaits_review : String → String → Row → Bool
awaits_review nonce result_policy r =
    r.nonce == nonce
    && is_succeeded r.status
    && is_pending_review r.disposition
    && r.result_policy == result_policy
    && is_some r.result

abbrev pub dispose : Disposition → Row → Row
dispose d r = record r { disposition = d }

unfoldable pub decide_result :
    String → String → Disposition → String → Database → Result (Unit {0}) × Database
decide_result store_id nonce d result_policy db =
    if not (can_decide d)
    then (err (value_error "invalid result disposition"), db)
    else elim (connect store_id db) [
      | err e ↦ (err e, db)
      | ok _ ↦ (
        if eqb (count (awaits_review nonce result_policy) db.rows) 1
            then ok tt
            else err (execution_unknown "result review changed or requires authorized recovery"),
        record db {
          rows = map (update_where (awaits_review nonce result_policy) (dispose d)) db.rows;
        },
      )
    ]

abbrev pub has_nonce : String → Row → Bool
has_nonce nonce r = r.nonce == nonce

unfoldable pub lookup : String → String → Database → Result Row
lookup store_id nonce db = elim (connect store_id db) [
  | err e ↦ err e
  | ok _ ↦ elim (find (has_nonce nonce) db.rows) [
    | none ↦ err (key_error "execution reservation not found")
    | some r ↦ ok r
  ]
]

-- The arguments of `reconcile` beside the nonce.
pub record Verdict : Type 0 where
  pub status : Status
  pub result : Option String
  pub actor : String
  pub provider_reference : String
  pub pending_worker_fenced : Bool
  pub disposition : Disposition

abbrev pub awaits_verdict : String → Row → Bool
awaits_verdict nonce r = r.nonce == nonce && is_in_flight r.status

-- `row is not None and row[0] == "pending"`
abbrev pub found_pending : Option Row → Bool
found_pending none = false
found_pending (some r) = is_pending r.status

abbrev pub receipt : String → Verdict → Reconciliation
receipt nonce v = record {
  nonce = nonce;
  actor = v.actor;
  status = v.status;
  provider_reference = v.provider_reference;
}

-- The transaction of `reconcile`; a raise leaves the database as it was.
unfoldable pub record_verdict : String → Verdict → Database → Result (Unit {0}) × Database
record_verdict nonce v db =
    if found_pending (find (has_nonce nonce) db.rows) && not v.pending_worker_fenced
    then (err (value_error "fence the pending worker before reconciliation"), db)
    else if not (eqb (count (awaits_verdict nonce) db.rows) 1)
    then (err (value_error "only an uncertain reservation can be reconciled"), db)
    else (
      ok tt,
      record db {
        rows =
            map (update_where (awaits_verdict nonce) (settle v.status v.result v.disposition))
              db.rows;
        reconciliations = db.reconciliations ++ receipt nonce v ∷ [];
      },
    )

unfoldable pub reconcile : String → String → Verdict → Database → Result Row × Database
reconcile store_id nonce v db =
    if not (is_definitive v.status) || v.provider_reference == ""
    then (err (value_error "reconciliation requires a definitive verified provider receipt"), db)
    else if not (can_decide v.disposition) || unfounded v.status v.result v.disposition
    then (err (value_error "invalid reconciliation result disposition"), db)
    else elim (connect store_id db) [
      | err e ↦ (err e, db)
      | ok _ ↦
          let (r, db') = record_verdict nonce v db in
          elim r [ err e ↦ (err e, db') | ok _ ↦ (lookup store_id nonce db', db') ]
    ]
