-- ===== src/Ledger/Reserve.antt =====
-- `ExecutionLedger.reserve` of src/traceguard/ledger.py. A connection that is closed before
-- `commit` leaves the database as it was, so every raise returns the database unchanged. Where two
-- rows fit the first query, the row that was inserted first is taken.
use trace_guard.Common.{
  ◌+◌, String, Bool, true, false, ◌&&◌, ◌||◌, not, Option, none, some, List, [], ◌∷◌, ◌++◌, map,
  ◌==◌, ltb, if◌then◌else◌, is_some, find, any, Result, ok, err, authorization_error,
  execution_unknown, integrity_error,
}
use trace_guard.Ledger.Rows.{
  Status, succeeded, not_dispatched, Disposition, review_required, is_accepted, Row, Request,
  same_scope, bound, blocks, repeats, spent, reservation,
}
use trace_guard.Ledger.Store.{Database, connect}

-- The dict that `reserve` returns for a settled execution.
pub record Replay : Type 0 where
  pub nonce : String
  pub status : Status
  pub result : Option String
  pub disposition : Disposition
  pub replayed : Bool

-- An accepted result is good for the policy that it was accepted under, and only if it was stored.
abbrev pub stale_acceptance : Request → Row → Bool
stale_acceptance q r =
    is_accepted r.disposition
    && (not (r.result_policy == q.result_policy) || not (is_some r.result))

abbrev pub demote : String → Row → Row
demote nonce r = if r.nonce == nonce then record r { disposition = review_required } else r

abbrev pub released : Disposition → Option String → Option String
released d result = if is_accepted d then result else none

-- `existing["status"] == "succeeded"`
unfoldable pub replay : Request → Row → Database → Result (Option Replay) × Database
replay q r db =
    let stale = stale_acceptance q r in
    let disposition = (if stale then review_required else r.disposition) in
    (
      ok (
          some (record {
            nonce = r.nonce;
            status = succeeded;
            result = released disposition r.result;
            disposition = disposition;
            replayed = true;
          })),
      if stale then record db { rows = map (demote r.nonce) db.rows } else db,
    )

abbrev pub settled : Status → Request → Row → Database → Result (Option Replay) × Database
settled succeeded q r db = replay q r db
settled not_dispatched q r db =
    (err (authorization_error "previous grant was rejected before dispatch; use a new key"), db)
settled _ q r db =
    (err (execution_unknown "an execution is pending or unknown; do not blindly retry"), db)

-- `existing is not None`
unfoldable pub reserve_again : Request → Row → Database → Result (Option Replay) × Database
reserve_again q r db =
    if not (r.digest == q.digest) || not (same_scope r.scope q.scope)
    then (err (authorization_error "execution key is bound to a different effect"), db)
    else settled r.status q r db

-- `budget_limit is not None and spent + amount > Decimal(budget_limit)`
abbrev pub over_budget : Request → List Row → Bool
over_budget q rows = elim q.budget_limit [
  | none ↦ false
  | some limit ↦ ltb limit (spent q.scope rows + q.amount)
]

unfoldable pub reserve_new : Request → Database → Result (Option Replay) × Database
reserve_new q db =
    if any (blocks q.scope) db.rows
    then (
      err (execution_unknown "task has a pending or unknown effect; reconcile before retry"),
      db,
    )
    else if not q.repeatable && any (repeats q.scope q.effect_digest) db.rows
    then (err (authorization_error "identical effect already reserved under another key"), db)
    else if over_budget q db.rows
    then (err (authorization_error "task budget is already spent or reserved"), db)
    else if any (bound q.nonce q.scope q.idempotency_key) db.rows
    then (err (integrity_error "UNIQUE constraint failed"), db)
    else (ok none, record db { rows = db.rows ++ reservation q ∷ [] })

-- `if existing is not None`
abbrev pub reserve_after : Option Row → Request → Database → Result (Option Replay) × Database
reserve_after (some r) q db = reserve_again q r db
reserve_after none q db = reserve_new q db

-- `ok none` is the permission to dispatch.
unfoldable pub reserve : String → Request → Database → Result (Option Replay) × Database
reserve store_id q db = elim (connect store_id db) [
  | err e ↦ (err e, db)
  | ok _ ↦ reserve_after (find (bound q.nonce q.scope q.idempotency_key) db.rows) q db
]
