-- ===== src/Ledger/Perform.antt =====
-- The operations of src/traceguard/ledger.py that change the database, as the clients' calls.
use trace_guard.Common.{String, ◌≡◌, Option, List, [], ◌∷◌}
use trace_guard.Ledger.Rows.{Status, Disposition, Request}
use trace_guard.Ledger.Store.{Database}
use trace_guard.Ledger.Reserve.{reserve}
use trace_guard.Ledger.Settle.{Verdict, finish, decide_result, reconcile}

pub data Call : Type 0 where
  reserving : Request → Call
  finishing : String → Status → Option String → Disposition → Call
  deciding : String → Disposition → String → Call
  reconciling : String → Verdict → Call

-- The database that a call leaves, whether it returns or raises.
unfoldable pub perform : String → Call → Database → Database
perform store_id (reserving q) db = (reserve store_id q db).1
perform store_id (finishing nonce s result d) db = (finish store_id nonce s result d db).1
perform store_id (deciding nonce d policy) db = (decide_result store_id nonce d policy db).1
perform store_id (reconciling nonce v) db = (reconcile store_id nonce v db).1

-- Calls of any clients, in the order in which SQLite serializes them.
abbrev pub run : String → List Call → Database → Database
run store_id [] db = db
run store_id (c ∷ calls) db = run store_id calls (perform store_id c db)

-- The request that a call makes, if it makes one.
abbrev pub Requests : Call → Request → Type 0
Requests (reserving q) q' = q' ≡ q
Requests (finishing _ _ _ _) q' = ⊥
Requests (deciding _ _ _) q' = ⊥
Requests (reconciling _ _) q' = ⊥
