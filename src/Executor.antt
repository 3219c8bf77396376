-- ===== src/Executor.antt =====
-- `MediatedExecutor.execute` of src/traceguard/executor.py. The online validation and the dispatch are outside: a call
-- gets what they answer as an `Outside`, and the state records the nonces that were dispatched.
pub mod Once
pub mod Reconcile
mod Tests
use Prim.Native.String.{◌++◌}
use trace_guard.Common.{
  ℕ, ◌+◌, String, Bool, true, false, ◌&&◌, ◌||◌, not, Option, none, some, List, [], ◌∷◌, ◌==◌, leb,
  if◌then◌else◌, same_option, Result, ok, err, authorization_error, value_error, execution_unknown,
  after,
}
use trace_guard.Json.{Json, bool, Fields, get_field}
use trace_guard.Control.Models.{agent, Actor, ActionRequest, ExecutionGrant}
use trace_guard.Control.Platform.{Platform, action_digest}
use trace_guard.Control.Actions.Evaluate.{out_of_scope}
use trace_guard.Execution.Amount.{Decimal, payment_amount}
use trace_guard.Ledger.Rows.{
  Scope, Request, succeeded, unknown, not_dispatched, accepted_for_agent, review_required,
}
use trace_guard.Ledger.Store.{Database}
use trace_guard.Ledger.Reserve.{Replay, reserve}
use trace_guard.Ledger.Settle.{finish}
use trace_guard.Ledger.Perform.{Call, perform, run as run_calls}

pub record Executor : Type 0 where
  pub platform : Platform
  pub identity : Actor
  pub public_key : String
  pub key_id : String
  pub adapter_digest : String
  pub store_id : String
  -- the check of a signature over a grant whose signature is left out (here: empty)
  pub verify : String → ExecutionGrant → String → Bool
  -- `Decimal(str(value))`, `none` where it raises, is infinite or is negative
  pub parse_amount : Json → Option Decimal
  -- `Decimal` of a grant's limit, in the smallest unit
  pub parse_limit : String → ℕ
  -- SHA-256 of the canonical JSON of the tool, its arguments and its target
  pub effect_digest : String → Fields → Option String → String
  -- `len(result.encode()) <= 1_048_576`
  pub is_bounded : String → Bool
  -- the redacted receipt, `none` where it raises
  pub sanitize : String → Option String

-- What a call meets outside: the clock, the two online validations, the dispatch, and what other
-- clients do to the ledger between the reservation and the finish.
pub record Outside : Type 0 where
  pub now : ℕ
  pub first_check : Result (Unit {0})
  pub second_check : Result (Unit {0})
  pub answer : Result String
  pub meanwhile : List Call

pub record Effects : Type 0 where
  pub database : Database
  pub dispatched : List String

pub data Outcome : Type 0 where
  replayed : Replay → Outcome
  completed : String → String → Outcome

abbrev limit_of : Executor → Option String → Option ℕ
limit_of e none = none
limit_of e (some t) = some (e.parse_limit t)

-- The test that refuses a call before anything else is done.
unfoldable pub is_unauthorized : Executor → ℕ → Actor → ActionRequest → ExecutionGrant → Bool
is_unauthorized e now principal action grant =
    not (principal.roles agent)
    || not (principal.tenant_ids action.tenant_id)
    || not (grant.tenant_id == action.tenant_id)
    || not (grant.task_id == action.task_id)
    || not (principal.subject == grant.agent_subject)
    || not (same_option principal.service_key_id (some grant.service_key_id))
    || out_of_scope principal action
    || not (grant.audience == e.identity.subject)
    || not (grant.key_id == e.key_id)
    || not (grant.adapter_digest == e.adapter_digest)
    || not (grant.execution_domain == e.store_id)
    || not grant.expires_zone
    || leb grant.expires_at now
    || not (grant.action_digest == action_digest e.platform action)
    || not (e.verify e.public_key (record grant { signature = "" }) grant.signature)

-- The arguments of `reserve`. The credential is the grant's, which is the principal's.
abbrev pub reservation_of : Executor → Actor → ActionRequest → ExecutionGrant → ℕ → Request
reservation_of e principal action grant amount = record {
  scope = record {
    tenant = action.tenant_id;
    principal = principal.subject;
    credential = grant.service_key_id;
    task = action.task_id;
  };
  nonce = grant.nonce;
  idempotency_key = action.idempotency_key;
  digest = grant.action_digest;
  effect_digest = e.effect_digest action.operation action.arguments action.target;
  amount = amount;
  budget_limit = limit_of e grant.budget_limit;
  repeatable = grant.repeatable;
  result_policy = "sanitized-receipt-v1:" ++ e.adapter_digest;
}

-- What follows a `finish`: its error, or the given result.
abbrev pub then_reply :
    Effects → Result Outcome → Result (Unit {0}) × Database → Result Outcome × Effects
then_reply s reply (err x, db) = (err x, record s { database = db })
then_reply s reply (ok _, db) = (reply, record s { database = db })

abbrev pub outcome_unknown : Executor → String → Effects → Result Outcome × Effects
outcome_unknown e nonce s =
    then_reply s
      (err
        (execution_unknown "dispatch outcome is unknown; reconcile with the provider before retry"))
      (finish e.store_id nonce unknown none review_required s.database)

abbrev pub store_receipt : Executor → String → Option String → Effects → Result Outcome × Effects
store_receipt e nonce none s = outcome_unknown e nonce s
store_receipt e nonce (some safe) s =
    then_reply s (ok (completed nonce safe))
      (finish e.store_id nonce succeeded (some safe) accepted_for_agent s.database)

-- After the dispatch.
abbrev pub receive : Executor → String → Result String → Effects → Result Outcome × Effects
receive e nonce (err x) s = outcome_unknown e nonce s
receive e nonce (ok t) s =
    if not (e.is_bounded t)
    then outcome_unknown e nonce s
    else store_receipt e nonce (e.sanitize t) s

-- After the reservation was granted.
abbrev pub dispatch :
    Executor → Outside → String → Result (Unit {0}) → Effects → Result Outcome × Effects
dispatch e w nonce (err x) s =
    then_reply s (err x) (finish e.store_id nonce not_dispatched none review_required s.database)
dispatch e w nonce (ok _) s =
    receive e nonce w.answer (record s { dispatched = nonce ∷ s.dispatched })

abbrev pub after_reserve :
    Executor
    → Outside
    → String
    → Effects
    → Result (Option Replay) × Database
    → Result Outcome × Effects
after_reserve e w nonce s (err x, db) = (err x, record s { database = db })
after_reserve e w nonce s (ok (some r), db) = (ok (replayed r), record s { database = db })
after_reserve e w nonce s (ok none, db) =
    dispatch e w nonce w.second_check (record s { database = run_calls e.store_id w.meanwhile db })

abbrev pub with_amount :
    Executor
    → Outside
    → Actor
    → ActionRequest
    → ExecutionGrant
    → Effects
    → Result Decimal
    → Result Outcome × Effects
with_amount e w principal action grant s (err x) = (err x, s)
with_amount e w principal action grant s (ok amount) =
    if not (amount.text == grant.amount)
    then (err (authorization_error "grant amount mismatches the requested effect"), s)
    else after_reserve e w grant.nonce s
        (reserve e.store_id (reservation_of e principal action grant amount.units) s.database)

unfoldable pub execute :
    Executor → Outside → Actor → ActionRequest → ExecutionGrant → Effects → Result Outcome × Effects
execute e w principal action grant s =
    if is_unauthorized e w.now principal action grant
    then (err (authorization_error "execution grant does not authorize this caller and action"), s)
    else after w.first_check s
        (with_amount e w principal action grant s (payment_amount e.parse_amount action))

-- What happens to the ledger: executions, and calls of other clients, in the order in which SQLite
-- serializes them.
pub data Step : Type 0 where
  executing : Outside → Actor → ActionRequest → ExecutionGrant → Step
  other : Call → Step

abbrev pub run : Executor → List Step → Effects → Effects
run e [] s = s
run e (executing w principal action grant ∷ steps) s =
    run e steps (execute e w principal action grant s).1
run e (other c ∷ steps) s = run e steps (record s { database = perform e.store_id c s.database })
