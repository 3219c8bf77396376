-- ===== src/Ledger/Rows.antt =====
-- The tables of the ledger's database (src/traceguard/ledger.py, `provision`), and the tests that
-- its queries make of a row. Texts that a caller passes for a status or a disposition, and that
-- the code refuses, are the constructors `other_status` and `other_disposition`. An amount is a
-- number of the smallest unit of the currency.
use trace_guard.Common.{
  ℕ, ◌+◌, String, Bool, true, false, ◌&&◌, ◌||◌, not, Option, none, List, [], ◌∷◌, ◌==◌,
  if◌then◌else◌,
}

pub data Status : Type 0 where
  pending succeeded unknown not_dispatched : Status
  other_status : String → Status

pub data Disposition : Type 0 where
  pending_review accepted_for_agent withheld review_required : Disposition
  other_disposition : String → Disposition

-- (tenant, principal, credential, task)
pub record Scope : Type 0 where
  pub tenant : String
  pub principal : String
  pub credential : String
  pub task : String

-- A row of the table `executions`.
pub record Row : Type 0 where
  pub nonce : String
  pub scope : Scope
  pub idempotency_key : String
  pub digest : String
  pub effect_digest : String
  pub amount : ℕ
  pub status : Status
  pub result : Option String
  pub disposition : Disposition
  pub result_policy : String

-- A row of the table `reconciliations`.
pub record Reconciliation : Type 0 where
  pub nonce : String
  pub actor : String
  pub status : Status
  pub provider_reference : String

-- The arguments of `reserve`.
pub record Request : Type 0 where
  pub scope : Scope
  pub nonce : String
  pub idempotency_key : String
  pub digest : String
  pub effect_digest : String
  pub amount : ℕ
  pub budget_limit : Option ℕ
  pub repeatable : Bool
  pub result_policy : String

abbrev pub is_pending : Status → Bool
is_pending pending = true
is_pending _ = false

abbrev pub is_succeeded : Status → Bool
is_succeeded succeeded = true
is_succeeded _ = false

abbrev pub is_not_dispatched : Status → Bool
is_not_dispatched not_dispatched = true
is_not_dispatched _ = false

-- `status IN ('pending','unknown')`
abbrev pub is_in_flight : Status → Bool
is_in_flight pending = true
is_in_flight unknown = true
is_in_flight _ = false

abbrev pub is_accepted : Disposition → Bool
is_accepted accepted_for_agent = true
is_accepted _ = false

abbrev pub is_pending_review : Disposition → Bool
is_pending_review pending_review = true
is_pending_review _ = false

abbrev pub is_withheld : Disposition → Bool
is_withheld withheld = true
is_withheld _ = false

unfoldable pub same_scope : Scope → Scope → Bool
same_scope a b =
    a.tenant == b.tenant
    && a.principal == b.principal
    && a.credential == b.credential
    && a.task == b.task

-- `tenant=? AND task=?`
unfoldable pub same_task : Scope → Scope → Bool
same_task a b = a.tenant == b.tenant && a.task == b.task

-- The first query of `reserve`: `nonce=? OR (tenant=? AND … AND idempotency_key=?)`.
unfoldable pub bound : String → Scope → String → Row → Bool
bound nonce scope key r = r.nonce == nonce || (same_scope r.scope scope && r.idempotency_key == key)

-- The second query: an effect of the task that is not known to be over and released.
unfoldable pub blocks : Scope → Row → Bool
blocks scope r =
    same_task r.scope scope
    && (is_in_flight r.status || (is_succeeded r.status && not (is_accepted r.disposition)))

-- The third query: the same effect in the task under another key.
unfoldable pub repeats : Scope → String → Row → Bool
repeats scope effect_digest r =
    same_task r.scope scope && r.effect_digest == effect_digest && not (is_not_dispatched r.status)

-- What a row counts against the budget of a task: its amount, unless it was never dispatched.
unfoldable pub charge : Scope → Row → ℕ
charge scope r = if same_task r.scope scope && not (is_not_dispatched r.status) then r.amount else 0

-- The sum of the fourth query.
abbrev pub spent : Scope → List Row → ℕ
spent scope [] = 0
spent scope (r ∷ rows) = charge scope r + spent scope rows

-- The row that `reserve` inserts.
abbrev pub reservation : Request → Row
reservation q = record {
  nonce = q.nonce;
  scope = q.scope;
  idempotency_key = q.idempotency_key;
  digest = q.digest;
  effect_digest = q.effect_digest;
  amount = q.amount;
  status = pending;
  result = none;
  disposition = pending_review;
  result_policy = q.result_policy;
}
