-- ===== src/Executor/Reconcile.antt =====
-- `MediatedExecutor.reconcile` of src/traceguard/executor.py. What the provider answers is given.
use trace_guard.Common.{
  String, Bool, true, false, ◌||◌, not, ◌≡◌, refl, Option, none, some, ◌==◌, if◌then◌else◌, Result,
  ok, err, authorization_error, value_error, Bool-cases, Option-cases, Result-cases, inl, inr,
  arith, ==→eq,
}
use trace_guard.Control.Models.{Actor, reviewer, agent}
use trace_guard.Ledger.Rows.{
  Row, Status, pending, succeeded, unknown, not_dispatched, other_status, accepted_for_agent,
  review_required, Disposition,
}
use trace_guard.Ledger.Store.{Database}
use trace_guard.Ledger.Settle.{Verdict, lookup, reconcile}
use trace_guard.Executor.{Executor}

pub record ProviderReceipt : Type 0 where
  pub action_digest : String
  pub reference : String
  pub status : Status
  pub result : Option String

abbrev pub is_stranger : Actor → Row → Bool
is_stranger operator r =
    not (operator.roles reviewer)
    || operator.roles agent
    || not (operator.tenant_ids r.scope.tenant)

abbrev disposition_for : Status → Disposition
disposition_for succeeded = accepted_for_agent
disposition_for _ = review_required

module _ (e : Executor) where
  abbrev sanitized : Option String → Result (Option String)
  sanitized none = err (value_error "the provider's result cannot be redacted")
  sanitized (some t) = ok (some t)

  -- The result of a receipt, redacted.
  unfoldable pub safe_result : Option String → Result (Option String)
  safe_result none = ok none
  safe_result (some t) =
      if not (e.is_bounded t)
      then err (value_error "provider receipt exceeds limit")
      else sanitized (e.sanitize t)

  abbrev pub verdict_of : Actor → String → Bool → ProviderReceipt → Option String → Verdict
  verdict_of operator reference fenced receipt result = record {
    status = receipt.status;
    result = result;
    actor = operator.subject;
    provider_reference = reference;
    pending_worker_fenced = fenced;
    disposition = disposition_for receipt.status;
  }

  abbrev settle_with :
      Actor
      → String
      → String
      → Bool
      → ProviderReceipt
      → Database
      → Result (Option String)
      → Result Row × Database
  settle_with operator nonce reference fenced receipt db (err x) = (err x, db)
  settle_with operator nonce reference fenced receipt db (ok result) =
      reconcile e.store_id nonce (verdict_of operator reference fenced receipt result) db

  abbrev with_receipt :
      Actor
      → String
      → String
      → Bool
      → Row
      → Database
      → Result ProviderReceipt
      → Result Row × Database
  with_receipt operator nonce reference fenced r db (err x) = (err x, db)
  with_receipt operator nonce reference fenced r db (ok receipt) =
      if not (receipt.action_digest == r.digest) || not (receipt.reference == reference)
      then (err (authorization_error "provider receipt does not bind the reserved action"), db)
      else settle_with operator nonce reference fenced receipt db (safe_result receipt.result)

  abbrev ask_provider :
      Option (Row → String → Result ProviderReceipt)
      → Actor
      → String
      → String
      → Bool
      → Row
      → Database
      → Result Row × Database
  ask_provider none operator nonce reference fenced r db =
      (err (authorization_error "authoritative provider reconciliation is not configured"), db)
  ask_provider (some provider) operator nonce reference fenced r db =
      with_receipt operator nonce reference fenced r db (provider r reference)

  abbrev reconcile_row :
      Option (Row → String → Result ProviderReceipt)
      → Actor
      → String
      → String
      → Bool
      → Database
      → Result Row
      → Result Row × Database
  reconcile_row provider operator nonce reference fenced db (err x) = (err x, db)
  reconcile_row provider operator nonce reference fenced db (ok r) =
      if is_stranger operator r
      then (err (authorization_error "reconciliation requires a separate tenant reviewer"), db)
      else ask_provider provider operator nonce reference fenced r db

  unfoldable pub reconcile_by_provider :
      Option (Row → String → Result ProviderReceipt)
      → Actor
      → String
      → String
      → Bool
      → Database
      → Result Row × Database
  reconcile_by_provider provider operator nonce reference fenced db =
      reconcile_row provider operator nonce reference fenced db (lookup e.store_id nonce db)

  -- A receipt's result and what the ledger stores for it.
  abbrev pub IsRedacted : Option String → Option String → Type 0
  IsRedacted none stored = stored ≡ none
  IsRedacted (some t) stored =
      (e.is_bounded t ≡ true) × (u : String) × (e.sanitize t ≡ some u) × (stored ≡ some u)

  -- Only a success is accepted for the agent.
  abbrev pub IsDecided : Status → Disposition → Type 0
  IsDecided succeeded d = d ≡ accepted_for_agent
  IsDecided _ d = d ≡ review_required

  -- What stands behind a reservation that was reconciled through the provider.
  pub record IsReconciled (provider : Option (Row → String → Result ProviderReceipt))
      (operator : Actor) (nonce reference : String) (fenced : Bool) (db : Database)
      (after : Result Row × Database) : Type 0 where
    pub reserved : Row
    pub found : lookup e.store_id nonce db ≡ ok reserved
    pub by_reviewer : operator.roles reviewer ≡ true
    pub by_no_agent : operator.roles agent ≡ false
    pub of_tenant : operator.tenant_ids reserved.scope.tenant ≡ true
    pub ask : Row → String → Result ProviderReceipt
    pub configured : provider ≡ some ask
    pub receipt : ProviderReceipt
    pub answered : ask reserved reference ≡ ok receipt
    pub same_action : receipt.action_digest ≡ reserved.digest
    pub same_reference : receipt.reference ≡ reference
    pub verdict : Verdict
    pub of_status : verdict.status ≡ receipt.status
    pub redacted : IsRedacted receipt.result verdict.result
    pub decided : IsDecided receipt.status verdict.disposition
    pub by_operator : verdict.actor ≡ operator.subject
    pub with_reference : verdict.provider_reference ≡ reference
    pub with_fence : verdict.pending_worker_fenced ≡ fenced
    pub settled : after ≡ reconcile e.store_id nonce verdict db

  safe_result-IsRedacted :
      (t stored : Option String) → safe_result t ≡ ok stored → IsRedacted t stored
  unfolding safe_result
  safe_result-IsRedacted none stored h = cc
  safe_result-IsRedacted (some t) stored h = elim (Bool-cases (e.is_bounded t)) [
    | inr f ↦ cc (rw f at h)
    | inl b ↦ elim (Option-cases (e.sanitize t)) [
      | inl n ↦ cc (rw (b, n) at h)
      | inr (u, s) ↦ (b, u, s, cc (rw (b, s) at h))
    ]
  ]

  disposition_for-IsDecided : (s : Status) → IsDecided s (disposition_for s)
  disposition_for-IsDecided pending = refl
  disposition_for-IsDecided succeeded = refl
  disposition_for-IsDecided unknown = refl
  disposition_for-IsDecided not_dispatched = refl
  disposition_for-IsDecided (other_status s) = refl

  asked-IsReconciled :
      (provider : Option (Row → String → Result ProviderReceipt)) (operator : Actor)
      (nonce reference : String) (fenced : Bool) (db : Database) (row r : Row)
      → lookup e.store_id nonce db ≡ ok r
      → is_stranger operator r ≡ false
      → (ask_provider provider operator nonce reference fenced r db).0 ≡ ok row
      → IsReconciled provider operator nonce reference fenced db
          (ask_provider provider operator nonce reference fenced r db)
  asked-IsReconciled none operator nonce reference fenced db row r l t k = cc
  asked-IsReconciled (some f) operator nonce reference fenced db row r l t k =
      elim (Result-cases (f r reference)) [
        | inl (x, a) ↦ cc (rw a at k)
        | inr (receipt, a) ↦
            elim (Bool-cases
              (not (receipt.action_digest == r.digest) || not (receipt.reference == reference))) [
                | inl b ↦ cc (rw (a, b) at k)
                | inr b ↦ elim (Result-cases (safe_result receipt.result)) [
                  | inl (x, c) ↦ cc (rw (a, b, c) at k)
                  | inr (result, c) ↦
                      rw (a, b, c)
                        (record {
                          reserved = r;
                          found = l;
                          by_reviewer = ground arith;
                          by_no_agent = ground arith;
                          of_tenant = ground arith;
                          ask = f;
                          configured = refl;
                          receipt = receipt;
                          answered = a;
                          same_action = ==→eq _ _ (ground arith);
                          same_reference = ==→eq _ _ (ground arith);
                          verdict = verdict_of operator reference fenced receipt result;
                          of_status = refl;
                          redacted = safe_result-IsRedacted receipt.result result c;
                          decided = disposition_for-IsDecided receipt.status;
                          by_operator = refl;
                          with_reference = refl;
                          with_fence = refl;
                          settled = refl;
                        })
                ]
              ]
      ]

  -- If a reconciliation returns, the operator is a reviewer of the reservation's tenant and no
  -- agent; the provider was asked about that reservation; its receipt is for the reserved action and
  -- the given reference; and the ledger settled the reservation by a verdict that has the receipt's
  -- status, the operator, the reference and the fence, with no result where the receipt has none and
  -- the redaction of a bounded one otherwise, accepted for the agent if and only if the provider
  -- reports success.
  pub reconcile_by_provider-IsReconciled :
      (provider : Option (Row → String → Result ProviderReceipt)) (operator : Actor)
      (nonce reference : String) (fenced : Bool) (db : Database) (row : Row)
      → (reconcile_by_provider provider operator nonce reference fenced db).0 ≡ ok row
      → IsReconciled provider operator nonce reference fenced db
          (reconcile_by_provider provider operator nonce reference fenced db)
  unfolding reconcile_by_provider
  reconcile_by_provider-IsReconciled provider operator nonce reference fenced db row h =
      by_row (lookup e.store_id nonce db) refl h
    where
      by_row :
          (o : Result Row)
          → lookup e.store_id nonce db ≡ o
          → (reconcile_row provider operator nonce reference fenced db o).0 ≡ ok row
          → IsReconciled provider operator nonce reference fenced db
              (reconcile_row provider operator nonce reference fenced db o)
      by_row (err x) l k = cc
      by_row (ok r) l k = elim (Bool-cases (is_stranger operator r)) [
        | inl t ↦ cc (rw t at k)
        | inr t ↦
            rw t
              (asked-IsReconciled provider operator nonce reference fenced db row r l t (rw t at k))
      ]
