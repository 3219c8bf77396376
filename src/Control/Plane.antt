-- ===== src/Control/Plane.antt =====
-- The state of `ControlPlane` in src/traceguard/control/service.py, its authorization check and its
-- audit log. One reading of the clock serves a whole call. `issued` has the grants whose JSON texts
-- the source stores.
use trace_guard.Common.{
  ℕ, ◌+◌, String, Bool, true, false, ◌&&◌, ◌||◌, not, Option, none, some, List, [], ◌∷◌, ◌++◌, ◌==◌,
  eqb, if◌then◌else◌, length, get_last?, Table, put, Result, ok, err, authorization_error,
  same_option,
}
use trace_guard.Json.{Fields, obj}
use trace_guard.Json.Redact.{redact_value}
use trace_guard.Control.Models.{
  Role, admin, approver, reviewer, auditor, agent, executor, same_role, Actor, PolicyVersion,
  AuditEvent, Review, DecisionResponse, ExecutionGrant,
}
use trace_guard.Control.Platform.{Platform}
use trace_guard.Authority.Kernel.{CompiledAuthority}

-- The key `(tenant, subject, service key, idempotency key)` of `_idempotent`.
pub record ReceiptKey : Type 0 where
  pub tenant : String
  pub subject : String
  pub credential : String
  pub key : String

pub record DecisionReceipt : Type 0 where
  pub digest : String
  pub epoch : ℕ
  pub expires_at : ℕ
  pub result : DecisionResponse

-- `RegisteredTask` of src/traceguard/control/execution.py
pub record RegisteredTask : Type 0 where
  pub principal : String
  pub credential : String
  pub compiled : CompiledAuthority
  pub adapter_digest : String
  pub execution_domain : String

pub record Plane : Type 0 where
  pub policies : Table (List PolicyVersion)
  pub audits : Table (List AuditEvent)
  pub audit_heads : Table (Option (ℕ × String))
  pub reviews : Table (Option Review)
  pub receipts : ReceiptKey → Option DecisionReceipt
  pub epochs : Table (Option ℕ)
  pub tasks : String → String → Option RegisteredTask
  pub issued : Table (Option ExecutionGrant)
  pub revoked : String → String → Bool
  pub suspended : String → Bool

-- `ControlPlane.__init__`
abbrev pub empty_plane : Plane
empty_plane = record {
  policies = λ _. [];
  audits = λ _. [];
  audit_heads = λ _. none;
  reviews = λ _. none;
  receipts = λ _. none;
  epochs = λ _. none;
  tasks = λ _ _. none;
  issued = λ _. none;
  revoked = λ _ _. false;
  suspended = λ _. false;
}

abbrev pub same_key : ReceiptKey → ReceiptKey → Bool
same_key a b =
    a.tenant == b.tenant && a.subject == b.subject && a.credential == b.credential && a.key == b.key

-- `self._epochs.get(tenant, 0)`
abbrev pub or_zero : Option ℕ → ℕ
or_zero none = 0
or_zero (some n) = n

abbrev pub epoch_of : Plane → String → ℕ
epoch_of s tenant = or_zero (s.epochs tenant)

-- `self._epochs[tenant] = self._epochs.get(tenant, 0) + 1`
abbrev pub bump_epoch : String → Plane → Plane
bump_epoch tenant s = record s { epochs = put s.epochs tenant (some (epoch_of s tenant + 1)) }

abbrev missing_role : Role → String
missing_role admin = "missing required role: admin"
missing_role approver = "missing required role: approver"
missing_role reviewer = "missing required role: reviewer"
missing_role auditor = "missing required role: auditor"
missing_role agent = "missing required role: agent"
missing_role executor = "missing required role: executor"

abbrev pub is_revoked : Plane → String → Option String → Bool
is_revoked s tenant none = false
is_revoked s tenant (some key) = not (key == "") && s.revoked tenant key

-- `_require`
unfoldable pub require : Plane → Actor → Role → String → Result (Unit {0})
require s actor role tenant =
    if not (actor.tenant_ids tenant)
    then err (authorization_error "principal is not authorized for this tenant")
    else if not (actor.roles role)
    then err (authorization_error (missing_role role))
    else if (same_role role agent || same_role role executor) && s.suspended tenant
    then err (authorization_error "tenant execution is suspended")
    else if is_revoked s tenant actor.service_key_id
    then err (authorization_error "service credential is revoked")
    else ok tt

abbrev pub hash_of_last : List AuditEvent → Option String
hash_of_last events = elim (get_last? events) [ none ↦ none | some e ↦ some e.event_hash ]

-- `model_dump(exclude={"event_hash"})`
abbrev pub clear_hash : AuditEvent → AuditEvent
clear_hash e = record e { event_hash = "" }

-- What one entry of the log says: who did what.
pub record Entry : Type 0 where
  pub audit_id : String
  pub event_type : String
  pub actor : String
  pub payload : Fields

abbrev pub same_head : Option (ℕ × String) → ℕ → Option String → Bool
same_head none count hash = false
same_head (some (n, h)) count hash = eqb n count && same_option (some h) hash

abbrev pub is_head : Option (ℕ × String) → List AuditEvent → Bool
is_head none [] = true
is_head (some _) [] = false
is_head head (e ∷ events) = same_head head (length (e ∷ events)) (hash_of_last (e ∷ events))

module _ (p : Platform) where
  unfoldable pub unhashed : ℕ → String → Entry → List AuditEvent → AuditEvent
  unhashed now tenant entry events = record {
    audit_id = entry.audit_id;
    tenant_id = tenant;
    event_type = entry.event_type;
    actor = entry.actor;
    payload = redact_value p.redact_text p.is_sensitive (obj entry.payload);
    previous_hash = hash_of_last events;
    event_hash = "";
    created_at = now;
    sequence = length events + 1;
  }

  -- The event that `_append_audit` makes.
  unfoldable pub next_event : ℕ → String → Entry → List AuditEvent → AuditEvent
  next_event now tenant entry events =
      let e = unhashed now tenant entry events in record e { event_hash = p.hash_event e }

  -- `_append_audit`
  unfoldable pub append_audit : ℕ → String → Entry → Plane → Plane
  append_audit now tenant entry s =
      let event = next_event now tenant entry (s.audits tenant) in
      record s {
        audits = put s.audits tenant (s.audits tenant ++ event ∷ []);
        audit_heads =
            put s.audit_heads tenant (some (length (s.audits tenant) + 1, event.event_hash));
      }

  -- The loop of `verify_audit_chain`, from the index and the hash of the event before.
  unfoldable pub verify_from : ℕ → Option String → List AuditEvent → Bool
  verify_from index previous [] = true
  verify_from index previous (e ∷ events) =
      if not (same_option e.previous_hash previous) || not (eqb e.sequence index)
      then false
      else if not (e.event_hash == p.hash_event (clear_hash e))
      then false
      else verify_from (index + 1) (some e.event_hash) events

  unfoldable pub verify_audit_chain : Plane → String → Bool
  verify_audit_chain s tenant =
      verify_from 1 none (s.audits tenant) && is_head (s.audit_heads tenant) (s.audits tenant)
