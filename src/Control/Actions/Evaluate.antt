-- ===== src/Control/Actions/Evaluate.antt =====
-- `evaluate` of src/traceguard/control/service.py: receipts, the audit entry, and the review that an
-- escalated action opens.
use trace_guard.Common.{
  ℕ, ◌+◌, String, Bool, false, ◌||◌, not, Option, none, some, List, [], ◌∷◌, ◌==◌, leb, eqb,
  if◌then◌else◌, put, Result, ok, err, after, authorization_error, idempotency_conflict,
}
use trace_guard.Json.{Json, null, str, arr, obj, Items, nil, cons, Fields, end, field}
use trace_guard.Json.Redact.{redact_value}
use trace_guard.Control.Models.{
  agent, Actor, ActionKind, model_request, model_response, tool, memory_read, memory_write,
  filesystem, executor_call, http, Decision, allow, block, escalate, rewrite, is_escalate,
  ActionRequest, Evidence, DecisionResponse, Review, review_pending,
}
use trace_guard.Control.Platform.{Platform, Draw, action_digest}
use trace_guard.Control.Plane.{
  Plane, ReceiptKey, DecisionReceipt, require, append_audit, same_key, epoch_of,
}
use trace_guard.Control.Policies.{entry_of}
use trace_guard.Control.Actions.Decide.{decide}

abbrev text_or_null : Option String → Json
text_or_null none = null
text_or_null (some s) = str s

abbrev texts : List String → Items
texts [] = nil
texts (s ∷ rest) = cons (str s) (texts rest)

-- `.value` of the enumerations
abbrev kind_value : ActionKind → String
kind_value model_request = "model_request"
kind_value model_response = "model_response"
kind_value tool = "tool"
kind_value memory_read = "memory_read"
kind_value memory_write = "memory_write"
kind_value filesystem = "filesystem"
kind_value executor_call = "executor"
kind_value http = "http"

abbrev decision_value : Decision → String
decision_value allow = "ALLOW"
decision_value block = "BLOCK"
decision_value escalate = "ESCALATE"
decision_value rewrite = "REWRITE"

-- `actor.allowed_operations is not None and action.operation not in actor.allowed_operations`
abbrev pub out_of_scope : Actor → ActionRequest → Bool
out_of_scope actor action = elim actor.allowed_operations [
  | none ↦ false
  | some f ↦ not (f action.operation)
]

abbrev pub put_receipt :
    (ReceiptKey → Option DecisionReceipt)
    → ReceiptKey
    → DecisionReceipt
    → ReceiptKey
    → Option DecisionReceipt
put_receipt receipts key r k = if same_key key k then some r else receipts k

-- `timedelta(hours=24)` and `timedelta(minutes=5)`
abbrev pub review_life : ℕ
review_life = 86400

abbrev pub receipt_life : ℕ
receipt_life = 300

abbrev pub stale_receipt : ℕ → ℕ → DecisionReceipt → Bool
stale_receipt now epoch r = not (eqb r.epoch epoch) || leb r.expires_at now

abbrev pub dumped : Json → Fields
dumped (obj fs) = fs
dumped _ = end

-- The response that is returned and stored.
abbrev pub final_response : Draw → DecisionResponse → DecisionResponse
final_response d r = record r {
  audit_id = d.audit_id;
  review_id = if is_escalate r.decision then some d.review_id else none;
}

abbrev pub key_of : Actor → String → ActionRequest → ReceiptKey
key_of actor credential action = record {
  tenant = action.tenant_id;
  subject = actor.subject;
  credential = credential;
  key = action.idempotency_key;
}

module _ (p : Platform) where
  abbrev redact : Json → Json
  redact = redact_value p.redact_text p.is_sensitive

  abbrev evidence_items : List Evidence → Items
  evidence_items [] = nil
  evidence_items (e ∷ rest) = cons (redact (p.dump_evidence e)) (evidence_items rest)

  abbrev evaluated_fields : ActionRequest → DecisionResponse → Fields
  evaluated_fields a r = field "action_id" (str a.action_id) (
      field "kind" (str (kind_value a.kind)) (
        field "operation" (str a.operation) (
          field "target" (text_or_null a.target) (
            field "arguments" (redact (obj a.arguments)) (
              field "provenance" (arr (texts a.provenance)) (
                field "evidence" (arr (evidence_items a.evidence)) (
                  field "decision" (str (decision_value r.decision))
                    (field "policy_id" (text_or_null r.policy_id) end))))))))

  abbrev pub new_review : Draw → Actor → String → ActionRequest → Plane → Review
  new_review d actor credential action s = record {
    review_id = d.review_id;
    tenant_id = action.tenant_id;
    action_id = action.action_id;
    audit_id = d.audit_id;
    expires_at = d.now + review_life;
    status = review_pending;
    resolution = none;
    resolved_by = none;
    reason = none;
    action_digest = action_digest p action;
    agent_subject = actor.subject;
    service_key_id = credential;
    task_id = action.task_id;
    policy_epoch = epoch_of s action.tenant_id;
    grant_nonce = none;
  }

  -- `if result.decision is Decision.ESCALATE`
  unfoldable pub open_review : Draw → Actor → Review → String → Plane → Plane
  open_review d actor review tenant s =
      append_audit p d.now tenant
        (record {
          audit_id = d.second_audit_id;
          event_type = "review.created";
          actor = actor.subject;
          payload = dumped (p.dump_review review);
        })
        (record s { reviews = put s.reviews review.review_id (some review) })

  -- The part of `evaluate` after the lookup of the receipt: the plane with the audit entries, the
  -- review and the receipt.
  unfoldable pub record_decision :
      Draw → Actor → String → ActionRequest → DecisionResponse → Plane → Plane
  record_decision d actor credential action r s =
      let audited =
        append_audit p d.now action.tenant_id
          (entry_of d "action.evaluated" actor (evaluated_fields action r)) s in
      let reviewed =
        (if is_escalate r.decision
          then open_review d actor (new_review d actor credential action s) action.tenant_id audited
          else audited) in
      record reviewed {
        receipts = put_receipt reviewed.receipts (key_of actor credential action) (record {
          digest = action_digest p action;
          epoch = epoch_of s action.tenant_id;
          expires_at = d.now + receipt_life;
          result = final_response d r;
        });
      }

  -- `if cached := self._idempotent.get(key)`
  abbrev pub answer_receipt :
      Draw → ActionRequest → DecisionReceipt → Plane → Result DecisionResponse × Plane
  answer_receipt d action cached s =
      if not (cached.digest == action_digest p action)
      then (err (idempotency_conflict "idempotency key is bound to a different action"), s)
      else if stale_receipt d.now (epoch_of s action.tenant_id) cached
      then (err (idempotency_conflict "decision receipt is stale; use a new idempotency key"), s)
      else (ok cached.result, s)

  unfoldable pub evaluate_keyed :
      Draw → Actor → String → ActionRequest → Plane → Result DecisionResponse × Plane
  evaluate_keyed d actor credential action s = elim (s.receipts (key_of actor credential action)) [
    | some cached ↦ answer_receipt d action cached s
    | none ↦
        let r = decide p action.tenant_id action s in
        (ok (final_response d r), record_decision d actor credential action r s)
  ]

  abbrev pub evaluate_as :
      Option String → Draw → Actor → ActionRequest → Plane → Result DecisionResponse × Plane
  evaluate_as none d actor action s =
      (err (authorization_error "agent actions require a scoped service credential"), s)
  evaluate_as (some credential) d actor action s = evaluate_keyed d actor credential action s

  unfoldable pub evaluate : Draw → Actor → ActionRequest → Plane → Result DecisionResponse × Plane
  evaluate d actor action s = after (require s actor agent action.tenant_id) s (
      if out_of_scope actor action
      then (err (authorization_error "operation is outside the service credential scope"), s)
      else evaluate_as actor.service_key_id d actor action s)
