-- ===== src/Execution/Frames.antt =====
-- What the control plane's `evaluate` (src/traceguard/control/service.py) leaves as it was: the tasks,
-- the grants, the epochs, and who is suspended or revoked.
use trace_guard.Common.{
  ℕ, String, ◌≡◌, refl, not, Option, none, some, ◌==◌, Bool-cases, Option-cases, inl, inr,
  after-holds,
}
use trace_guard.Control.Models.{
  Role, agent, Actor, ActionRequest, Review, DecisionResponse, is_escalate,
}
use trace_guard.Control.Platform.{Platform, Draw, action_digest}
use trace_guard.Control.Plane.{Plane, DecisionReceipt, Entry, require, append_audit, epoch_of}
use trace_guard.Control.Actions.Decide.{decide}
use trace_guard.Control.Actions.Evaluate.{
  open_review, new_review, record_decision, evaluate_keyed, evaluate_as, evaluate, answer_receipt,
  out_of_scope, key_of, stale_receipt,
}

pub record IsFramed (s s' : Plane) : Type 0 where
  pub tasks : s'.tasks ≡ s.tasks
  pub issued : s'.issued ≡ s.issued
  pub epochs : s'.epochs ≡ s.epochs
  pub suspended : s'.suspended ≡ s.suspended
  pub revoked : s'.revoked ≡ s.revoked
  pub policies : s'.policies ≡ s.policies

pub IsFramed-refl : (s : Plane) → IsFramed s s
IsFramed-refl s = record {
  tasks = refl;
  issued = refl;
  epochs = refl;
  suspended = refl;
  revoked = refl;
  policies = refl;
}

-- The same authorization in both planes.
pub require-IsFramed :
    (s s' : Plane) (actor : Actor) (role : Role) (tenant : String)
    → IsFramed s s'
    → require s' actor role tenant ≡ require s actor role tenant
unfolding require
require-IsFramed s s' actor role tenant h = rw (h.suspended, h.revoked) refl

module _ (p : Platform) where
  append_audit-IsFramed :
      (now : ℕ) (tenant : String) (entry : Entry) (s s' : Plane)
      → IsFramed s s'
      → IsFramed s (append_audit p now tenant entry s')
  unfolding append_audit
  append_audit-IsFramed now tenant entry s s' h = record {
    tasks = h.tasks;
    issued = h.issued;
    epochs = h.epochs;
    suspended = h.suspended;
    revoked = h.revoked;
    policies = h.policies;
  }

  open_review-IsFramed :
      (d : Draw) (actor : Actor) (review : Review) (tenant : String) (s s' : Plane)
      → IsFramed s s'
      → IsFramed s (open_review p d actor review tenant s')
  unfolding open_review
  open_review-IsFramed d actor review tenant s s' h =
      append_audit-IsFramed d.now tenant _ s _ (record {
        tasks = h.tasks;
        issued = h.issued;
        epochs = h.epochs;
        suspended = h.suspended;
        revoked = h.revoked;
        policies = h.policies;
      })

  record_decision-IsFramed :
      (d : Draw) (actor : Actor) (credential : String) (action : ActionRequest)
      (r : DecisionResponse) (s : Plane)
      → IsFramed s (record_decision p d actor credential action r s)
  unfolding record_decision
  record_decision-IsFramed d actor credential action r s =
      let audited = append_audit-IsFramed d.now action.tenant_id _ s s (IsFramed-refl s) in
      elim (Bool-cases (is_escalate r.decision)) [
        | inl e ↦
            (let h =
                open_review-IsFramed d actor (new_review p d actor credential action s)
                  action.tenant_id s _ audited in
              rw e (record {
                tasks = h.tasks;
                issued = h.issued;
                epochs = h.epochs;
                suspended = h.suspended;
                revoked = h.revoked;
                policies = h.policies;
              }))
        | inr e ↦ rw e (record {
          tasks = audited.tasks;
          issued = audited.issued;
          epochs = audited.epochs;
          suspended = audited.suspended;
          revoked = audited.revoked;
          policies = audited.policies;
        })
      ]

  answer_receipt-same :
      (d : Draw) (action : ActionRequest) (cached : DecisionReceipt) (s : Plane)
      → (answer_receipt p d action cached s).1 ≡ s
  answer_receipt-same d action cached s =
      elim (Bool-cases (not (cached.digest == action_digest p action))) [
        | inl bad ↦ rw bad refl
        | inr same ↦
            rw same (elim (Bool-cases (stale_receipt d.now (epoch_of s action.tenant_id) cached)) [
              | inl old ↦ rw old refl
              | inr live ↦ rw live refl
            ])
      ]

  evaluate_keyed-IsFramed :
      (d : Draw) (actor : Actor) (credential : String) (action : ActionRequest) (s : Plane)
      → IsFramed s (evaluate_keyed p d actor credential action s).1
  unfolding evaluate_keyed
  evaluate_keyed-IsFramed d actor credential action s =
      elim (Option-cases (s.receipts (key_of actor credential action))) [
        | inl e ↦
            rw (e, evaluate_keyed)
              (record_decision-IsFramed d actor credential action
                (decide p action.tenant_id action s) s)
        | inr (cached, e) ↦
            rw (e, evaluate_keyed) (rw (answer_receipt-same d action cached s) (IsFramed-refl s))
      ]

  evaluate_as-IsFramed :
      (o : Option String) (d : Draw) (actor : Actor) (action : ActionRequest) (s : Plane)
      → IsFramed s (evaluate_as p o d actor action s).1
  evaluate_as-IsFramed none d actor action s = IsFramed-refl s
  evaluate_as-IsFramed (some credential) d actor action s =
      evaluate_keyed-IsFramed d actor credential action s

  pub evaluate-IsFramed :
      (d : Draw) (actor : Actor) (action : ActionRequest) (s : Plane)
      → IsFramed s (evaluate p d actor action s).1
  unfolding evaluate
  evaluate-IsFramed d actor action s =
      after-holds (IsFramed s) (require s actor agent action.tenant_id) s _ (IsFramed-refl s)
        (elim (Bool-cases (out_of_scope actor action)) [
          | inl out ↦ rw out (IsFramed-refl s)
          | inr within ↦ rw within (evaluate_as-IsFramed actor.service_key_id d actor action s)
        ])
