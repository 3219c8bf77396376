-- ===== src/Control/Calls/Runs.antt =====
-- Runs of the control plane (src/traceguard/control/service.py): any calls, in any order.
use trace_guard.Common.{
  String, refl, Bool, true, false, Option, none, some, List, [], ◌∷◌, ◌==◌, if◌then◌else◌, Result,
  Bool-cases, Option-cases, after-holds, inl, inr, not, ltb,
}
use trace_guard.Control.Models.{
  admin, approver, reviewer, agent, Actor, ActionRequest, DecisionResponse, is_escalate, Review,
  ReviewResolution,
}
use trace_guard.Control.Platform.{Platform, Draw, action_digest}
use trace_guard.Control.Plane.{Plane, DecisionReceipt, require, epoch_of}
use trace_guard.Control.Policies.{
  submit_found, approve_found, rollback_found, submit_policy, approve_policy, rollback,
}
use trace_guard.Control.Actions.Decide.{decide}
use trace_guard.Control.Actions.Evaluate.{
  open_review, new_review, record_decision, evaluate_keyed, evaluate_as, evaluate, answer_receipt,
  out_of_scope, key_of, stale_receipt,
}
use trace_guard.Control.Actions.Resolve.{resolve_found, resolve_review, is_pending, epoch_is}
use trace_guard.Control.Calls.{
  Call, drafting, submitting, approving, rolling_back, revoking, suspending, evaluating, resolving,
  perform, run,
}
use trace_guard.Control.Calls.Sound.{
  IsSound, append_audit-IsSound, same_log-IsSound, create_draft-IsSound, with_policy-IsSound,
  submit_found-IsSound, approve_found-IsSound, rollback_found-IsSound, revoke_credential-IsSound,
  suspend_tenant-IsSound,
}

module _ (p : Platform) where
  -- Either way of a test.
  if-IsSound :
      {A : Type 0} (b : Bool) (x y : Result A × Plane)
      → IsSound p x.1
      → IsSound p y.1
      → IsSound p (if b then x else y).1
  if-IsSound true x y h k = h
  if-IsSound false x y h k = k

  open_review-IsSound :
      (d : Draw) (actor : Actor) (review : Review) (tenant : String) (s : Plane)
      → IsSound p s
      → IsSound p (open_review p d actor review tenant s)
  unfolding open_review
  open_review-IsSound d actor review tenant s h =
      append_audit-IsSound p d.now tenant _ _ (same_log-IsSound p s _ refl refl refl h)

  record_decision-IsSound :
      (d : Draw) (actor : Actor) (credential : String) (action : ActionRequest)
      (r : DecisionResponse) (s : Plane)
      → IsSound p s
      → IsSound p (record_decision p d actor credential action r s)
  unfolding record_decision
  record_decision-IsSound d actor credential action r s h =
      let audited = append_audit-IsSound p d.now action.tenant_id _ s h in
      elim (Bool-cases (is_escalate r.decision)) [
        | inl e ↦ rw e (
            same_log-IsSound p _ _ refl refl refl (
              open_review-IsSound d actor (new_review p d actor credential action s)
                action.tenant_id _ audited))
        | inr e ↦ rw e (same_log-IsSound p _ _ refl refl refl audited)
      ]

  answer_receipt-IsSound :
      (d : Draw) (action : ActionRequest) (cached : DecisionReceipt) (s : Plane)
      → IsSound p s
      → IsSound p (answer_receipt p d action cached s).1
  answer_receipt-IsSound d action cached s h =
      elim (Bool-cases (not (cached.digest == action_digest p action))) [
        | inl bad ↦ rw bad h
        | inr same ↦
            rw same (elim (Bool-cases (stale_receipt d.now (epoch_of s action.tenant_id) cached)) [
              | inl old ↦ rw old h
              | inr live ↦ rw live h
            ])
      ]

  evaluate_keyed-IsSound :
      (d : Draw) (actor : Actor) (credential : String) (action : ActionRequest) (s : Plane)
      → IsSound p s
      → IsSound p (evaluate_keyed p d actor credential action s).1
  unfolding evaluate_keyed
  evaluate_keyed-IsSound d actor credential action s h =
      elim (Option-cases (s.receipts (key_of actor credential action))) [
        | inl new ↦
            rw (new, evaluate_keyed)
              (record_decision-IsSound d actor credential action
                (decide p action.tenant_id action s) s h)
        | inr (cached, old) ↦ rw (old, evaluate_keyed) (answer_receipt-IsSound d action cached s h)
      ]

  evaluate_as-IsSound :
      (o : Option String) (d : Draw) (actor : Actor) (action : ActionRequest) (s : Plane)
      → IsSound p s
      → IsSound p (evaluate_as p o d actor action s).1
  evaluate_as-IsSound none d actor action s h = h
  evaluate_as-IsSound (some credential) d actor action s h =
      evaluate_keyed-IsSound d actor credential action s h

  evaluate-IsSound :
      (d : Draw) (actor : Actor) (action : ActionRequest) (s : Plane)
      → IsSound p s
      → IsSound p (evaluate p d actor action s).1
  unfolding evaluate
  evaluate-IsSound d actor action s h =
      after-holds (IsSound p) (require s actor agent action.tenant_id) s _ h
        (elim (Bool-cases (out_of_scope actor action)) [
          | inl out ↦ rw out h
          | inr within ↦ rw within (evaluate_as-IsSound actor.service_key_id d actor action s h)
        ])

  resolve_found-IsSound :
      (d : Draw) (tenant : String) (actor : Actor) (id : String) (r : Review)
      (resolution : ReviewResolution) (reason : String) (s : Plane)
      → IsSound p s
      → IsSound p (resolve_found p d tenant actor id r resolution reason s).1
  unfolding resolve_found
  resolve_found-IsSound d tenant actor id r resolution reason s h =
      if-IsSound (not (r.tenant_id == tenant)) _ _ h (
        if-IsSound (not (is_pending r.status)) _ _ h (
          if-IsSound (not (epoch_is (s.epochs tenant) r.policy_epoch)) _ _ h (
            if-IsSound (r.agent_subject == actor.subject) _ _ h (
              if-IsSound (ltb r.expires_at d.now) _ _ (same_log-IsSound p s _ refl refl refl h) (
                append_audit-IsSound p d.now tenant _ _
                  (same_log-IsSound p s _ refl refl refl h))))))

  resolve_review-IsSound :
      (d : Draw) (tenant : String) (actor : Actor) (id : String) (resolution : ReviewResolution)
      (reason : String) (s : Plane)
      → IsSound p s
      → IsSound p (resolve_review p d tenant actor id resolution reason s).1
  unfolding resolve_review
  resolve_review-IsSound d tenant actor id resolution reason s h =
      after-holds (IsSound p) (require s actor reviewer tenant) s _ h
        (elim (Option-cases (s.reviews id)) [
          | inl missing ↦ rw missing h
          | inr (r, found) ↦
              rw found (resolve_found-IsSound d tenant actor id r resolution reason s h)
        ])

  pub perform-IsSound :
      (d : Draw) (c : Call) (s : Plane) → IsSound p s → IsSound p (perform p d c s)
  unfolding perform submit_policy approve_policy rollback
  perform-IsSound d (drafting tenant actor contents) s h =
      create_draft-IsSound p d tenant actor contents s h
  perform-IsSound d (submitting tenant actor id) s h =
      with_policy-IsSound p admin tenant actor id (submit_found p d tenant actor) s
        (λ v. submit_found-IsSound p d tenant actor v s h) h
  perform-IsSound d (approving tenant actor id) s h =
      with_policy-IsSound p approver tenant actor id (approve_found p d tenant actor) s
        (λ v. approve_found-IsSound p d tenant actor v s h) h
  perform-IsSound d (rolling_back tenant actor id) s h =
      with_policy-IsSound p approver tenant actor id (rollback_found p d tenant actor) s
        (λ v. rollback_found-IsSound p d tenant actor v s h) h
  perform-IsSound d (revoking tenant actor key length) s h =
      revoke_credential-IsSound p d tenant actor key length s h
  perform-IsSound d (suspending tenant actor on) s h =
      suspend_tenant-IsSound p d tenant actor on s h
  perform-IsSound d (evaluating actor action) s h = evaluate-IsSound d actor action s h
  perform-IsSound d (resolving tenant actor id resolution reason) s h =
      resolve_review-IsSound d tenant actor id resolution reason s h

  -- From a sound plane, after any calls, whether they return or raise, every tenant has at most one
  -- active policy, its versions are numbered 1, 2, … in order, what has been active has an approver,
  -- and the audit log passes `verify_audit_chain`.
  pub run-IsSound :
      (calls : List (Draw × Call)) (s : Plane) → IsSound p s → IsSound p (run p calls s)
  run-IsSound [] s h = h
  run-IsSound ((d, c) ∷ calls) s h = run-IsSound calls (perform p d c s) (perform-IsSound d c s h)
