-- ===== src/Execution/Replays.antt =====
-- Idempotency of `evaluate` in src/traceguard/control/service.py over any calls of the control plane and
-- of its execution authority.
use trace_guard.Common.{◌+◌, ◌<◌, String, ◌≡◌, ap, sym, ◌∙◌, false, none, some, List, ok}
use trace_guard.Control.Models.{agent, Actor, ActionRequest, DecisionResponse}
use trace_guard.Control.Platform.{Draw, action_digest}
use trace_guard.Control.Plane.{Plane, ReceiptKey, DecisionReceipt, require, epoch_of}
use trace_guard.Control.Actions.Decide.{decide}
use trace_guard.Control.Actions.Evaluate.{
  evaluate, key_of, out_of_scope, receipt_life, final_response,
}
use trace_guard.Control.Actions.Replay.{
  receipt_of, receipts-record_decision, evaluate-rights, evaluate-keyed, evaluate_keyed-new,
  evaluate_keyed-cached, answer_own_receipt, answer_receipt-IsReplay,
}
use trace_guard.Control.Calls.Receipts.{
  Holds, append_audit-Holds, same_receipts-Holds, perform-Holds,
}
use trace_guard.Execution.Issuer.{Issuer}
use trace_guard.Execution.Calls.{ServiceCall, run}
use trace_guard.Execution.Kept.{IsKept, run_keeps}

Holds-IsKept : (i : Issuer) (k : ReceiptKey) (c : DecisionReceipt) → IsKept i (Holds k c)
Holds-IsKept i k c = record {
  appended = append_audit-Holds i.platform k c;
  rewritten = λ s s' a h. same_receipts-Holds i.platform k c s s' a.receipts h;
  controlled = perform-Holds i.platform k c;
}

-- The first answer under a key, its receipt, and that every later plane holds it.
record IsFirst (i : Issuer) (d : Draw) (actor : Actor) (credential : String)
    (action : ActionRequest) (r : DecisionResponse) (s : Plane) (calls : List ServiceCall)
    : Type 0 where
  pub within : out_of_scope actor action ≡ false
  pub chosen : DecisionResponse
  pub answer : final_response d chosen ≡ r
  pub held :
      (run i calls (evaluate i.platform d actor action s).1).receipts
        (key_of actor credential action)
      ≡ some (receipt_of i.platform d action chosen s)

evaluate-IsFirst :
    (i : Issuer) (d : Draw) (actor : Actor) (credential : String) (action : ActionRequest)
    (r : DecisionResponse) (s : Plane) (calls : List ServiceCall)
    → actor.service_key_id ≡ some credential
    → s.receipts (key_of actor credential action) ≡ none
    → (evaluate i.platform d actor action s).0 ≡ ok r
    → IsFirst i d actor credential action r s calls
evaluate-IsFirst i d actor credential action r s calls key new done =
    let p = i.platform in
    let (granted, within) = evaluate-rights p d actor action r s done in
    let chosen = decide p action.tenant_id action s in
    let first =
      evaluate-keyed p d actor credential action s granted within key
      ∙ evaluate_keyed-new p d actor credential action s new in
    let k = key_of actor credential action in
    let c = receipt_of p d action chosen s in
    let stored : Holds k c (evaluate p d actor action s).1 =
      rw first (record { held = receipts-record_decision p d actor credential action chosen s }) in
    record {
      within = within;
      chosen = chosen;
      answer = cc (rw first at done);
      held = (run_keeps i (Holds k c) (Holds-IsKept i k c) calls _ stored).held;
    }

-- A decision that is returned for a new key is made once: after any calls, the same actor's same
-- action under that key gets the response that it got first, and the plane, its audit log included,
-- does not change, if the actor still has the right of an agent, the tenant's epoch is the one of
-- the first call, and less than five minutes have passed.
pub evaluate_replays :
    (i : Issuer) (d d' : Draw) (actor : Actor) (credential : String) (action : ActionRequest)
    (r : DecisionResponse) (s : Plane) (calls : List ServiceCall)
    → actor.service_key_id ≡ some credential
    → s.receipts (key_of actor credential action) ≡ none
    → (evaluate i.platform d actor action s).0 ≡ ok r
    → require (run i calls (evaluate i.platform d actor action s).1) actor agent action.tenant_id
      ≡ ok tt
    → epoch_of (run i calls (evaluate i.platform d actor action s).1) action.tenant_id
      ≡ epoch_of s action.tenant_id
    → d'.now < d.now + receipt_life
    → evaluate i.platform d' actor action (run i calls (evaluate i.platform d actor action s).1)
      ≡ (ok r, run i calls (evaluate i.platform d actor action s).1)
evaluate_replays i d d' actor credential action r s calls key new done granted epoch live =
    let p = i.platform in
    let f = evaluate-IsFirst i d actor credential action r s calls key new done in
    let later = run i calls (evaluate p d actor action s).1 in
    evaluate-keyed p d' actor credential action later granted f.within key
    ∙ evaluate_keyed-cached p d' actor credential action _ later f.held
    ∙ answer_own_receipt p d d' action f.chosen s later epoch live
    ∙ ap (λ (x : DecisionResponse). (ok x, later)) f.answer

-- After an answer under a new key and any further calls, whatever is answered under that key, to the
-- same subject and credential and for any action with that key, is the first response; the action has
-- the first one's digest, the tenant's epoch is the first call's, less than five minutes have passed,
-- and the plane does not change.
pub answered_once :
    (i : Issuer) (d d' : Draw) (actor another : Actor) (credential : String)
    (action repeated : ActionRequest) (r r' : DecisionResponse) (s : Plane)
    (calls : List ServiceCall)
    → actor.service_key_id ≡ some credential
    → another.service_key_id ≡ some credential
    → key_of another credential repeated ≡ key_of actor credential action
    → s.receipts (key_of actor credential action) ≡ none
    → (evaluate i.platform d actor action s).0 ≡ ok r
    → (evaluate i.platform d' another repeated
        (run i calls (evaluate i.platform d actor action s).1)).0
      ≡ ok r'
    → (r' ≡ r)
      × (action_digest i.platform repeated ≡ action_digest i.platform action)
      × (epoch_of (run i calls (evaluate i.platform d actor action s).1) action.tenant_id
          ≡ epoch_of s action.tenant_id)
      × (d'.now < d.now + receipt_life)
      × ((evaluate i.platform d' another repeated
            (run i calls (evaluate i.platform d actor action s).1)).1
          ≡ run i calls (evaluate i.platform d actor action s).1)
answered_once i d d' actor another credential action repeated r r' s calls key key' same new done
      again =
    let p = i.platform in
    let f = evaluate-IsFirst i d actor credential action r s calls key new done in
    let later = run i calls (evaluate p d actor action s).1 in
    let c = receipt_of p d action f.chosen s in
    let (granted, within) = evaluate-rights p d' another repeated r' later again in
    let held : later.receipts (key_of another credential repeated) ≡ some c = rw same f.held in
    let second =
      evaluate-keyed p d' another credential repeated later granted within key'
      ∙ evaluate_keyed-cached p d' another credential repeated c later held in
    let told = answer_receipt-IsReplay p d' repeated c r' later (rw second at again) in
    let tenant : repeated.tenant_id ≡ action.tenant_id = ap (λ (k : ReceiptKey). k.tenant) same in
    let epoch : epoch_of s action.tenant_id ≡ epoch_of later repeated.tenant_id = told.same_epoch in
    (
      told.same_response ∙ f.answer,
      sym told.same_action,
      ap (epoch_of later) (sym tenant) ∙ sym epoch,
      told.in_time,
      rw second told.unchanged,
    )
