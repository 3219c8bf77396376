-- ===== src/Control/Actions/Replay.antt =====
-- Idempotency of `evaluate` in src/traceguard/control/service.py.
use trace_guard.Common.{
  ◌+◌, ◌<◌, String, ◌≡◌, refl, ap, true, false, Option, none, some, ◌==◌, ok, arith, eq_refl,
  Bool-cases, Result-cases, ==→eq, inl, inr,
}
use trace_guard.Control.Models.{agent, Actor, ActionRequest, DecisionResponse}
use trace_guard.Control.Platform.{Platform, Draw, action_digest}
use trace_guard.Control.Plane.{Plane, ReceiptKey, DecisionReceipt, require, same_key, epoch_of}
use trace_guard.Control.Actions.Decide.{decide}
use trace_guard.Control.Actions.Evaluate.{
  record_decision, evaluate_keyed, evaluate_as, evaluate, key_of, out_of_scope, stale_receipt,
  final_response, answer_receipt, receipt_life,
}

same_key_refl : (k : ReceiptKey) → same_key k k ≡ true
same_key_refl k = rw (eq_refl k.tenant, eq_refl k.subject, eq_refl k.credential, eq_refl k.key)

module _ (p : Platform) where
  abbrev pub receipt_of : Draw → ActionRequest → DecisionResponse → Plane → DecisionReceipt
  receipt_of d action r s = record {
    digest = action_digest p action;
    epoch = epoch_of s action.tenant_id;
    expires_at = d.now + receipt_life;
    result = final_response d r;
  }

  pub receipts-record_decision :
      (d : Draw) (actor : Actor) (credential : String) (action : ActionRequest)
      (r : DecisionResponse) (s : Plane)
      → (record_decision p d actor credential action r s).receipts (key_of actor credential action)
        ≡ some (receipt_of d action r s)
  unfolding record_decision
  receipts-record_decision d actor credential action r s =
      rw (same_key_refl (key_of actor credential action))

  pub answer_own_receipt :
      (d d' : Draw) (action : ActionRequest) (r : DecisionResponse) (s s' : Plane)
      → epoch_of s' action.tenant_id ≡ epoch_of s action.tenant_id
      → d'.now < d.now + receipt_life
      → answer_receipt p d' action (receipt_of d action r s) s' ≡ (ok (final_response d r), s')
  answer_own_receipt d d' action r s s' e live =
      rw (eq_refl (action_digest p action), e) (ground arith)

  -- What an answer from a receipt tells.
  pub record IsReplay (d : Draw) (action : ActionRequest) (cached : DecisionReceipt)
      (r : DecisionResponse) (s s' : Plane) : Type 0 where
    pub same_response : r ≡ cached.result
    pub same_action : cached.digest ≡ action_digest p action
    pub same_epoch : cached.epoch ≡ epoch_of s action.tenant_id
    pub in_time : d.now < cached.expires_at
    pub unchanged : s' ≡ s

  pub answer_receipt-IsReplay :
      (d : Draw) (action : ActionRequest) (cached : DecisionReceipt) (r : DecisionResponse)
      (s : Plane)
      → (answer_receipt p d action cached s).0 ≡ ok r
      → IsReplay d action cached r s (answer_receipt p d action cached s).1
  answer_receipt-IsReplay d action cached r s h =
      elim (Bool-cases (cached.digest == action_digest p action)) [
        | inr other ↦ cc (rw other at h)
        | inl same ↦ elim (Bool-cases (stale_receipt d.now (epoch_of s action.tenant_id) cached)) [
          | inl old ↦ cc (rw (same, old) at h)
          | inr live ↦
              rw (same, live)
                (record {
                  same_response = cc (rw (same, live) at h);
                  same_action = ==→eq _ _ same;
                  same_epoch = ground arith;
                  in_time = ground arith;
                  unchanged = refl;
                })
        ]
      ]

  pub evaluate-keyed :
      (d : Draw) (actor : Actor) (credential : String) (action : ActionRequest) (s : Plane)
      → require s actor agent action.tenant_id ≡ ok tt
      → out_of_scope actor action ≡ false
      → actor.service_key_id ≡ some credential
      → evaluate p d actor action s ≡ evaluate_keyed p d actor credential action s
  unfolding evaluate
  evaluate-keyed d actor credential action s a b c =
      rw (a, evaluate, b) (ap (λ (o : Option String). evaluate_as p o d actor action s) c)

  -- An answer is given only with the right of an agent, for an operation of the credential's scope.
  pub evaluate-rights :
      (d : Draw) (actor : Actor) (action : ActionRequest) (r : DecisionResponse) (s : Plane)
      → (evaluate p d actor action s).0 ≡ ok r
      → (require s actor agent action.tenant_id ≡ ok tt) × (out_of_scope actor action ≡ false)
  unfolding evaluate
  evaluate-rights d actor action r s h =
      elim (Result-cases (require s actor agent action.tenant_id)) [
        | inl (e, refused) ↦ cc (rw (refused, evaluate) at h)
        | inr (u, granted) ↦ elim (Bool-cases (out_of_scope actor action)) [
          | inl out ↦ cc (rw (granted, evaluate, out) at h)
          | inr within ↦ (granted, within)
        ]
      ]

  pub evaluate_keyed-new :
      (d : Draw) (actor : Actor) (credential : String) (action : ActionRequest) (s : Plane)
      → s.receipts (key_of actor credential action) ≡ none
      → evaluate_keyed p d actor credential action s ≡ (
        ok (final_response d (decide p action.tenant_id action s)),
        record_decision p d actor credential action (decide p action.tenant_id action s) s,
      )
  unfolding evaluate_keyed
  evaluate_keyed-new d actor credential action s new = rw (new, evaluate_keyed)

  pub evaluate_keyed-cached :
      (d : Draw) (actor : Actor) (credential : String) (action : ActionRequest)
      (cached : DecisionReceipt) (s : Plane)
      → s.receipts (key_of actor credential action) ≡ some cached
      → evaluate_keyed p d actor credential action s ≡ answer_receipt p d action cached s
  unfolding evaluate_keyed
  evaluate_keyed-cached d actor credential action cached s old = rw (old, evaluate_keyed)
