-- ===== src/Control/Calls/Receipts.antt =====
-- The decision receipts of src/traceguard/control/service.py: once `evaluate` has stored one, no call
-- of the control plane replaces or drops it.
use trace_guard.Common.{
  ℕ, String, Bool, true, false, ◌≡◌, refl, ◌||◌, not, Option, none, some, ◌==◌, ltb, eqb, find,
  Result, if◌then◌else◌, Bool-cases, Option-cases, inl, inr, after-holds, arith, ==→eq,
}
use trace_guard.Control.Models.{
  Role, admin, approver, reviewer, agent, Actor, ActionRequest, DecisionResponse, PolicyVersion,
  is_draft, is_pending_approval, is_rolled_back, is_escalate,
}
use trace_guard.Control.Platform.{Platform, Draw, action_digest}
use trace_guard.Control.Plane.{
  Plane, Entry, ReceiptKey, DecisionReceipt, require, append_audit, same_key, epoch_of,
}
use trace_guard.Control.Policies.{
  has_id, create_draft, submit_found, activate_found, approve_found, rollback_found, with_policy,
  revoke_credential, suspend_tenant, submit_policy, approve_policy, rollback,
}
use trace_guard.Control.Actions.Decide.{decide}
use trace_guard.Control.Actions.Evaluate.{
  open_review, record_decision, evaluate_keyed, evaluate_as, evaluate, answer_receipt, out_of_scope,
  key_of, stale_receipt,
}
use trace_guard.Control.Actions.Resolve.{resolve_found, resolve_review, is_pending, epoch_is}
use trace_guard.Control.Calls.{
  Call, drafting, submitting, approving, rolling_back, revoking, suspending, evaluating, resolving,
  perform,
}

-- The plane holds this receipt under this key.
pub record Holds (k : ReceiptKey) (c : DecisionReceipt) (s : Plane) : Type 0 where
  pub held : s.receipts k ≡ some c

same_key-eq : (a b : ReceiptKey) → same_key a b ≡ true → a ≡ b
same_key-eq a b h =
    let t = ==→eq a.tenant b.tenant (ground arith) in
    let u = ==→eq a.subject b.subject (ground arith) in
    let v = ==→eq a.credential b.credential (ground arith) in
    let w = ==→eq a.key b.key (ground arith) in cc

module _ (p : Platform) (k : ReceiptKey) (c : DecisionReceipt) where
  pub append_audit-Holds :
      (now : ℕ) (tenant : String) (entry : Entry) (s : Plane)
      → Holds k c s
      → Holds k c (append_audit p now tenant entry s)
  unfolding append_audit
  append_audit-Holds now tenant entry s h = record { held = h.held }

  pub same_receipts-Holds : (s s' : Plane) → s'.receipts ≡ s.receipts → Holds k c s → Holds k c s'
  same_receipts-Holds s s' e h = record { held = rw e h.held }

  activate_found-Holds :
      (d : Draw) (event_type tenant : String) (actor : Actor) (v : PolicyVersion) (s : Plane)
      → Holds k c s
      → Holds k c (activate_found p d event_type tenant actor v s)
  unfolding activate_found
  activate_found-Holds d event_type tenant actor v s h =
      append_audit-Holds d.now tenant _ _ (same_receipts-Holds s _ refl h)

  if-Holds :
      {A : Type 0} (b : Bool) (x y : Result A × Plane)
      → Holds k c x.1
      → Holds k c y.1
      → Holds k c (if b then x else y).1
  if-Holds true x y h g = h
  if-Holds false x y h g = g

  with_policy-Holds :
      (role : Role) (tenant : String) (actor : Actor) (id : String)
      (rest : PolicyVersion → Plane → Result PolicyVersion × Plane) (s : Plane)
      → ((v : PolicyVersion) → Holds k c (rest v s).1)
      → Holds k c s
      → Holds k c (with_policy p role tenant actor id rest s).1
  with_policy-Holds role tenant actor id rest s g h =
      after-holds (Holds k c) (require s actor role tenant) s _ h
        (elim (Option-cases (find (has_id id) (s.policies tenant))) [
          | inl missing ↦ rw missing h
          | inr (v, found) ↦ rw found (g v)
        ])

  record_decision-receipts :
      (d : Draw) (actor : Actor) (credential : String) (action : ActionRequest)
      (r : DecisionResponse) (s : Plane)
      → same_key (key_of actor credential action) k ≡ false
      → (record_decision p d actor credential action r s).receipts k ≡ s.receipts k
  unfolding record_decision open_review append_audit
  record_decision-receipts d actor credential action r s other =
      elim (Bool-cases (is_escalate r.decision)) [
        | inl e ↦ rw (e, other) refl
        | inr e ↦ rw (e, other) refl
      ]

  answer_receipt-plane :
      (d : Draw) (action : ActionRequest) (cached : DecisionReceipt) (s : Plane)
      → Holds k c s
      → Holds k c (answer_receipt p d action cached s).1
  answer_receipt-plane d action cached s h =
      if-Holds (not (cached.digest == action_digest p action)) _ _ h
        (if-Holds (stale_receipt d.now (epoch_of s action.tenant_id) cached) _ _ h h)

  -- A receipt is only stored under a key that has none.
  evaluate_keyed-Holds :
      (d : Draw) (actor : Actor) (credential : String) (action : ActionRequest) (s : Plane)
      → Holds k c s
      → Holds k c (evaluate_keyed p d actor credential action s).1
  unfolding evaluate_keyed
  evaluate_keyed-Holds d actor credential action s h =
      let held = h.held in
      elim (Option-cases (s.receipts (key_of actor credential action))) [
        | inr (cached, old) ↦ rw (old, evaluate_keyed) (answer_receipt-plane d action cached s h)
        | inl new ↦ elim (Bool-cases (same_key (key_of actor credential action) k)) [
          | inl t ↦
              (let e = same_key-eq (key_of actor credential action) k t in cc (rw (e, held) at new))
          | inr f ↦
              rw (new, evaluate_keyed)
                (record {
                  held =
                      rw
                        (record_decision-receipts d actor credential action
                          (decide p action.tenant_id action s) s f)
                        held;
                })
        ]
      ]

  evaluate_as-Holds :
      (o : Option String) (d : Draw) (actor : Actor) (action : ActionRequest) (s : Plane)
      → Holds k c s
      → Holds k c (evaluate_as p o d actor action s).1
  evaluate_as-Holds none d actor action s h = h
  evaluate_as-Holds (some credential) d actor action s h =
      evaluate_keyed-Holds d actor credential action s h

  evaluate-Holds :
      (d : Draw) (actor : Actor) (action : ActionRequest) (s : Plane)
      → Holds k c s
      → Holds k c (evaluate p d actor action s).1
  unfolding evaluate
  evaluate-Holds d actor action s h =
      after-holds (Holds k c) (require s actor agent action.tenant_id) s _ h (
        if-Holds (out_of_scope actor action) _ _ h
          (evaluate_as-Holds actor.service_key_id d actor action s h))

  pub perform-Holds :
      (d : Draw) (call : Call) (s : Plane) → Holds k c s → Holds k c (perform p d call s)
  unfolding perform submit_policy approve_policy rollback create_draft submit_found approve_found
      rollback_found revoke_credential suspend_tenant resolve_review resolve_found
  perform-Holds d (drafting tenant actor contents) s h =
      after-holds (Holds k c) (require s actor admin tenant) s _ h
        (append_audit-Holds d.now tenant _ _ (same_receipts-Holds s _ refl h))
  perform-Holds d (submitting tenant actor id) s h =
      with_policy-Holds admin tenant actor id (submit_found p d tenant actor) s
        (λ v. if-Holds (not (v.created_by == actor.subject)) _ _ h (
          if-Holds (not (is_draft v.status)) _ _ h
            (append_audit-Holds d.now tenant _ _ (same_receipts-Holds s _ refl h))))
        h
  perform-Holds d (approving tenant actor id) s h =
      with_policy-Holds approver tenant actor id (approve_found p d tenant actor) s
        (λ v. if-Holds (not (is_pending_approval v.status)) _ _ h (
          if-Holds (v.created_by == actor.subject) _ _ h
            (activate_found-Holds d "policy.activated" tenant actor v s h)))
        h
  perform-Holds d (rolling_back tenant actor id) s h =
      with_policy-Holds approver tenant actor id (rollback_found p d tenant actor) s
        (λ v.
          if-Holds (not (is_rolled_back v.status)) _ _ h
            (activate_found-Holds d "policy.rolled_back" tenant actor v s h))
        h
  perform-Holds d (revoking tenant actor key length) s h =
      after-holds (Holds k c) (require s actor admin tenant) s _ h (
        if-Holds (eqb length 0 || ltb 256 length) _ _ h
          (append_audit-Holds d.now tenant _ _ (same_receipts-Holds s _ refl h)))
  perform-Holds d (suspending tenant actor on) s h =
      after-holds (Holds k c) (require s actor admin tenant) s _ h
        (append_audit-Holds d.now tenant _ _ (same_receipts-Holds s _ refl h))
  perform-Holds d (evaluating actor action) s h = evaluate-Holds d actor action s h
  perform-Holds d (resolving tenant actor id resolution reason) s h =
      after-holds (Holds k c) (require s actor reviewer tenant) s _ h
        (elim (Option-cases (s.reviews id)) [
          | inl missing ↦ rw missing h
          | inr (r, found) ↦ rw found (
              if-Holds (not (r.tenant_id == tenant)) _ _ h (
                if-Holds (not (is_pending r.status)) _ _ h (
                  if-Holds (not (epoch_is (s.epochs tenant) r.policy_epoch)) _ _ h (
                    if-Holds (r.agent_subject == actor.subject) _ _ h (
                      if-Holds (ltb r.expires_at d.now) _ _ (same_receipts-Holds s _ refl h)
                        (append_audit-Holds d.now tenant _ _ (same_receipts-Holds s _ refl h)))))))
        ])
