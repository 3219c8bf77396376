-- ===== src/Execution/Epochs.antt =====
-- The policy epochs of src/traceguard/control/service.py only grow, and with them old grants of
-- src/traceguard/control/execution.py end.
use trace_guard.Common.{
  ℕ, ◌+◌, ◌≤◌, String, Bool, true, false, ◌≡◌, refl, ◌||◌, not, List, ◌==◌, ltb, eqb, find, Result,
  ok, err, Bool-cases, Option-cases, inl, inr, after-holds, arith, ==→eq, eq_refl, after, Error,
  if◌then◌else◌, length,
}
use trace_guard.Control.Models.{
  Role, admin, approver, reviewer, Actor, ActionRequest, ExecutionGrant, PolicyVersion, is_draft,
  is_pending_approval, is_rolled_back,
}
use trace_guard.Control.Platform.{Platform, Draw}
use trace_guard.Control.Plane.{Plane, Entry, require, append_audit, epoch_of, bump_epoch}
use trace_guard.Control.Policies.{
  has_id, create_draft, submit_found, activate_found, approve_found, rollback_found, with_policy,
  revoke_credential, suspend_tenant, submit_policy, approve_policy, rollback,
}
use trace_guard.Control.Actions.Resolve.{resolve_found, resolve_review, is_pending, epoch_is}
use trace_guard.Control.Calls.{
  Call, drafting, submitting, approving, rolling_back, revoking, suspending, evaluating, resolving,
  perform,
}
use trace_guard.Execution.Frames.{evaluate-IsFramed}
use trace_guard.Execution.Issuer.{Issuer}
use trace_guard.Execution.Issue.{validate}
use trace_guard.Execution.Validated.{IsValidated, validate-IsValidated}
use trace_guard.Execution.Calls.{ServiceCall, run}
use trace_guard.Execution.Kept.{IsKept, run_keeps}

-- A tenant's epoch is at least this.
pub record Reached (tenant : String) (n : ℕ) (s : Plane) : Type 0 where
  pub bound : n ≤ epoch_of s tenant

module _ (p : Platform) (tenant : String) (n : ℕ) where
  append_audit-Reached :
      (now : ℕ) (other : String) (entry : Entry) (s : Plane)
      → Reached tenant n s
      → Reached tenant n (append_audit p now other entry s)
  unfolding append_audit
  append_audit-Reached now other entry s h = record { bound = h.bound }

  same_epochs-Reached :
      (s s' : Plane) → s'.epochs ≡ s.epochs → Reached tenant n s → Reached tenant n s'
  same_epochs-Reached s s' e h = record { bound = rw e h.bound }

  bump_epoch-Reached :
      (other : String) (s : Plane) → Reached tenant n s → Reached tenant n (bump_epoch other s)
  bump_epoch-Reached other s h = elim (Bool-cases (other == tenant)) [
    | inl t ↦
        (let b = h.bound in record { bound = rw t (rw (==→eq other tenant t) (omega (arith, b))) })
    | inr t ↦ record { bound = rw t h.bound }
  ]

  activate_found-Reached :
      (d : Draw) (event_type other : String) (actor : Actor) (v : PolicyVersion) (s : Plane)
      → Reached tenant n s
      → Reached tenant n (activate_found p d event_type other actor v s)
  unfolding activate_found
  activate_found-Reached d event_type other actor v s h =
      append_audit-Reached d.now other _ _
        (bump_epoch-Reached other _ (same_epochs-Reached s _ refl h))

  if-Reached :
      {A : Type 0} (b : Bool) (x y : Result A × Plane)
      → Reached tenant n x.1
      → Reached tenant n y.1
      → Reached tenant n (if b then x else y).1
  if-Reached true x y h k = h
  if-Reached false x y h k = k

  with_policy-Reached :
      (role : Role) (other : String) (actor : Actor) (id : String)
      (rest : PolicyVersion → Plane → Result PolicyVersion × Plane) (s : Plane)
      → ((v : PolicyVersion) → Reached tenant n (rest v s).1)
      → Reached tenant n s
      → Reached tenant n (with_policy p role other actor id rest s).1
  with_policy-Reached role other actor id rest s k h =
      after-holds (Reached tenant n) (require s actor role other) s _ h
        (elim (Option-cases (find (has_id id) (s.policies other))) [
          | inl missing ↦ rw missing h
          | inr (v, found) ↦ rw found (k v)
        ])

  perform-Reached :
      (d : Draw) (c : Call) (s : Plane) → Reached tenant n s → Reached tenant n (perform p d c s)
  unfolding perform submit_policy approve_policy rollback create_draft submit_found approve_found
      rollback_found revoke_credential suspend_tenant resolve_review resolve_found
  perform-Reached d (drafting other actor contents) s h =
      after-holds (Reached tenant n) (require s actor admin other) s _ h
        (append_audit-Reached d.now other _ _ (same_epochs-Reached s _ refl h))
  perform-Reached d (submitting other actor id) s h =
      with_policy-Reached admin other actor id (submit_found p d other actor) s
        (λ v. if-Reached (not (v.created_by == actor.subject)) _ _ h (
          if-Reached (not (is_draft v.status)) _ _ h
            (append_audit-Reached d.now other _ _ (same_epochs-Reached s _ refl h))))
        h
  perform-Reached d (approving other actor id) s h =
      with_policy-Reached approver other actor id (approve_found p d other actor) s
        (λ v. if-Reached (not (is_pending_approval v.status)) _ _ h (
          if-Reached (v.created_by == actor.subject) _ _ h
            (activate_found-Reached d "policy.activated" other actor v s h)))
        h
  perform-Reached d (rolling_back other actor id) s h =
      with_policy-Reached approver other actor id (rollback_found p d other actor) s
        (λ v.
          if-Reached (not (is_rolled_back v.status)) _ _ h
            (activate_found-Reached d "policy.rolled_back" other actor v s h))
        h
  perform-Reached d (revoking other actor key length) s h =
      after-holds (Reached tenant n) (require s actor admin other) s _ h (
        if-Reached (eqb length 0 || ltb 256 length) _ _ h (
          append_audit-Reached d.now other _ _
            (bump_epoch-Reached other _ (same_epochs-Reached s _ refl h))))
  perform-Reached d (suspending other actor on) s h =
      after-holds (Reached tenant n) (require s actor admin other) s _ h (
        append_audit-Reached d.now other _ _
          (bump_epoch-Reached other _ (same_epochs-Reached s _ refl h)))
  perform-Reached d (evaluating actor action) s h =
      same_epochs-Reached s _ (evaluate-IsFramed p d actor action s).epochs h
  perform-Reached d (resolving other actor id resolution reason) s h =
      after-holds (Reached tenant n) (require s actor reviewer other) s _ h
        (elim (Option-cases (s.reviews id)) [
          | inl missing ↦ rw missing h
          | inr (r, found) ↦ rw found (
              if-Reached (not (r.tenant_id == other)) _ _ h (
                if-Reached (not (is_pending r.status)) _ _ h (
                  if-Reached (not (epoch_is (s.epochs other) r.policy_epoch)) _ _ h (
                    if-Reached (r.agent_subject == actor.subject) _ _ h (
                      if-Reached (ltb r.expires_at d.now) _ _ (same_epochs-Reached s _ refl h)
                        (append_audit-Reached d.now other _ _ (same_epochs-Reached s _ refl h)))))))
        ])

Reached-IsKept : (i : Issuer) (tenant : String) (n : ℕ) → IsKept i (Reached tenant n)
Reached-IsKept i tenant n = record {
  appended = append_audit-Reached i.platform tenant n;
  rewritten = λ s s' a h. same_epochs-Reached i.platform tenant n s s' a.epochs h;
  controlled = perform-Reached i.platform tenant n;
}

-- The changes that end a tenant's grants, where they return.
pub data Ends (i : Issuer) (tenant : String) (s : Plane) : Plane → Type 0 where
  suspends :
      (d : Draw) (actor : Actor) (on : Bool)
      → (suspend_tenant i.platform d tenant actor on s).0 ≡ ok tt
      → Ends i tenant s (suspend_tenant i.platform d tenant actor on s).1
  revokes :
      (d : Draw) (actor : Actor) (key : String) (length : ℕ)
      → (revoke_credential i.platform d tenant actor key length s).0 ≡ ok tt
      → Ends i tenant s (revoke_credential i.platform d tenant actor key length s).1
  approves :
      (d : Draw) (actor : Actor) (id : String) (v : PolicyVersion)
      → (approve_policy i.platform d tenant actor id s).0 ≡ ok v
      → Ends i tenant s (approve_policy i.platform d tenant actor id s).1
  rolls_back :
      (d : Draw) (actor : Actor) (id : String) (v : PolicyVersion)
      → (rollback i.platform d tenant actor id s).0 ≡ ok v
      → Ends i tenant s (rollback i.platform d tenant actor id s).1

-- The epoch after is the next one.
record IsNext (tenant : String) (s s' : Plane) : Type 0 where
  pub epoch : epoch_of s' tenant ≡ epoch_of s tenant + 1

after_ok :
    {A : Type 0} (P : Plane → Type 0) (r : Result (Unit {0})) (s : Plane) (rest : Result A × Plane)
    (a : A)
    → (after r s rest).0 ≡ ok a
    → (rest.0 ≡ ok a → P rest.1)
    → P (after r s rest).1
after_ok P (err x) s rest a h k = cc
after_ok P (ok _) s rest a h k = k h

if_ok :
    {A : Type 0} (P : Plane → Type 0) (b : Bool) (x : Error) (s : Plane) (rest : Result A × Plane)
    (a : A)
    → (if b then (err x, s) else rest).0 ≡ ok a
    → (rest.0 ≡ ok a → P rest.1)
    → P (if b then (err x, s) else rest).1
if_ok P true x s rest a h k = cc
if_ok P false x s rest a h k = k h

module _ (i : Issuer) (tenant : String) (s : Plane) where
  bump_epoch-IsNext : (s' : Plane) → s'.epochs ≡ s.epochs → IsNext tenant s (bump_epoch tenant s')
  bump_epoch-IsNext s' e = record { epoch = rw (eq_refl tenant, e) refl }

  append_audit-IsNext :
      (now : ℕ) (entry : Entry) (s' : Plane)
      → IsNext tenant s s'
      → IsNext tenant s (append_audit i.platform now tenant entry s')
  unfolding append_audit
  append_audit-IsNext now entry s' h = record { epoch = h.epoch }

  activate_found-IsNext :
      (d : Draw) (event_type : String) (actor : Actor) (v : PolicyVersion)
      → IsNext tenant s (activate_found i.platform d event_type tenant actor v s)
  unfolding activate_found
  activate_found-IsNext d event_type actor v =
      append_audit-IsNext d.now _ _ (bump_epoch-IsNext _ refl)

  with_policy-IsNext :
      (role : Role) (actor : Actor) (id : String)
      (rest : PolicyVersion → Plane → Result PolicyVersion × Plane) (v : PolicyVersion)
      → ((w : PolicyVersion) → (rest w s).0 ≡ ok v → IsNext tenant s (rest w s).1)
      → (with_policy i.platform role tenant actor id rest s).0 ≡ ok v
      → IsNext tenant s (with_policy i.platform role tenant actor id rest s).1
  with_policy-IsNext role actor id rest v k h =
      after_ok (IsNext tenant s) (require s actor role tenant) s _ v h (λ r.
        elim (Option-cases (find (has_id id) (s.policies tenant))) [
          | inl missing ↦ cc (rw missing at r)
          | inr (w, found) ↦ rw found (k w (rw found at r))
        ])

  Ends-IsNext : (s' : Plane) → Ends i tenant s s' → IsNext tenant s s'
  unfolding suspend_tenant revoke_credential approve_policy rollback approve_found rollback_found
  Ends-IsNext s' (suspends d actor on h) =
      after_ok (IsNext tenant s) (require s actor admin tenant) s _ tt h
        (λ r. append_audit-IsNext d.now _ _ (bump_epoch-IsNext _ refl))
  Ends-IsNext s' (revokes d actor key length h) =
      after_ok (IsNext tenant s) (require s actor admin tenant) s _ tt h (λ r.
        if_ok (IsNext tenant s) (eqb length 0 || ltb 256 length) _ s _ tt r
          (λ q. append_audit-IsNext d.now _ _ (bump_epoch-IsNext _ refl)))
  Ends-IsNext s' (approves d actor id v h) =
      with_policy-IsNext approver actor id (approve_found i.platform d tenant actor) v
        (λ w r. if_ok (IsNext tenant s) (not (is_pending_approval w.status)) _ s _ v r (λ q.
          if_ok (IsNext tenant s) (w.created_by == actor.subject) _ s _ v q
            (λ t. activate_found-IsNext d "policy.activated" actor w)))
        h
  Ends-IsNext s' (rolls_back d actor id v h) =
      with_policy-IsNext approver actor id (rollback_found i.platform d tenant actor) v
        (λ w r.
          if_ok (IsNext tenant s) (not (is_rolled_back w.status)) _ s _ v r
            (λ q. activate_found-IsNext d "policy.rolled_back" actor w))
        h

-- A grant is for its own tenant.
validated_tenant :
    (i : Issuer) (now : ℕ) (actor : Actor) (action : ActionRequest) (g : ExecutionGrant) (s : Plane)
    → IsValidated i now actor action g s
    → g.tenant_id ≡ action.tenant_id
unfolding require
validated_tenant i now actor action g s h =
    let allowed = h.authorized.agent_ok in
    elim (Bool-cases (g.tenant_id == action.tenant_id)) [
      | inl t ↦ ==→eq _ _ t
      | inr f ↦ cc (rw f at allowed)
    ]

validated_epoch :
    (i : Issuer) (now : ℕ) (actor : Actor) (action : ActionRequest) (g : ExecutionGrant) (s : Plane)
    → IsValidated i now actor action g s
    → epoch_of s g.tenant_id ≡ g.policy_epoch
validated_epoch i now actor action g s h =
    rw (validated_tenant i now actor action g s h) (rw h.current refl)

-- If a grant is valid for an action and then a suspension or its end, a revocation of a
-- credential, an approval of a policy or a rollback returns for the action's tenant, the grant is
-- never valid again: after any further calls, for no executor, action or time.
pub ended_forever :
    (i : Issuer) (now later : ℕ) (actor another : Actor) (action afterwards : ActionRequest)
    (g : ExecutionGrant) (s s' : Plane) (calls : List ServiceCall)
    → validate i now actor action g s ≡ ok tt
    → Ends i action.tenant_id s s'
    → ¬ (validate i later another afterwards g (run i calls s') ≡ ok tt)
ended_forever i now later actor another action afterwards g s s' calls h e k =
    let v = validate-IsValidated i now actor action g s h in
    let w = validate-IsValidated i later another afterwards g (run i calls s') k in
    let tenant = validated_tenant i now actor action g s v in
    let before = validated_epoch i now actor action g s v in
    let after_all = validated_epoch i later another afterwards g (run i calls s') w in
    let next = Ends-IsNext i action.tenant_id s s' e in
    let reached : epoch_of s g.tenant_id + 1 ≤ epoch_of s' g.tenant_id =
      (let step = next.epoch in rw tenant (omega (arith, step))) in
    let kept =
      run_keeps i (Reached g.tenant_id (epoch_of s g.tenant_id + 1))
        (Reached-IsKept i g.tenant_id (epoch_of s g.tenant_id + 1)) calls s'
        (record { bound = reached }) in
    let bound = kept.bound in omega (arith, before, after_all, bound)
