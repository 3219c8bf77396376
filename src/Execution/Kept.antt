-- ===== src/Execution/Kept.antt =====
-- What the calls of src/traceguard/control/execution.py keep, by one rule: a predicate on planes that
-- neither an entry of the audit log nor a write to the tasks, the grants or the reviews can break.
use trace_guard.Common.{
  ℕ, String, Bool, ◌≡◌, refl, ◌||◌, not, Option, none, some, List, [], ◌∷◌, ◌==◌, ltb, is_some,
  Result, ok, err, Bool-cases, Result-cases, Option-cases, inl, inr, after-holds,
}
use trace_guard.Control.Models.{
  Actor, ActionRequest, ExecutionGrant, DecisionResponse, Review, PolicyVersion, admin,
}
use trace_guard.Control.Platform.{Draw}
use trace_guard.Control.Plane.{Plane, Entry, RegisteredTask, require, append_audit}
use trace_guard.Control.Policies.{active_policy}
use trace_guard.Control.Actions.Evaluate.{evaluate}
use trace_guard.Control.Calls.{Call, evaluating, perform as perform_control}
use trace_guard.Control.Calls.Sound.{IsSound, append_audit-IsSound, same_log-IsSound}
use trace_guard.Control.Calls.Runs.{perform-IsSound}
use trace_guard.Authority.Calls.{TaskAuthority}
use trace_guard.Authority.Kernel.{CompiledAuthority, compile}
use trace_guard.Execution.Amount.{Decimal, payment_amount}
use trace_guard.Execution.Issuer.{Issuer, find_task}
use trace_guard.Execution.Register.{
  TaskRegistration, delegates, register_task, register_compiled, register_scope, register,
  bind_found, bind_legacy_domain,
}
use trace_guard.Execution.Issue.{
  use_review, store_grant, grant_amount, grant_policy, grant_reviewed, grant_decided, issue,
  find_review,
}
use trace_guard.Execution.Calls.{
  ServiceCall, controlling, registering, binding, issuing, perform, run,
}

-- The two planes agree on what decides: the policies, the log and its heads, the epochs and
-- the receipts.
pub record Agrees (s s' : Plane) : Type 0 where
  pub policies : s'.policies ≡ s.policies
  pub audits : s'.audits ≡ s.audits
  pub audit_heads : s'.audit_heads ≡ s.audit_heads
  pub epochs : s'.epochs ≡ s.epochs
  pub receipts : s'.receipts ≡ s.receipts

-- A predicate that the log's growth and other writes keep.
pub record IsKept (i : Issuer) (P : Plane → Type 0) : Type 0 where
  pub appended :
      (now : ℕ) (tenant : String) (entry : Entry) (s : Plane)
      → P s
      → P (append_audit i.platform now tenant entry s)
  pub rewritten : (s s' : Plane) → Agrees s s' → P s → P s'
  pub controlled : (d : Draw) (c : Call) (s : Plane) → P s → P (perform_control i.platform d c s)

module _ (i : Issuer) (P : Plane → Type 0) (kept : IsKept i P) where
  register_task_keeps :
      (d : Draw) (tenant : String) (actor : Actor) (r : TaskRegistration) (c : CompiledAuthority)
      (s : Plane)
      → P s
      → P (register_task i d tenant actor r c s).1
  unfolding register_task
  register_task_keeps d tenant actor r c s h =
      after-holds P (require s actor admin tenant) s _ h
        (elim (Bool-cases (is_some (s.tasks tenant r.task_id))) [
          | inl t ↦ rw t h
          | inr t ↦ rw t (
              kept.appended d.now tenant _ _ (
                kept.rewritten s _
                  (record {
                    policies = refl;
                    audits = refl;
                    audit_heads = refl;
                    epochs = refl;
                    receipts = refl;
                  })
                  h))
        ])

  register_compiled_keeps :
      (d : Draw) (tenant : String) (actor : Actor) (r : TaskRegistration) (s : Plane)
      (c : Result CompiledAuthority)
      → P s
      → P (register_compiled i d tenant actor r s c).1
  register_compiled_keeps d tenant actor r s (err x) h = h
  register_compiled_keeps d tenant actor r s (ok c) h = register_task_keeps d tenant actor r c s h

  register_scope_keeps :
      (d : Draw) (tenant : String) (actor : Actor) (r : TaskRegistration) (s : Plane)
      (o : Option TaskAuthority)
      → P s
      → P (register_scope i d tenant actor r s o).1
  register_scope_keeps d tenant actor r s none h = h
  register_scope_keeps d tenant actor r s (some scope) h = elim (Bool-cases (delegates scope)) [
    | inl t ↦ rw t h
    | inr t ↦ rw t (
        register_compiled_keeps d tenant actor r s
          (compile i.library i.registry scope r.tool_schemas) h)
  ]

  bind_found_keeps :
      (d : Draw) (tenant : String) (actor : Actor) (task_id domain : String) (s : Plane)
      (o : Option RegisteredTask)
      → P s
      → P (bind_found i d tenant actor task_id domain s o).1
  bind_found_keeps d tenant actor task_id domain s none h = h
  bind_found_keeps d tenant actor task_id domain s (some task) h =
      elim (Bool-cases (not (task.execution_domain == ""))) [
        | inl t ↦ rw t h
        | inr t ↦ rw t (
            kept.appended d.now tenant _ _ (
              kept.rewritten s _
                (record {
                  policies = refl;
                  audits = refl;
                  audit_heads = refl;
                  epochs = refl;
                  receipts = refl;
                })
                h))
      ]

  bind_legacy_domain_keeps :
      (d : Draw) (tenant : String) (actor : Actor) (task_id domain : String) (length : ℕ)
      (fenced : Bool) (s : Plane)
      → P s
      → P (bind_legacy_domain i d tenant actor task_id domain length fenced s).1
  unfolding bind_legacy_domain
  bind_legacy_domain_keeps d tenant actor task_id domain length fenced s h =
      elim (Bool-cases (not fenced || (domain == "" || ltb 128 length))) [
        | inl t ↦ rw t h
        | inr t ↦ rw t (
            after-holds P (require s actor admin tenant) s _ h
              (bind_found_keeps d tenant actor task_id domain s (s.tasks tenant task_id) h))
      ]

  use_review_keeps :
      (review_id : Option String) (nonce : String) (review : Option Review) (s : Plane)
      → P s
      → P (use_review i review_id nonce review s)
  use_review_keeps review_id nonce none s h = h
  use_review_keeps review_id nonce (some review) s h =
      kept.rewritten s _
        (record {
          policies = refl;
          audits = refl;
          audit_heads = refl;
          epochs = refl;
          receipts = refl;
        })
        h

  store_grant_keeps :
      (d : Draw) (actor : Actor) (review_id : Option String) (review : Option Review)
      (g : ExecutionGrant) (s : Plane)
      → P s
      → P (store_grant i d actor review_id review g s)
  unfolding store_grant
  store_grant_keeps d actor review_id review g s h = kept.appended d.now g.tenant_id _ _ (
      use_review_keeps review_id g.nonce review _ (
        kept.rewritten s _
          (record {
            policies = refl;
            audits = refl;
            audit_heads = refl;
            epochs = refl;
            receipts = refl;
          })
          h))

  grant_amount_keeps :
      (d : Draw) (actor : Actor) (action : ActionRequest) (audience : String)
      (review_id : Option String) (task : RegisteredTask) (review : Option Review)
      (policy : PolicyVersion) (epoch : ℕ) (s : Plane) (r : Result Decimal)
      → P s
      → P (grant_amount i d actor action audience review_id task review policy epoch s r).1
  grant_amount_keeps d actor action audience review_id task review policy epoch s (err x) h = h
  grant_amount_keeps d actor action audience review_id task review policy epoch s (ok amount) h =
      store_grant_keeps d actor review_id review _ s h

  grant_policy_keeps :
      (d : Draw) (actor : Actor) (action : ActionRequest) (audience : String)
      (review_id : Option String) (task : RegisteredTask) (review : Option Review) (s : Plane)
      (o : Option PolicyVersion)
      → P s
      → P (grant_policy i d actor action audience review_id task review s o).1
  grant_policy_keeps d actor action audience review_id task review s none h = h
  grant_policy_keeps d actor action audience review_id task review s (some policy) h =
      elim (Option-cases (s.epochs action.tenant_id)) [
        | inl e ↦ rw e h
        | inr (epoch, e) ↦ rw e (
            grant_amount_keeps d actor action audience review_id task review policy epoch s
              (payment_amount i.parse_amount action) h)
      ]

  grant_reviewed_keeps :
      (d : Draw) (actor : Actor) (action : ActionRequest) (audience : String)
      (review_id : Option String) (task : RegisteredTask) (s : Plane) (r : Result (Option Review))
      → P s
      → P (grant_reviewed i d actor action audience review_id task s r).1
  grant_reviewed_keeps d actor action audience review_id task s (err x) h = h
  grant_reviewed_keeps d actor action audience review_id task s (ok review) h =
      grant_policy_keeps d actor action audience review_id task review s
        (active_policy s action.tenant_id) h

  grant_decided_keeps :
      (d : Draw) (actor : Actor) (action : ActionRequest) (audience : String)
      (review_id : Option String) (task : RegisteredTask) (r : Result DecisionResponse × Plane)
      → P r.1
      → P (grant_decided i d actor action audience review_id task r).1
  grant_decided_keeps d actor action audience review_id task (err x, s) h = h
  grant_decided_keeps d actor action audience review_id task (ok decision, s) h =
      grant_reviewed_keeps d actor action audience review_id task s
        (find_review i d actor action review_id decision s) h

  issue_keeps :
      (first d : Draw) (actor : Actor) (action : ActionRequest) (audience : String)
      (review_id : Option String) (s : Plane)
      → P s
      → P (issue i first d actor action audience review_id s).1
  unfolding issue perform_control
  issue_keeps first d actor action audience review_id s h =
      elim (Result-cases (find_task i s actor action)) [
        | inl (x, e) ↦ rw e h
        | inr (task, e) ↦ rw e (
            grant_decided_keeps d actor action audience review_id task
              (evaluate i.platform first actor action s)
              (kept.controlled first (evaluating actor action) s h))
      ]

  pub perform_keeps : (c : ServiceCall) (s : Plane) → P s → P (perform i c s)
  unfolding perform register
  perform_keeps (controlling d c) s h = kept.controlled d c s h
  perform_keeps (registering d tenant actor r) s h =
      register_scope_keeps d tenant actor r s r.authority h
  perform_keeps (binding d tenant actor task_id domain length fenced) s h =
      bind_legacy_domain_keeps d tenant actor task_id domain length fenced s h
  perform_keeps (issuing first d actor action audience review_id) s h =
      issue_keeps first d actor action audience review_id s h

  -- What every call keeps, every run of calls keeps.
  pub run_keeps : (calls : List ServiceCall) (s : Plane) → P s → P (run i calls s)
  run_keeps [] s h = h
  run_keeps (c ∷ calls) s h = run_keeps calls (perform i c s) (perform_keeps c s h)

pub IsSound-IsKept : (i : Issuer) → IsKept i (IsSound i.platform)
IsSound-IsKept i = record {
  appended = append_audit-IsSound i.platform;
  rewritten = λ s s' a h. same_log-IsSound i.platform s s' a.policies a.audits a.audit_heads h;
  controlled = perform-IsSound i.platform;
}

-- From a sound plane every run of calls, of the control plane and of its execution authority,
-- whether they return or raise, leads to a sound one: at most one active policy for each tenant,
-- versions in order, and audit logs that verify.
pub run_service-IsSound :
    (i : Issuer) (calls : List ServiceCall) (s : Plane)
    → IsSound i.platform s
    → IsSound i.platform (run i calls s)
run_service-IsSound i calls s h = run_keeps i (IsSound i.platform) (IsSound-IsKept i) calls s h
