-- ===== src/Execution/Validated.antt =====
-- What `validate` of src/traceguard/control/execution.py checks.
use trace_guard.Common.{
  ℕ, ◌<◌, true, false, ◌||◌, ◌≡◌, refl, sym, Option, none, some, ◌==◌, eqb→eq, Bool-cases,
  Result-cases, inl, inr, arith, ==→eq, Result, ok, err,
}
use trace_guard.Control.Models.{Actor, ActionRequest, ExecutionGrant, agent, executor}
use trace_guard.Control.Platform.{action_digest}
use trace_guard.Control.Plane.{Plane, RegisteredTask, require}
use trace_guard.Execution.Issuer.{Issuer}
use trace_guard.Execution.Issue.{
  or_empty, is_current, principal_of, is_stored, is_valid_grant, validate_task, validate,
}
use trace_guard.Execution.Tasks.{IsTask, find_task-IsTask}

-- What holds when a grant is validated for an executor.
pub record IsValidated (i : Issuer) (now : ℕ) (actor : Actor) (action : ActionRequest)
    (g : ExecutionGrant) (s : Plane) : Type 0 where
  pub executor_ok : require s actor executor action.tenant_id ≡ ok tt
  pub distinct : actor.roles agent ≡ false
  pub addressed : g.audience ≡ actor.subject
  pub stored : ExecutionGrant
  pub issued : s.issued g.nonce ≡ some stored
  pub same_text : i.dump stored ≡ i.dump g
  pub signed : i.verify (record g { signature = "" }) g.signature ≡ true
  pub live : now < g.expires_at
  pub same_action : g.action_digest ≡ action_digest i.platform action
  pub current : s.epochs action.tenant_id ≡ some g.policy_epoch
  pub task : RegisteredTask
  pub authorized : IsTask i s (principal_of g) action task
  pub same_domain : task.execution_domain ≡ g.execution_domain
  pub same_authority : task.compiled.digest ≡ g.authority_digest

is_stored-cases :
    (i : Issuer) (g : ExecutionGrant) (o : Option ExecutionGrant)
    → is_stored i g o ≡ true
    → (stored : ExecutionGrant) × (o ≡ some stored) × (i.dump stored ≡ i.dump g)
is_stored-cases i g none h = cc
is_stored-cases i g (some stored) h = (stored, refl, ==→eq _ _ h)

is_current-cases : (i : Issuer) (o : Option ℕ) (n : ℕ) → is_current o n ≡ true → o ≡ some n
is_current-cases i none n h = cc
is_current-cases i (some m) n h = rw (sym (eqb→eq n m h)) refl

-- The tests of a grant that is valid.
pub record IsValidGrant (i : Issuer) (now : ℕ) (actor : Actor) (action : ActionRequest)
    (g : ExecutionGrant) (s : Plane) : Type 0 where
  pub addressed : g.audience ≡ actor.subject
  pub stored : is_stored i g (s.issued g.nonce) ≡ true
  pub signed : i.verify (record g { signature = "" }) g.signature ≡ true
  pub live : now < g.expires_at
  pub same_action : g.action_digest ≡ action_digest i.platform action
  pub current : is_current (s.epochs action.tenant_id) g.policy_epoch ≡ true

is_valid_grant-IsValidGrant :
    (i : Issuer) (now : ℕ) (actor : Actor) (action : ActionRequest) (g : ExecutionGrant) (s : Plane)
    → is_valid_grant i now actor action g s ≡ true
    → IsValidGrant i now actor action g s
unfolding is_valid_grant
is_valid_grant-IsValidGrant i now actor action g s h = record {
  addressed = ==→eq _ _ (ground arith);
  stored = ground arith;
  signed = ground arith;
  live = ground arith;
  same_action = ==→eq _ _ (ground arith);
  current = ground arith;
}

validate_task-cases :
    (i : Issuer) (g : ExecutionGrant) (r : Result RegisteredTask)
    → validate_task i g r ≡ ok tt
    → (task : RegisteredTask) × (r ≡ ok task)
      × (task.execution_domain ≡ g.execution_domain)
      × (task.compiled.digest ≡ g.authority_digest)
validate_task-cases i g (err x) h = cc
validate_task-cases i g (ok task) h =
    elim (Bool-cases (task.execution_domain == g.execution_domain)) [
      | inr f ↦ cc (rw f at h)
      | inl d ↦ elim (Bool-cases (task.compiled.digest == g.authority_digest)) [
        | inr f ↦ cc (rw (d, f) at h)
        | inl e ↦ (task, refl, ==→eq _ _ d, ==→eq _ _ e)
      ]
    ]

-- If validate returns, the executor is authorized, no agent and the one that the grant names; the
-- plane has an issued grant with the same nonce and text; the signature is accepted, the grant
-- has not expired, it is for this very action and the current policy epoch; and the task is
-- registered for the grant's agent and credential, with the grant's domain and authority digest,
-- in a strict authority that allows the action.
pub validate-IsValidated :
    (i : Issuer) (now : ℕ) (actor : Actor) (action : ActionRequest) (g : ExecutionGrant) (s : Plane)
    → validate i now actor action g s ≡ ok tt
    → IsValidated i now actor action g s
unfolding validate
validate-IsValidated i now actor action g s h =
    elim (Result-cases (require s actor executor action.tenant_id)) [
      | inl (x, e) ↦ cc (rw e at h)
      | inr (u, e) ↦ elim (Bool-cases (actor.roles agent || or_empty actor.service_key_id == "")) [
        | inl f ↦ cc (rw (e, f) at h)
        | inr distinct ↦ elim (Bool-cases (is_valid_grant i now actor action g s)) [
          | inr f ↦ cc (rw (e, distinct, f) at h)
          | inl valid ↦
              (let v = is_valid_grant-IsValidGrant i now actor action g s valid in
                let (stored, there, text) = is_stored-cases i g _ v.stored in
                let (task, found, domain, digest) =
                  validate_task-cases i g _ (rw (e, distinct, valid) at h) in
                record {
                  executor_ok = e;
                  distinct = ground arith;
                  addressed = v.addressed;
                  stored = stored;
                  issued = there;
                  same_text = text;
                  signed = v.signed;
                  live = v.live;
                  same_action = v.same_action;
                  current = is_current-cases i _ _ v.current;
                  task = task;
                  authorized = find_task-IsTask i s (principal_of g) action task found;
                  same_domain = domain;
                  same_authority = digest;
                })
        ]
      ]
    ]
