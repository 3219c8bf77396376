-- ===== src/Execution/RoundTrip.antt =====
-- A grant that `issue` of src/traceguard/control/execution.py returns is accepted by `validate`.
use mathlib.Core.Path.{subst}
use trace_guard.Common.{
  ℕ, ◌<◌, ◌+◌, String, true, false, ◌≡◌, refl, sym, ap, ◌∙◌, Option, none, some, ◌==◌, leb,
  same_option, arith, eq_refl, ==→eq, eq→==, ok, and-eq-true,
}
use trace_guard.Control.Models.{Actor, ActionRequest, ExecutionGrant, Review, agent, executor}
use trace_guard.Control.Platform.{Draw, action_digest}
use trace_guard.Control.Plane.{Plane, RegisteredTask, require, append_audit}
use trace_guard.Control.Actions.Evaluate.{evaluate}
use trace_guard.Execution.Issuer.{Issuer}
use trace_guard.Execution.Issue.{
  or_empty, is_current, principal_of, is_stored, is_valid_grant, validate, unsigned_grant, signed,
  store_grant, issue, grant_life,
}
use trace_guard.Execution.Tasks.{IsTask, find_task-IsTask, find_task_complete}
use trace_guard.Execution.Issued.{IsIssued, issue-IsIssued}
use trace_guard.Execution.Frames.{evaluate-IsFramed}

-- The plane that a grant is stored in.
record IsStored (s s' : Plane) (g : ExecutionGrant) : Type 0 where
  pub tasks : s'.tasks ≡ s.tasks
  pub epochs : s'.epochs ≡ s.epochs
  pub suspended : s'.suspended ≡ s.suspended
  pub revoked : s'.revoked ≡ s.revoked
  pub issued : s'.issued g.nonce ≡ some g

store_grant-IsStored :
    (i : Issuer) (d : Draw) (actor : Actor) (review_id : Option String) (review : Option Review)
    (g : ExecutionGrant) (s : Plane)
    → IsStored s (store_grant i d actor review_id review g s) g
unfolding store_grant append_audit
store_grant-IsStored i d actor review_id none g s = record {
  tasks = refl;
  epochs = refl;
  suspended = refl;
  revoked = refl;
  issued = rw (eq_refl g.nonce) refl;
}
store_grant-IsStored i d actor review_id (some review) g s = record {
  tasks = refl;
  epochs = refl;
  suspended = refl;
  revoked = refl;
  issued = rw (eq_refl g.nonce) refl;
}

-- The principal of a grant may act where its agent may.
principal_require :
    (s s' : Plane) (actor : Actor) (tenant credential : String) (g : ExecutionGrant)
    → s'.suspended ≡ s.suspended
    → s'.revoked ≡ s.revoked
    → g.tenant_id ≡ tenant
    → actor.service_key_id ≡ some credential
    → g.service_key_id ≡ credential
    → require s actor agent tenant ≡ ok tt
    → require s' (principal_of g) agent tenant ≡ ok tt
unfolding require
principal_require s s' actor tenant credential g a b t k c h =
    rw (t, c, eq_refl tenant, a, b) (ground arith)

same_option-some : (o : Option String) (t : String) → same_option o (some t) ≡ true → o ≡ some t
same_option-some none t h = cc
same_option-some (some s) t h = rw (==→eq s t h) refl

-- What a grant says of its task and of the action.
record Describes (i : Issuer) (actor : Actor) (action : ActionRequest) (audience : String)
    (task : RegisteredTask) (now epoch : ℕ) (g : ExecutionGrant) : Type 0 where
  pub tenant : g.tenant_id ≡ action.tenant_id
  pub agent_subject : g.agent_subject ≡ actor.subject
  pub credential : g.service_key_id ≡ or_empty actor.service_key_id
  pub addressed : g.audience ≡ audience
  pub domain : g.execution_domain ≡ task.execution_domain
  pub digest : g.authority_digest ≡ task.compiled.digest
  pub same_action : g.action_digest ≡ action_digest i.platform action
  pub epoch_now : g.policy_epoch ≡ epoch
  pub expiry : g.expires_at ≡ now + grant_life
  pub key : g.key_id ≡ i.key_id
  pub signature : g.signature ≡ i.sign (record g { signature = "" })

issued-Describes :
    (i : Issuer) (first d : Draw) (actor : Actor) (action : ActionRequest) (audience : String)
    (review_id : Option String) (s : Plane) (g : ExecutionGrant) (s' : Plane)
    → (h : IsIssued i first d actor action audience review_id s g s')
    → Describes i actor action audience h.task d.now h.epoch g
unfolding unsigned_grant signed
issued-Describes i first d actor action audience review_id s g s' h = rw h.granted (record {
  tenant = refl;
  agent_subject = refl;
  credential = refl;
  addressed = refl;
  domain = refl;
  digest = refl;
  same_action = refl;
  epoch_now = refl;
  expiry = refl;
  key = refl;
  signature = refl;
})

principal-IsTask :
    (i : Issuer) (s s' : Plane) (actor : Actor) (action : ActionRequest) (audience : String)
    (task : RegisteredTask) (now epoch : ℕ) (g : ExecutionGrant)
    → s'.tasks ≡ s.tasks
    → s'.suspended ≡ s.suspended
    → s'.revoked ≡ s.revoked
    → Describes i actor action audience task now epoch g
    → IsTask i s actor action task
    → IsTask i s' (principal_of g) action task
principal-IsTask i s s' actor action audience task now epoch g a b c w t =
    let (own, bound) =
      and-eq-true (actor.subject == task.principal)
        (same_option actor.service_key_id (some task.credential)) t.owned in
    let key : actor.service_key_id ≡ some task.credential = same_option-some _ _ bound in
    let credential : g.service_key_id ≡ task.credential = w.credential ∙ ap or_empty key in
    record {
      agent_ok =
          principal_require s s' actor action.tenant_id task.credential g b c w.tenant key
            credential t.agent_ok;
      typed = t.typed;
      registered = rw a t.registered;
      owned = rw (w.agent_subject, credential, own, eq_refl task.credential) refl;
      bound = t.bound;
      permitted = t.permitted;
    }

valid_grant :
    (i : Issuer) (s' : Plane) (actor executing : Actor) (action : ActionRequest)
    (task : RegisteredTask) (now at epoch : ℕ) (g : ExecutionGrant)
    → ((x : ExecutionGrant) → i.verify x (i.sign x) ≡ true)
    → at < now + grant_life
    → s'.issued g.nonce ≡ some g
    → s'.epochs action.tenant_id ≡ some epoch
    → Describes i actor action executing.subject task now epoch g
    → is_valid_grant i at executing action g s' ≡ true
unfolding is_valid_grant
valid_grant i s' actor executing action task now at epoch g signs life stored current w =
    let live : leb g.expires_at at ≡ false = rw w.expiry (ground arith) in
    let addressed = eq→== _ _ w.addressed in
    let key = eq→== _ _ w.key in
    let there : is_stored i g (s'.issued g.nonce) ≡ true = rw stored (eq_refl (i.dump g)) in
    let accepted : i.verify (record g { signature = "" }) g.signature ≡ true =
      subst (λ x. i.verify (record g { signature = "" }) x ≡ true) (sym w.signature)
        (signs (record g { signature = "" })) in
    let same = eq→== _ _ w.same_action in
    let now_current : is_current (s'.epochs action.tenant_id) g.policy_epoch ≡ true =
      rw (current, w.epoch_now) (ground arith) in
    ground arith

-- A grant that issue returns is valid in the plane that issue leaves: for the executor that it
-- names, if that executor passes the tenant's authorization there, has a credential and is no
-- agent, before 60 seconds have passed, and where verify accepts what sign signs.
pub issued_validates :
    (i : Issuer) (first d : Draw) (actor executing : Actor) (action : ActionRequest)
    (review_id : Option String) (s : Plane) (g : ExecutionGrant) (at : ℕ)
    → ((x : ExecutionGrant) → i.verify x (i.sign x) ≡ true)
    → (issue i first d actor action executing.subject review_id s).0 ≡ ok g
    → require
        (issue i first d actor action executing.subject review_id s).1
        executing
        executor
        action.tenant_id
      ≡ ok tt
    → executing.roles agent ≡ false
    → (or_empty executing.service_key_id == "") ≡ false
    → at < d.now + grant_life
    → validate i at executing action g
        (issue i first d actor action executing.subject review_id s).1
      ≡ ok tt
unfolding validate
issued_validates i first d actor executing action review_id s g at signs h r a k life =
    let s' = (issue i first d actor action executing.subject review_id s).1 in
    let p = issue-IsIssued i first d actor action executing.subject review_id s g h in
    let w = issued-Describes i first d actor action executing.subject review_id s g s' p in
    let f = evaluate-IsFramed i.platform first actor action s in
    let st : IsStored (evaluate i.platform first actor action s).1 s' g =
      rw p.stored (store_grant-IsStored i d actor review_id p.review g _) in
    let t =
      principal-IsTask i s s' actor action executing.subject p.task d.now p.epoch g
        (st.tasks ∙ f.tasks) (st.suspended ∙ f.suspended) (st.revoked ∙ f.revoked) w
        (find_task-IsTask i s actor action p.task p.found) in
    let valid =
      valid_grant i s' actor executing action p.task d.now at p.epoch g signs life st.issued
        (ap (λ e. e action.tenant_id) st.epochs ∙ p.current) w in
    rw (r, a, k, valid, find_task_complete i s' (principal_of g) action p.task t)
      (rw (w.domain, w.digest, eq_refl p.task.execution_domain, eq_refl p.task.compiled.digest)
        refl)
