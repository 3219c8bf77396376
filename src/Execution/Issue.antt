-- ===== src/Execution/Issue.antt =====
-- `issue` and `validate` of src/traceguard/control/execution.py. The draw of the evaluation comes
-- before the one of the rest.
use trace_guard.Common.{
  ℕ, ◌+◌, String, Bool, true, false, ◌&&◌, ◌||◌, not, Option, none, some, ◌==◌, if◌then◌else◌, leb,
  eqb, mem, put, same_option, Result, ok, err, authorization_error, key_error,
}
use trace_guard.Json.{Json, null, str, end, field}
use trace_guard.Control.Models.{
  Role, agent, executor, same_role, Actor, ActionRequest, is_allow, is_escalate, DecisionResponse,
  Review, review_resolved, ReviewStatus, ReviewResolution, allowed, ExecutionGrant, PolicyVersion,
}
use trace_guard.Control.Platform.{Draw, action_digest}
use trace_guard.Control.Plane.{Plane, RegisteredTask, require, append_audit}
use trace_guard.Control.Policies.{entry_of, active_policy}
use trace_guard.Control.Actions.Evaluate.{evaluate}
use trace_guard.Authority.Calls.{Number}
use trace_guard.Execution.Amount.{Decimal, payment_amount}
use trace_guard.Execution.Issuer.{Issuer, find_task}

abbrev pub or_empty : Option String → String
or_empty none = ""
or_empty (some s) = s

abbrev is_resolved : ReviewStatus → Bool
is_resolved review_resolved = true
is_resolved _ = false

abbrev allows : Option ReviewResolution → Bool
allows (some allowed) = true
allows _ = false

abbrev is_unused : Option String → Bool
is_unused none = true
is_unused (some nonce) = false

-- An epoch is the tenant's current one.
abbrev pub is_current : Option ℕ → ℕ → Bool
is_current none epoch = false
is_current (some n) epoch = eqb epoch n

-- `timedelta(seconds=60)`
abbrev pub grant_life : ℕ
grant_life = 60

abbrev limit_of : (Number → String) → Option Number → Option String
limit_of limit_text none = none
limit_of limit_text (some n) = some (limit_text n)

abbrev id_or_null : Option String → Json
id_or_null none = null
id_or_null (some s) = str s

abbrev only_agent : Role → Bool
only_agent role = same_role role agent

-- The principal that a grant speaks of.
abbrev pub principal_of : ExecutionGrant → Actor
principal_of grant = record {
  subject = grant.agent_subject;
  roles = only_agent;
  service_key_id = some grant.service_key_id;
  tenant_ids = λ tenant. grant.tenant_id == tenant;
  allowed_operations = none;
}

module _ (i : Issuer) where
  -- The review that an escalated action needs.
  unfoldable pub is_usable : Draw → Actor → ActionRequest → DecisionResponse → Plane → Review → Bool
  is_usable d actor action decision s review =
      same_option (some review.review_id) decision.review_id
      && is_resolved review.status
      && allows review.resolution
      && is_unused review.grant_nonce
      && not (leb review.expires_at d.now)
      && review.action_digest == action_digest i.platform action
      && is_current (s.epochs action.tenant_id) review.policy_epoch
      && review.agent_subject == actor.subject
      && same_option (some review.service_key_id) actor.service_key_id
      && review.task_id == action.task_id

  -- What `issue` finds after the decision: the review that it uses, if it needs one.
  abbrev pub review_for :
      Draw
      → Actor
      → ActionRequest
      → DecisionResponse
      → Plane
      → Option Review
      → Result (Option Review)
  review_for d actor action decision s none =
      err (authorization_error "action requires a current action-bound review")
  review_for d actor action decision s (some review) =
      if is_usable d actor action decision s review
      then ok (some review)
      else err (authorization_error "action requires a current action-bound review")

  unfoldable pub find_review :
      Draw
      → Actor
      → ActionRequest
      → Option String
      → DecisionResponse
      → Plane
      → Result (Option Review)
  find_review d actor action review_id decision s =
      if is_escalate decision.decision
      then review_for d actor action decision s (s.reviews (or_empty review_id))
      else if not (is_allow decision.decision)
      then err (authorization_error "policy does not authorize grant issuance")
      else ok none

  unfoldable pub unsigned_grant :
      Draw
      → Actor
      → ActionRequest
      → String
      → RegisteredTask
      → PolicyVersion
      → ℕ
      → Decimal
      → ExecutionGrant
  unsigned_grant d actor action audience task policy epoch amount = record {
    nonce = d.nonce;
    tenant_id = action.tenant_id;
    task_id = action.task_id;
    agent_subject = actor.subject;
    service_key_id = or_empty actor.service_key_id;
    audience = audience;
    execution_domain = task.execution_domain;
    action_digest = action_digest i.platform action;
    authority_digest = task.compiled.digest;
    adapter_digest = task.adapter_digest;
    policy_id = policy.policy_id;
    policy_epoch = epoch;
    issued_at = d.now;
    expires_at = d.now + grant_life;
    expires_zone = true;
    repeatable = mem action.operation task.compiled.scope.repeatable_tools;
    amount = amount.text;
    budget_limit = limit_of i.limit_text task.compiled.scope.max_amount;
    key_id = i.key_id;
    signature = "";
  }

  unfoldable pub signed : ExecutionGrant → ExecutionGrant
  signed g = record g { signature = i.sign g }

  -- `review.grant_nonce = grant.nonce`
  abbrev pub use_review : Option String → String → Option Review → Plane → Plane
  use_review review_id nonce none s = s
  use_review review_id nonce (some review) s = record s {
    reviews =
        put s.reviews (or_empty review_id) (some (record review { grant_nonce = some nonce }));
  }

  unfoldable pub store_grant :
      Draw → Actor → Option String → Option Review → ExecutionGrant → Plane → Plane
  store_grant d actor review_id review g s =
      append_audit i.platform d.now g.tenant_id
        (entry_of d "execution.granted" actor (
          field "nonce" (str g.nonce) (
            field "action_digest" (str g.action_digest)
              (field "review_id" (id_or_null review_id) end))))
        (use_review review_id g.nonce review (record s { issued = put s.issued g.nonce (some g) }))

  abbrev pub grant_amount :
      Draw
      → Actor
      → ActionRequest
      → String
      → Option String
      → RegisteredTask
      → Option Review
      → PolicyVersion
      → ℕ
      → Plane
      → Result Decimal
      → Result ExecutionGrant × Plane
  grant_amount d actor action audience review_id task review policy epoch s (err x) = (err x, s)
  grant_amount d actor action audience review_id task review policy epoch s (ok amount) =
      let g = signed (unsigned_grant d actor action audience task policy epoch amount) in
      (ok g, store_grant d actor review_id review g s)

  abbrev pub grant_epoch :
      Draw
      → Actor
      → ActionRequest
      → String
      → Option String
      → RegisteredTask
      → Option Review
      → PolicyVersion
      → Plane
      → Option ℕ
      → Result ExecutionGrant × Plane
  grant_epoch d actor action audience review_id task review policy s none =
      (err (key_error action.tenant_id), s)
  grant_epoch d actor action audience review_id task review policy s (some epoch) =
      grant_amount d actor action audience review_id task review policy epoch s
        (payment_amount i.parse_amount action)

  abbrev pub grant_policy :
      Draw
      → Actor
      → ActionRequest
      → String
      → Option String
      → RegisteredTask
      → Option Review
      → Plane
      → Option PolicyVersion
      → Result ExecutionGrant × Plane
  grant_policy d actor action audience review_id task review s none =
      (err (authorization_error "active policy is unavailable"), s)
  grant_policy d actor action audience review_id task review s (some policy) =
      grant_epoch d actor action audience review_id task review policy s (s.epochs action.tenant_id)

  abbrev pub grant_reviewed :
      Draw
      → Actor
      → ActionRequest
      → String
      → Option String
      → RegisteredTask
      → Plane
      → Result (Option Review)
      → Result ExecutionGrant × Plane
  grant_reviewed d actor action audience review_id task s (err x) = (err x, s)
  grant_reviewed d actor action audience review_id task s (ok review) =
      grant_policy d actor action audience review_id task review s
        (active_policy s action.tenant_id)

  abbrev pub grant_decided :
      Draw
      → Actor
      → ActionRequest
      → String
      → Option String
      → RegisteredTask
      → Result DecisionResponse × Plane
      → Result ExecutionGrant × Plane
  grant_decided d actor action audience review_id task (err x, s) = (err x, s)
  grant_decided d actor action audience review_id task (ok decision, s) =
      grant_reviewed d actor action audience review_id task s
        (find_review d actor action review_id decision s)

  abbrev pub issue_for :
      Draw
      → Draw
      → Actor
      → ActionRequest
      → String
      → Option String
      → Plane
      → Result RegisteredTask
      → Result ExecutionGrant × Plane
  issue_for first d actor action audience review_id s (err x) = (err x, s)
  issue_for first d actor action audience review_id s (ok task) =
      grant_decided d actor action audience review_id task
        (evaluate i.platform first actor action s)

  unfoldable pub issue :
      Draw
      → Draw
      → Actor
      → ActionRequest
      → String
      → Option String
      → Plane
      → Result ExecutionGrant × Plane
  issue first d actor action audience review_id s =
      issue_for first d actor action audience review_id s (find_task i s actor action)

  -- `self._issued.get(grant.nonce) == grant.model_dump_json()`
  abbrev pub is_stored : ExecutionGrant → Option ExecutionGrant → Bool
  is_stored g none = false
  is_stored g (some stored) = i.dump stored == i.dump g

  unfoldable pub is_valid_grant : ℕ → Actor → ActionRequest → ExecutionGrant → Plane → Bool
  is_valid_grant now actor action g s =
      g.audience == actor.subject
      && g.key_id == i.key_id
      && is_stored g (s.issued g.nonce)
      && i.verify (record g { signature = "" }) g.signature
      && not (leb g.expires_at now)
      && g.action_digest == action_digest i.platform action
      && is_current (s.epochs action.tenant_id) g.policy_epoch

  abbrev pub validate_task : ExecutionGrant → Result RegisteredTask → Result (Unit {0})
  validate_task g (err x) = err x
  validate_task g (ok task) =
      if not (task.execution_domain == g.execution_domain)
      then err (authorization_error "execution domain differs from approved task")
      else if not (task.compiled.digest == g.authority_digest)
      then err (authorization_error "task authority changed")
      else ok tt

  abbrev pub validate_required :
      ℕ → Actor → ActionRequest → ExecutionGrant → Plane → Result (Unit {0}) → Result (Unit {0})
  validate_required now actor action g s (err x) = err x
  validate_required now actor action g s (ok _) =
      if actor.roles agent || or_empty actor.service_key_id == ""
      then err (authorization_error "executor requires a distinct service identity")
      else if not (is_valid_grant now actor action g s)
      then err (authorization_error "execution grant is invalid, expired or revoked")
      else validate_task g (find_task i s (principal_of g) action)

  unfoldable pub validate : ℕ → Actor → ActionRequest → ExecutionGrant → Plane → Result (Unit {0})
  validate now actor action g s =
      validate_required now actor action g s (require s actor executor action.tenant_id)
