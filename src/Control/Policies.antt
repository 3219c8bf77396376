-- ===== src/Control/Policies.antt =====
-- The life of a policy in src/traceguard/control/service.py: drafts, submission, approval, rollback,
-- and the administration of credentials and tenants.
pub mod Active
pub mod Approval
use trace_guard.Common.{
  ℕ, suc, ◌+◌, String, Bool, true, false, ◌&&◌, ◌||◌, not, Option, none, some, List, [], ◌∷◌, ◌++◌,
  map, ◌==◌, if◌then◌else◌, length, find, find_last, put, Result, ok, err, after,
  authorization_error, value_error, key_error, eqb, ltb,
}
use trace_guard.Json.{Json, str, bool, Fields, end, field}
use trace_guard.Control.Models.{
  Role, admin, approver, Actor, PolicyStatus, draft, pending_approval, active, rolled_back,
  is_draft, is_pending_approval, is_active, is_rolled_back, PolicyDraft, PolicyVersion,
}
use trace_guard.Control.Platform.{Platform, Draw}
use trace_guard.Control.Plane.{Plane, Entry, require, append_audit, bump_epoch}

abbrev pub has_id : String → PolicyVersion → Bool
has_id id v = v.policy_id == id

-- A write to the object that `_policy` returns: the first with the id.
abbrev pub update_first :
    String → (PolicyVersion → PolicyVersion) → List PolicyVersion → List PolicyVersion
update_first id change [] = []
update_first id change (v ∷ versions) =
    let rest = update_first id change versions in
    if has_id id v then change v ∷ versions else v ∷ rest

abbrev pub with_status : PolicyStatus → PolicyVersion → PolicyVersion
with_status status v = record v { status = status }

-- The loop that takes the active policies back.
abbrev pub retire : PolicyVersion → PolicyVersion
retire v = if is_active v.status then with_status rolled_back v else v

abbrev pub activate : ℕ → String → PolicyVersion → PolicyVersion
activate now subject v = record v {
  status = active;
  approved_by = some subject;
  activated_at = some now;
}

-- `active_policy`: the last active one.
abbrev pub is_active_version : PolicyVersion → Bool
is_active_version v = is_active v.status

unfoldable pub active_policy : Plane → String → Option PolicyVersion
active_policy s tenant = find_last is_active_version (s.policies tenant)

abbrev pub policy_fields : String → Fields
policy_fields id = field "policy_id" (str id) end

abbrev pub entry_of : Draw → String → Actor → Fields → Entry
entry_of d event_type actor fields = record {
  audit_id = d.audit_id;
  event_type = event_type;
  actor = actor.subject;
  payload = fields;
}

-- `suspended.add` and `suspended.discard`
abbrev pub set_member : (String → Bool) → String → Bool → String → Bool
set_member members key value k = if key == k then value else members k

module _ (p : Platform) where
  unfoldable pub revoke_credential :
      Draw → String → Actor → String → ℕ → Plane → Result (Unit {0}) × Plane
  revoke_credential d tenant actor credential length s = after (require s actor admin tenant) s (
      if eqb length 0 || ltb 256 length then (err (value_error "invalid credential ID"), s) else (
        ok tt,
        append_audit p d.now tenant
            (entry_of d "credential.revoked" actor (field "credential_id" (str credential) end))
            (bump_epoch tenant
              (record s { revoked = λ t c. (tenant == t && credential == c) || s.revoked t c })),
      ))

  unfoldable pub suspend_tenant : Draw → String → Actor → Bool → Plane → Result (Unit {0}) × Plane
  suspend_tenant d tenant actor suspended s = after (require s actor admin tenant) s (
      (
        ok tt,
        append_audit p d.now tenant
            (entry_of d "tenant.suspension" actor (field "suspended" (bool suspended) end))
            (bump_epoch tenant (record s { suspended = set_member s.suspended tenant suspended })),
      ))

  abbrev pub new_version : Draw → String → Actor → PolicyDraft → List PolicyVersion → PolicyVersion
  new_version d tenant actor contents versions = record {
    policy_id = d.policy_id;
    tenant_id = tenant;
    version = length versions + 1;
    contents = contents;
    status = draft;
    created_by = actor.subject;
    approved_by = none;
    activated_at = none;
    created_at = d.now;
  }

  unfoldable pub create_draft :
      Draw → String → Actor → PolicyDraft → Plane → Result PolicyVersion × Plane
  create_draft d tenant actor contents s = after (require s actor admin tenant) s (
      let version = new_version d tenant actor contents (s.policies tenant) in
      (
        ok version,
        append_audit p d.now tenant
            (entry_of d "policy.drafted" actor (policy_fields version.policy_id))
            (record s { policies = put s.policies tenant (s.policies tenant ++ version ∷ []) }),
      ))

  -- What the rest of `submit_policy` does with the policy that was found.
  unfoldable pub submit_found :
      Draw → String → Actor → PolicyVersion → Plane → Result PolicyVersion × Plane
  submit_found d tenant actor v s =
      if not (v.created_by == actor.subject)
      then (err (authorization_error "only the policy author may submit this draft"), s)
      else if not (is_draft v.status)
      then (err (value_error "only drafts may be submitted"), s)
      else (
        ok (with_status pending_approval v),
        append_audit p d.now tenant
            (entry_of d "policy.submitted" actor (policy_fields v.policy_id))
            (record s {
              policies =
                  put s.policies tenant
                    (update_first v.policy_id (with_status pending_approval) (s.policies tenant));
            }),
      )

  -- The activation that `approve_policy` and `rollback` end with.
  unfoldable pub activate_found : Draw → String → String → Actor → PolicyVersion → Plane → Plane
  activate_found d event_type tenant actor v s =
      append_audit p d.now tenant (entry_of d event_type actor (policy_fields v.policy_id)) (
        bump_epoch tenant (record s {
          policies = put s.policies tenant (
              update_first v.policy_id (activate d.now actor.subject)
                (map retire (s.policies tenant)));
        }))

  unfoldable pub approve_found :
      Draw → String → Actor → PolicyVersion → Plane → Result PolicyVersion × Plane
  approve_found d tenant actor v s =
      if not (is_pending_approval v.status)
      then (err (value_error "policy is not pending approval"), s)
      else if v.created_by == actor.subject
      then (err (authorization_error "policy author cannot approve their own change"), s)
      else (
        ok (activate d.now actor.subject v),
        activate_found d "policy.activated" tenant actor v s,
      )

  unfoldable pub rollback_found :
      Draw → String → Actor → PolicyVersion → Plane → Result PolicyVersion × Plane
  rollback_found d tenant actor v s =
      if not (is_rolled_back v.status)
      then (err (value_error "only a historical policy can be restored"), s)
      else (
        ok (activate d.now actor.subject v),
        activate_found d "policy.rolled_back" tenant actor v s,
      )

  -- `_require`, then `_policy`, then the rest of the method.
  abbrev pub with_policy :
      Role
      → String
      → Actor
      → String
      → (PolicyVersion → Plane → Result PolicyVersion × Plane)
      → Plane
      → Result PolicyVersion × Plane
  with_policy role tenant actor id rest s =
      after (require s actor role tenant) s (elim (find (has_id id) (s.policies tenant)) [
        | none ↦ (err (key_error "policy not found"), s)
        | some v ↦ rest v s
      ])

  unfoldable pub submit_policy :
      Draw → String → Actor → String → Plane → Result PolicyVersion × Plane
  submit_policy d tenant actor id = with_policy admin tenant actor id (submit_found d tenant actor)

  unfoldable pub approve_policy :
      Draw → String → Actor → String → Plane → Result PolicyVersion × Plane
  approve_policy d tenant actor id =
      with_policy approver tenant actor id (approve_found d tenant actor)

  unfoldable pub rollback : Draw → String → Actor → String → Plane → Result PolicyVersion × Plane
  rollback d tenant actor id = with_policy approver tenant actor id (rollback_found d tenant actor)
