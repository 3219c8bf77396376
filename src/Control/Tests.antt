-- ===== src/Control/Tests.antt =====
-- A tenant whose policy is drafted, submitted and approved, and then decides actions: the model of
-- src/traceguard/control/service.py on concrete input.

use Prim.Native.String.{◌++◌}
use trace_guard.Common.{
  ℕ, String, ◌≡◌, refl, Bool, true, false, none, some, List, [], ◌∷◌, ◌==◌, if◌then◌else◌, ok,
}
use trace_guard.Json.{null}
use trace_guard.Json.Redact.{redact_value}
use trace_guard.Policy.Tests.{known_texts, two_rules, search}
use trace_guard.Policy.Matching.{matches, target_passes, outranked, select_rule}
use trace_guard.Control.Models.{
  Role, admin, approver, agent, Actor, PolicyVersion, allow, active, DecisionResponse, is_allow,
}
use trace_guard.Control.Platform.{Platform, Draw, action_digest}
use trace_guard.Control.Plane.{
  Plane, empty_plane, require, append_audit, unhashed, next_event, verify_from, verify_audit_chain,
}
use trace_guard.Control.Audit.{head_determines_log, NoCollision}
use trace_guard.Control.Policies.{
  create_draft, submit_policy, approve_policy, submit_found, approve_found, activate_found,
  active_policy,
}
use trace_guard.Control.Policies.Approval.{IsInstalled, approve_installs}
use trace_guard.Control.Actions.Decide.{decide, IsAuthorized, allow_needs_policy}
use trace_guard.Control.Actions.Evaluate.{evaluate, evaluate_keyed}
use trace_guard.Control.Calls.{Call, drafting, submitting, approving, perform, run}
use trace_guard.Control.Calls.Sound.{IsSound, empty_plane-IsSound}
use trace_guard.Control.Calls.Runs.{run-IsSound}

abbrev pub known : Platform
known = record {
  matching = known_texts;
  redact_text = λ s. s;
  is_sensitive = λ k. k == "password";
  hash_action = λ a. a.task_id ++ a.operation;
  hash_event = λ e. e.event_type ++ e.actor;
  dump_review = λ r. null;
  dump_evidence = λ e. null;
}

abbrev pub at : ℕ → Draw
at now = record {
  now = now;
  policy_id = "policy-1";
  audit_id = "audit-1";
  second_audit_id = "audit-2";
  review_id = "review-1";
  nonce = "nonce-1";
}

abbrev pub person : String → (Role → Bool) → Actor
person subject roles = record {
  subject = subject;
  roles = roles;
  service_key_id = none;
  tenant_ids = λ t. t == "acme";
  allowed_operations = none;
}

abbrev is_admin : Role → Bool
is_admin admin = true
is_admin _ = false

abbrev is_approver : Role → Bool
is_approver approver = true
is_approver _ = false

abbrev is_agent : Role → Bool
is_agent agent = true
is_agent _ = false

abbrev pub alice : Actor
alice = person "alice" is_admin

abbrev pub bob : Actor
bob = person "bob" is_approver

abbrev pub bot : Actor
bot = record (person "bot" is_agent) {
  service_key_id = some "key-1";
  allowed_operations = some (λ o. o == "search");
}

abbrev setup : List (Draw × Call)
setup =
    (at 10, drafting "acme" alice two_rules.contents)
    ∷ (at 20, submitting "acme" alice "policy-1")
    ∷ (at 30, approving "acme" alice "policy-1")
    ∷ []

abbrev proposed : Plane
proposed = run known setup empty_plane

abbrev pub installed : PolicyVersion
installed = record two_rules {
  status = active;
  approved_by = some "bob";
  activated_at = some 40;
  created_at = 10;
}

approved : (approve_policy known (at 40) "acme" bob "policy-1" proposed).0 ≡ ok installed
unfolding perform create_draft submit_policy approve_policy submit_found approve_found
    activate_found require append_audit
approved = refl

approve_installs_example :
    IsInstalled "acme" "policy-1" bob installed proposed
      (approve_policy known (at 40) "acme" bob "policy-1" proposed).1
approve_installs_example =
    approve_installs known (at 40) "acme" "policy-1" bob installed proposed approved

run-IsSound_example : IsSound known proposed
run-IsSound_example = run-IsSound known setup empty_plane (empty_plane-IsSound known)

-- A plane whose policy is in force.
abbrev pub in_force : Plane
in_force = record empty_plane {
  policies = λ t. if t == "acme" then installed ∷ [] else [];
  epochs = λ t. if t == "acme" then some 1 else none;
}

weather_allowed : is_allow (decide known "acme" (search "weather") in_force).decision ≡ true
unfolding decide active_policy select_rule outranked matches target_passes
weather_allowed = refl

allow_needs_policy_example : IsAuthorized known "acme" (search "weather") in_force
allow_needs_policy_example =
    allow_needs_policy known "acme" (search "weather") in_force weather_allowed

abbrev pub answer : DecisionResponse
answer = record {
  decision = allow;
  reason = "read only";
  policy_id = some "policy-1";
  policy_version = some 1;
  audit_id = "audit-1";
  review_id = none;
  rewritten_arguments = none;
  from_cache = false;
  action_digest = some "task-1search";
}

pub answered : (evaluate known (at 50) bot (search "weather") in_force).0 ≡ ok answer
unfolding evaluate evaluate_keyed decide active_policy select_rule outranked matches target_passes
    require action_digest
answered = refl

abbrev renamed : Plane
renamed = record proposed { suspended = λ t. true }

proposed_verified : verify_audit_chain known proposed "acme" ≡ true
unfolding perform create_draft submit_policy approve_policy submit_found approve_found
    activate_found require append_audit next_event unhashed verify_audit_chain verify_from
    redact_value
proposed_verified = refl

renamed_verified : verify_audit_chain known renamed "acme" ≡ true
unfolding perform create_draft submit_policy approve_policy submit_found approve_found
    activate_found require append_audit next_event unhashed verify_audit_chain verify_from
    redact_value
renamed_verified = refl

no_collision : NoCollision known (proposed.audits "acme") (renamed.audits "acme")
unfolding perform create_draft submit_policy approve_policy submit_found approve_found
    activate_found require append_audit next_event unhashed redact_value
no_collision = (λ h. refl, (λ h. refl, tt))

head_determines_log_example : proposed.audits "acme" ≡ renamed.audits "acme"
head_determines_log_example =
    head_determines_log known proposed renamed "acme" proposed_verified renamed_verified refl
      no_collision
