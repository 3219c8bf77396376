-- ===== src/Control/ReviewTests.antt =====
-- A review of src/traceguard/control/service.py, resolved on concrete input.
use trace_guard.Common.{◌≡◌, refl, Bool, true, false, none, some, ok, if◌then◌else◌, ◌==◌}
use trace_guard.Control.Models.{Role, reviewer, Actor, Review, review_pending, allowed}
use trace_guard.Control.Plane.{Plane, require}
use trace_guard.Control.Actions.Resolve.{resolve_review, resolve_found, resolved}
use trace_guard.Control.Actions.Reviews.{IsResolution, IsResolution-checked}
use trace_guard.Control.Tests.{known, at, person, in_force}

abbrev is_reviewer : Role → Bool
is_reviewer reviewer = true
is_reviewer _ = false

abbrev carol : Actor
carol = person "carol" is_reviewer

abbrev opened : Review
opened = record {
  review_id = "review-1";
  tenant_id = "acme";
  action_id = "action-1";
  audit_id = "audit-1";
  expires_at = 100;
  status = review_pending;
  resolution = none;
  resolved_by = none;
  reason = none;
  action_digest = "task-1search";
  agent_subject = "bot";
  service_key_id = "key-1";
  task_id = "task-1";
  policy_epoch = 1;
  grant_nonce = none;
}

abbrev under_review : Plane
under_review = record in_force { reviews = λ id. if id == "review-1" then some opened else none }

accepted :
    (resolve_review known (at 60) "acme" carol "review-1" allowed "fine" under_review).0
    ≡ ok (resolved carol allowed "fine" opened)
unfolding resolve_review resolve_found require
accepted = refl

IsResolution-checked_example :
    (require under_review carol reviewer "acme" ≡ ok tt)
    × IsResolution
        (at 60)
        "acme"
        "review-1"
        carol
        (resolved carol allowed "fine" opened)
        under_review
        (resolve_review known (at 60) "acme" carol "review-1" allowed "fine" under_review).1
IsResolution-checked_example =
    IsResolution-checked known (at 60) "acme" carol "review-1" allowed "fine"
      (resolved carol allowed "fine" opened) under_review accepted
