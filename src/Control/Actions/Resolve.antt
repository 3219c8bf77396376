-- ===== src/Control/Actions/Resolve.antt =====
-- `resolve_review` of src/traceguard/control/service.py. An expired review is marked before the
-- raise, and the mark stays.
use trace_guard.Common.{
  ℕ, String, Bool, true, false, not, Option, none, some, ◌==◌, ltb, eqb, if◌then◌else◌, put, Result,
  ok, err, after, authorization_error, value_error, key_error,
}
use trace_guard.Control.Models.{
  reviewer, Actor, Review, ReviewStatus, review_pending, review_resolved, review_expired,
  ReviewResolution,
}
use trace_guard.Control.Platform.{Platform, Draw}
use trace_guard.Control.Plane.{Plane, require, append_audit}
use trace_guard.Control.Actions.Evaluate.{dumped}

abbrev pub is_pending : ReviewStatus → Bool
is_pending review_pending = true
is_pending _ = false

-- `review.policy_epoch != self._epochs.get(tenant_id)`
abbrev pub epoch_is : Option ℕ → ℕ → Bool
epoch_is none n = false
epoch_is (some m) n = eqb n m

abbrev pub expire : Review → Review
expire r = record r { status = review_expired }

abbrev pub resolved : Actor → ReviewResolution → String → Review → Review
resolved actor resolution reason r = record r {
  status = review_resolved;
  resolution = some resolution;
  resolved_by = some actor.subject;
  reason = some reason;
}

module _ (p : Platform) where
  unfoldable pub resolve_found :
      Draw
      → String
      → Actor
      → String
      → Review
      → ReviewResolution
      → String
      → Plane
      → Result Review × Plane
  resolve_found d tenant actor id r resolution reason s =
      if not (r.tenant_id == tenant)
      then (err (key_error "review not found"), s)
      else if not (is_pending r.status)
      then (err (value_error "review has already been resolved"), s)
      else if not (epoch_is (s.epochs tenant) r.policy_epoch)
      then (err (value_error "review policy is stale"), s)
      else if r.agent_subject == actor.subject
      then (err (authorization_error "action proposer cannot approve their own action"), s)
      else if ltb r.expires_at d.now
      then (
        err (value_error "review has expired"),
        record s { reviews = put s.reviews id (some (expire r)) },
      )
      else (
        ok (resolved actor resolution reason r),
        append_audit p d.now tenant
            (record {
              audit_id = d.audit_id;
              event_type = "review.resolved";
              actor = actor.subject;
              payload = dumped (p.dump_review (resolved actor resolution reason r));
            })
            (record s { reviews = put s.reviews id (some (resolved actor resolution reason r)) }),
      )

  unfoldable pub resolve_review :
      Draw → String → Actor → String → ReviewResolution → String → Plane → Result Review × Plane
  resolve_review d tenant actor id resolution reason s =
      after (require s actor reviewer tenant) s (elim (s.reviews id) [
        | none ↦ (err (key_error "review not found"), s)
        | some r ↦ resolve_found d tenant actor id r resolution reason s
      ])
