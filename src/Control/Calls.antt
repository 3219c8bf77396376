-- ===== src/Control/Calls.antt =====
-- The methods of `ControlPlane` in src/traceguard/control/service.py that change its state, as the
-- clients' calls. The lock makes them one sequence.
pub mod Sound
pub mod Receipts
pub mod Runs
use trace_guard.Common.{ℕ, String, Bool, List, [], ◌∷◌}
use trace_guard.Control.Models.{Actor, PolicyDraft, ActionRequest, ReviewResolution}
use trace_guard.Control.Platform.{Platform, Draw}
use trace_guard.Control.Plane.{Plane}
use trace_guard.Control.Policies.{
  create_draft, submit_policy, approve_policy, rollback, revoke_credential, suspend_tenant,
}
use trace_guard.Control.Actions.Evaluate.{evaluate}
use trace_guard.Control.Actions.Resolve.{resolve_review}

pub data Call : Type 0 where
  drafting : String → Actor → PolicyDraft → Call
  submitting approving rolling_back : String → Actor → String → Call
  revoking : String → Actor → String → ℕ → Call
  suspending : String → Actor → Bool → Call
  evaluating : Actor → ActionRequest → Call
  resolving : String → Actor → String → ReviewResolution → String → Call

module _ (p : Platform) where
  -- The plane that a call leaves, whether it returns or raises.
  unfoldable pub perform : Draw → Call → Plane → Plane
  perform d (drafting tenant actor contents) s = (create_draft p d tenant actor contents s).1
  perform d (submitting tenant actor id) s = (submit_policy p d tenant actor id s).1
  perform d (approving tenant actor id) s = (approve_policy p d tenant actor id s).1
  perform d (rolling_back tenant actor id) s = (rollback p d tenant actor id s).1
  perform d (revoking tenant actor key length) s =
      (revoke_credential p d tenant actor key length s).1
  perform d (suspending tenant actor on) s = (suspend_tenant p d tenant actor on s).1
  perform d (evaluating actor action) s = (evaluate p d actor action s).1
  perform d (resolving tenant actor id resolution reason) s =
      (resolve_review p d tenant actor id resolution reason s).1

  abbrev pub run : List (Draw × Call) → Plane → Plane
  run [] s = s
  run ((d, c) ∷ calls) s = run calls (perform d c s)
