-- ===== src/Control/Policies/Approval.antt =====
-- What a successful `approve_policy` of src/traceguard/control/service.py has checked and done.
use mathlib.Core.Path.{subst}
use trace_guard.Common.{
  ◌+◌, String, ◌≡◌, ◌≢◌, refl, sym, ap, ◌∙◌, true, some, ◌==◌, ok, find, find-passes, eq_refl,
  Bool-cases, Option-cases, Result-cases, inl, inr, ==→eq, ==→ne,
}
use trace_guard.Control.Models.{
  approver, Actor, PolicyStatus, pending_approval, draft, active, rolled_back, is_pending_approval,
  PolicyVersion,
}
use trace_guard.Control.Platform.{Platform, Draw}
use trace_guard.Control.Plane.{Plane, require, append_audit, epoch_of}
use trace_guard.Control.Policies.{
  has_id, activate, active_policy, activate_found, approve_found, approve_policy,
}
use trace_guard.Control.Policies.Active.{find_last-activate}

is_pending_approval-eq : (x : PolicyStatus) → is_pending_approval x ≡ true → x ≡ pending_approval
is_pending_approval-eq pending_approval h = refl
is_pending_approval-eq draft h = cc
is_pending_approval-eq active h = cc
is_pending_approval-eq rolled_back h = cc

-- An approval of `id` that made `v` the active policy.
pub record IsInstalled (tenant id : String) (actor : Actor) (v : PolicyVersion) (s s' : Plane)
    : Type 0 where
  pub proposal : PolicyVersion
  pub found : find (has_id id) (s.policies tenant) ≡ some proposal
  pub was_pending : proposal.status ≡ pending_approval
  pub four_eyes : proposal.created_by ≢ actor.subject
  pub same_contents : v.contents ≡ proposal.contents
  pub approved_by : v.approved_by ≡ some actor.subject
  pub is_current : active_policy s' tenant ≡ some v
  pub new_epoch : epoch_of s' tenant ≡ epoch_of s tenant + 1

module _ (p : Platform) where
  active_policy-activate :
      (d : Draw) (event_type tenant id : String) (actor : Actor) (w : PolicyVersion) (s : Plane)
      → find (has_id id) (s.policies tenant) ≡ some w
      → active_policy (activate_found p d event_type tenant actor w s) tenant
        ≡ some (activate d.now actor.subject w)
  unfolding active_policy activate_found append_audit
  active_policy-activate d event_type tenant id actor w s found =
      let same : w.policy_id ≡ id =
        ==→eq w.policy_id id (find-passes (has_id id) (s.policies tenant) w found) in
      let itself : find (has_id w.policy_id) (s.policies tenant) ≡ some w =
        subst (λ (i : String). find (has_id i) (s.policies tenant) ≡ some w) (sym same) found in
      rw (eq_refl tenant)
        (find_last-activate d.now actor.subject w.policy_id (s.policies tenant) w itself)

  epoch_of-activate :
      (d : Draw) (event_type tenant : String) (actor : Actor) (w : PolicyVersion) (s : Plane)
      → epoch_of (activate_found p d event_type tenant actor w s) tenant ≡ epoch_of s tenant + 1
  unfolding activate_found append_audit
  epoch_of-activate d event_type tenant actor w s = rw (eq_refl tenant)

  approve_found-IsInstalled :
      (d : Draw) (tenant id : String) (actor : Actor) (v w : PolicyVersion) (s : Plane)
      → find (has_id id) (s.policies tenant) ≡ some w
      → (approve_found p d tenant actor w s).0 ≡ ok v
      → IsInstalled tenant id actor v s (approve_found p d tenant actor w s).1
  unfolding approve_found
  approve_found-IsInstalled d tenant id actor v w s found h =
      elim (Bool-cases (is_pending_approval w.status)) [
        | inr other ↦ cc (rw other at h)
        | inl pending ↦ elim (Bool-cases (w.created_by == actor.subject)) [
          | inl own ↦ cc (rw (pending, own) at h)
          | inr foreign ↦
              (let same : activate d.now actor.subject w ≡ v = cc (rw (pending, foreign) at h) in
                rw (pending, foreign)
                  (record {
                    proposal = w;
                    found = found;
                    was_pending = is_pending_approval-eq w.status pending;
                    four_eyes = ==→ne w.created_by actor.subject foreign;
                    same_contents = rw (← same) refl;
                    approved_by = rw (← same) refl;
                    is_current =
                        active_policy-activate d "policy.activated" tenant id actor w s found
                        ∙ ap some same;
                    new_epoch = epoch_of-activate d "policy.activated" tenant actor w s;
                  }))
        ]
      ]

  -- An approval that returns has found the policy pending, and its author is not the approver. The
  -- version that it returns has the contents that were proposed, names the approver, and is the
  -- tenant's active policy from then on, in an epoch that is one later.
  pub approve_installs :
      (d : Draw) (tenant id : String) (actor : Actor) (v : PolicyVersion) (s : Plane)
      → (approve_policy p d tenant actor id s).0 ≡ ok v
      → IsInstalled tenant id actor v s (approve_policy p d tenant actor id s).1
  unfolding approve_policy
  approve_installs d tenant id actor v s h = elim (Result-cases (require s actor approver tenant)) [
    | inl (e, refused) ↦ cc (rw refused at h)
    | inr (u, granted) ↦ elim (Option-cases (find (has_id id) (s.policies tenant))) [
      | inl missing ↦ cc (rw (granted, missing) at h)
      | inr (w, found) ↦
          rw (granted, found)
            (approve_found-IsInstalled d tenant id actor v w s found (rw (granted, found) at h))
    ]
  ]
