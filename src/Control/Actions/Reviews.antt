-- ===== src/Control/Actions/Reviews.antt =====
-- What a successful `resolve_review` of src/traceguard/control/service.py has checked and done.
use trace_guard.Common.{
  ℕ, ◌≤◌, String, ◌≡◌, ◌≢◌, refl, true, false, Option, none, some, ◌==◌, ltb, ok, arith, eq_refl,
  Bool-cases, Option-cases, Result-cases, inl, inr, ==→eq, ==→ne,
}
use trace_guard.Control.Models.{
  reviewer, Actor, Review, ReviewStatus, review_pending, review_resolved, review_expired,
  ReviewResolution,
}
use trace_guard.Control.Platform.{Platform, Draw}
use trace_guard.Control.Plane.{Plane, require, append_audit}
use trace_guard.Control.Actions.Resolve.{
  is_pending, epoch_is, resolved, resolve_found, resolve_review,
}

is_pending-eq : (x : ReviewStatus) → is_pending x ≡ true → x ≡ review_pending
is_pending-eq review_pending h = refl
is_pending-eq review_resolved h = cc
is_pending-eq review_expired h = cc

epoch_is-eq : (o : Option ℕ) (n : ℕ) → epoch_is o n ≡ true → o ≡ some n
epoch_is-eq none n h = cc
epoch_is-eq (some m) n h = ground arith

ltb-false : (a b : ℕ) → ltb a b ≡ false → b ≤ a
ltb-false a b h = ground arith

-- A resolution of the review `id`, with `r` the review that is returned.
pub record IsResolution (d : Draw) (tenant id : String) (actor : Actor) (r : Review) (s s' : Plane)
    : Type 0 where
  pub opened : Review
  pub found : s.reviews id ≡ some opened
  pub same_tenant : opened.tenant_id ≡ tenant
  pub was_pending : opened.status ≡ review_pending
  pub same_epoch : s.epochs tenant ≡ some opened.policy_epoch
  pub four_eyes : opened.agent_subject ≢ actor.subject
  pub in_time : d.now ≤ opened.expires_at
  pub resolved_by : r.resolved_by ≡ some actor.subject
  pub same_action : r.action_digest ≡ opened.action_digest
  pub recorded : s'.reviews id ≡ some r
  pub closed : r.status ≡ review_resolved

module _ (p : Platform) where
  resolve_found-IsResolution :
      (d : Draw) (tenant : String) (actor : Actor) (id : String) (w r : Review)
      (resolution : ReviewResolution) (reason : String) (s : Plane)
      → s.reviews id ≡ some w
      → (resolve_found p d tenant actor id w resolution reason s).0 ≡ ok r
      → IsResolution d tenant id actor r s
          (resolve_found p d tenant actor id w resolution reason s).1
  unfolding resolve_found append_audit
  resolve_found-IsResolution d tenant actor id w r resolution reason s found h =
      elim (Bool-cases (w.tenant_id == tenant)) [
        | inr a ↦ cc (rw a at h)
        | inl a ↦ elim (Bool-cases (is_pending w.status)) [
          | inr b ↦ cc (rw (a, b) at h)
          | inl b ↦ elim (Bool-cases (epoch_is (s.epochs tenant) w.policy_epoch)) [
            | inr c ↦ cc (rw (a, b, c) at h)
            | inl c ↦ elim (Bool-cases (w.agent_subject == actor.subject)) [
              | inl e ↦ cc (rw (a, b, c, e) at h)
              | inr e ↦ elim (Bool-cases (ltb w.expires_at d.now)) [
                | inl f ↦ cc (rw (a, b, c, e, f) at h)
                | inr f ↦
                    (let same : resolved actor resolution reason w ≡ r =
                        cc (rw (a, b, c, e, f) at h) in
                      rw (a, b, c, e, f)
                        (record {
                          opened = w;
                          found = found;
                          same_tenant = ==→eq w.tenant_id tenant a;
                          was_pending = is_pending-eq w.status b;
                          same_epoch = epoch_is-eq (s.epochs tenant) w.policy_epoch c;
                          four_eyes = ==→ne w.agent_subject actor.subject e;
                          in_time = ltb-false w.expires_at d.now f;
                          resolved_by = rw (← same) refl;
                          same_action = rw (← same) refl;
                          recorded = rw (eq_refl id, same) refl;
                          closed = rw (← same) refl;
                        }))
              ]
            ]
          ]
        ]
      ]

  -- A review is resolved only by a reviewer other than the action's proposer, while it is pending,
  -- before its expiry and in the policy epoch that it was opened in, and the resolved review is
  -- what the plane holds from then on.
  pub IsResolution-checked :
      (d : Draw) (tenant : String) (actor : Actor) (id : String) (resolution : ReviewResolution)
      (reason : String) (r : Review) (s : Plane)
      → (resolve_review p d tenant actor id resolution reason s).0 ≡ ok r
      → (require s actor reviewer tenant ≡ ok tt)
        × IsResolution d tenant id actor r s
            (resolve_review p d tenant actor id resolution reason s).1
  unfolding resolve_review
  IsResolution-checked d tenant actor id resolution reason r s h =
      elim (Result-cases (require s actor reviewer tenant)) [
        | inl (e, refused) ↦ cc (rw refused at h)
        | inr (u, granted) ↦ elim (Option-cases (s.reviews id)) [
          | inl missing ↦ cc (rw (granted, missing) at h)
          | inr (w, found) ↦ (
            granted,
            rw (granted, found)
                (resolve_found-IsResolution d tenant actor id w r resolution reason s found
                  (rw (granted, found) at h)),
          )
        ]
      ]
