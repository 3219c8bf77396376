-- ===== src/Control/Calls/Sound.antt =====
-- What holds of a control plane (src/traceguard/control/service.py) after any calls.
use trace_guard.Common.{
  ℕ, String, ◌≡◌, refl, Bool, true, List, ◌==◌, put, Result, arith, Bool-cases, Option-cases,
  after-holds, inl, inr, length, not, ◌||◌, ltb, eqb, find,
}
use trace_guard.Control.Models.{
  Role, admin, Actor, PolicyDraft, PolicyVersion, is_draft, is_pending_approval, is_rolled_back,
}
use trace_guard.Control.Platform.{Platform, Draw}
use trace_guard.Control.Plane.{
  Plane, Entry, empty_plane, require, append_audit, verify_audit_chain, verify_from,
}
use trace_guard.Control.Audit.{verify-append_audit}
use trace_guard.Control.Policies.{
  has_id, create_draft, submit_found, activate_found, approve_found, rollback_found, with_policy,
  revoke_credential, suspend_tenant, new_version,
}
use trace_guard.Control.Policies.Active.{
  IsGoverned, activate-IsGoverned, submit-IsGoverned, append-IsGoverned,
}

-- Every tenant's versions are in order with at most one active, and its audit log verifies.
pub record IsSound (p : Platform) (s : Plane) : Type 0 where
  pub governed : (tenant : String) → IsGoverned (s.policies tenant)
  pub verified : (tenant : String) → verify_audit_chain p s tenant ≡ true

module _ (p : Platform) where
  pub empty_plane-IsSound : IsSound p empty_plane
  unfolding verify_audit_chain verify_from
  empty_plane-IsSound = record {
    governed = λ tenant. record { one_active = omega arith; numbered = tt; approved = tt };
    verified = λ tenant. refl;
  }

  pub append_audit-IsSound :
      (now : ℕ) (tenant : String) (entry : Entry) (s : Plane)
      → IsSound p s
      → IsSound p (append_audit p now tenant entry s)
  unfolding append_audit
  append_audit-IsSound now tenant entry s h = record {
    governed = h.governed;
    verified = λ other. verify-append_audit p now tenant other entry s (h.verified other);
  }

  -- A write to what the invariant does not read.
  pub same_log-IsSound :
      (s s' : Plane)
      → s'.policies ≡ s.policies
      → s'.audits ≡ s.audits
      → s'.audit_heads ≡ s.audit_heads
      → IsSound p s
      → IsSound p s'
  unfolding verify_audit_chain
  same_log-IsSound s s' a b c h = record {
    governed = λ tenant. rw a (h.governed tenant);
    verified = λ tenant. rw (b, c) (h.verified tenant);
  }

  pub put_policies-IsSound :
      (tenant : String) (versions : List PolicyVersion) (s : Plane)
      → IsGoverned versions
      → IsSound p s
      → IsSound p (record s { policies = put s.policies tenant versions })
  unfolding verify_audit_chain
  put_policies-IsSound tenant versions s g h = record {
    governed = λ other. elim (Bool-cases (tenant == other)) [
      | inl t ↦ rw t g
      | inr f ↦ rw f (h.governed other)
    ];
    verified = h.verified;
  }

  pub create_draft-IsSound :
      (d : Draw) (tenant : String) (actor : Actor) (contents : PolicyDraft) (s : Plane)
      → IsSound p s
      → IsSound p (create_draft p d tenant actor contents s).1
  unfolding create_draft
  create_draft-IsSound d tenant actor contents s h =
      after-holds (IsSound p) (require s actor admin tenant) s _ h (
        append_audit-IsSound d.now tenant _ _ (
          put_policies-IsSound tenant _ s
            (append-IsGoverned (new_version p d tenant actor contents (s.policies tenant))
              (s.policies tenant) refl refl (h.governed tenant))
            h))

  -- A search that finds nothing raises, and writes nothing.
  pub with_policy-IsSound :
      (role : Role) (tenant : String) (actor : Actor) (id : String)
      (rest : PolicyVersion → Plane → Result PolicyVersion × Plane) (s : Plane)
      → ((v : PolicyVersion) → IsSound p (rest v s).1)
      → IsSound p s
      → IsSound p (with_policy p role tenant actor id rest s).1
  with_policy-IsSound role tenant actor id rest s k h =
      after-holds (IsSound p) (require s actor role tenant) s _ h
        (elim (Option-cases (find (has_id id) (s.policies tenant))) [
          | inl missing ↦ rw missing h
          | inr (v, found) ↦ rw found (k v)
        ])

  pub submit_found-IsSound :
      (d : Draw) (tenant : String) (actor : Actor) (v : PolicyVersion) (s : Plane)
      → IsSound p s
      → IsSound p (submit_found p d tenant actor v s).1
  unfolding submit_found
  submit_found-IsSound d tenant actor v s h =
      elim (Bool-cases (not (v.created_by == actor.subject))) [
        | inl bad ↦ rw bad h
        | inr author ↦ rw author (elim (Bool-cases (not (is_draft v.status))) [
          | inl bad ↦ rw bad h
          | inr fresh ↦ rw fresh (
              append_audit-IsSound d.now tenant _ _ (
                put_policies-IsSound tenant _ s
                  (submit-IsGoverned v.policy_id (s.policies tenant) (h.governed tenant)) h))
        ])
      ]

  pub activate_found-IsSound :
      (d : Draw) (event_type tenant : String) (actor : Actor) (v : PolicyVersion) (s : Plane)
      → IsSound p s
      → IsSound p (activate_found p d event_type tenant actor v s)
  unfolding activate_found
  activate_found-IsSound d event_type tenant actor v s h = append_audit-IsSound d.now tenant _ _ (
      same_log-IsSound _ _ refl refl refl (
        put_policies-IsSound tenant _ s
          (activate-IsGoverned d.now actor.subject v.policy_id (s.policies tenant)
            (h.governed tenant))
          h))

  pub approve_found-IsSound :
      (d : Draw) (tenant : String) (actor : Actor) (v : PolicyVersion) (s : Plane)
      → IsSound p s
      → IsSound p (approve_found p d tenant actor v s).1
  unfolding approve_found
  approve_found-IsSound d tenant actor v s h =
      elim (Bool-cases (not (is_pending_approval v.status))) [
        | inl bad ↦ rw bad h
        | inr waiting ↦ rw waiting (elim (Bool-cases (v.created_by == actor.subject)) [
          | inl own ↦ rw own h
          | inr other ↦ rw other (activate_found-IsSound d "policy.activated" tenant actor v s h)
        ])
      ]

  pub rollback_found-IsSound :
      (d : Draw) (tenant : String) (actor : Actor) (v : PolicyVersion) (s : Plane)
      → IsSound p s
      → IsSound p (rollback_found p d tenant actor v s).1
  unfolding rollback_found
  rollback_found-IsSound d tenant actor v s h = elim (Bool-cases (not (is_rolled_back v.status))) [
    | inl bad ↦ rw bad h
    | inr past ↦ rw past (activate_found-IsSound d "policy.rolled_back" tenant actor v s h)
  ]

  pub revoke_credential-IsSound :
      (d : Draw) (tenant : String) (actor : Actor) (key : String) (length : ℕ) (s : Plane)
      → IsSound p s
      → IsSound p (revoke_credential p d tenant actor key length s).1
  unfolding revoke_credential
  revoke_credential-IsSound d tenant actor key length s h =
      after-holds (IsSound p) (require s actor admin tenant) s _ h
        (elim (Bool-cases (eqb length 0 || ltb 256 length)) [
          | inl bad ↦ rw bad h
          | inr good ↦
              rw good
                (append_audit-IsSound d.now tenant _ _ (same_log-IsSound s _ refl refl refl h))
        ])

  pub suspend_tenant-IsSound :
      (d : Draw) (tenant : String) (actor : Actor) (on : Bool) (s : Plane)
      → IsSound p s
      → IsSound p (suspend_tenant p d tenant actor on s).1
  unfolding suspend_tenant
  suspend_tenant-IsSound d tenant actor on s h =
      after-holds (IsSound p) (require s actor admin tenant) s _ h
        (append_audit-IsSound d.now tenant _ _ (same_log-IsSound s _ refl refl refl h))
