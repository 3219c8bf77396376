-- ===== src/Control/Policies/Active.antt =====
-- The versions of a tenant's policy in src/traceguard/control/service.py: at most one is active.
use trace_guard.Common.{
  ℕ, ◌+◌, ◌≤◌, String, ◌≡◌, refl, ap, ◌∙◌, true, false, ◌||◌, none, some, List, [], ◌∷◌, ◌++◌, map,
  length, find, find_last, count, count-append, All, All-append, is_some, arith, Bool-cases, inl,
  inr,
}
use trace_guard.Control.Models.{draft, pending_approval, is_active, is_rolled_back, PolicyVersion}
use trace_guard.Control.Policies.{
  has_id, update_first, with_status, retire, activate, is_active_version,
}

-- Versions are numbered in the order in which they were made.
abbrev pub IsNumbered : ℕ → List PolicyVersion → Type 0
IsNumbered n [] = Unit
IsNumbered n (v ∷ versions) = (v.version ≡ n) × IsNumbered (n + 1) versions

-- What has been active has an approver.
abbrev pub IsApproved : PolicyVersion → Type 0
IsApproved v = (is_active v.status || is_rolled_back v.status) ≡ true → is_some v.approved_by ≡ true

pub record IsGoverned (versions : List PolicyVersion) : Type 0 where
  pub one_active : count is_active_version versions ≤ 1
  pub numbered : IsNumbered 1 versions
  pub approved : All IsApproved versions

retire-inactive : (v : PolicyVersion) → is_active (retire v).status ≡ false
retire-inactive v = elim (Bool-cases (is_active v.status)) [ inl a ↦ rw a | inr a ↦ rw a a ]

retire-policy_id : (v : PolicyVersion) → (retire v).policy_id ≡ v.policy_id
retire-policy_id v = elim (Bool-cases (is_active v.status)) [ inl a ↦ rw a | inr a ↦ rw a ]

retire-version : (v : PolicyVersion) → (retire v).version ≡ v.version
retire-version v = elim (Bool-cases (is_active v.status)) [ inl a ↦ rw a | inr a ↦ rw a ]

retire-IsApproved : (v : PolicyVersion) → IsApproved v → IsApproved (retire v)
retire-IsApproved v h = ground arith

activate-retire :
    (now : ℕ) (subject : String) (v : PolicyVersion)
    → activate now subject (retire v) ≡ activate now subject v
activate-retire now subject v = elim (Bool-cases (is_active v.status)) [
  | inl a ↦ rw a
  | inr a ↦ rw a
]

count-retire : (versions : List PolicyVersion) → count is_active_version (map retire versions) ≡ 0
count-retire [] = refl
count-retire (v ∷ versions) = rw retire-inactive (omega (arith, count-retire versions))

find_last-retire :
    (versions : List PolicyVersion) → find_last is_active_version (map retire versions) ≡ none
find_last-retire [] = refl
find_last-retire (v ∷ versions) = rw (find_last-retire versions, retire-inactive)

module _ (id : String) (change : PolicyVersion → PolicyVersion) where
  count-update_first :
      (versions : List PolicyVersion)
      → count is_active_version (update_first id change versions)
        ≤ count is_active_version versions + 1
  count-update_first [] = omega arith
  count-update_first (v ∷ versions) = ground (arith, count-update_first versions)

  count-update_first_inactive :
      ((v : PolicyVersion) → is_active (change v).status ≡ false)
      → (versions : List PolicyVersion)
      → count is_active_version (update_first id change versions) ≤ count is_active_version versions
  count-update_first_inactive off [] = omega arith
  count-update_first_inactive off (v ∷ versions) =
      ground (arith, off v, count-update_first_inactive off versions)

  IsNumbered-update_first :
      ((v : PolicyVersion) → (change v).version ≡ v.version)
      → (n : ℕ) (versions : List PolicyVersion) → IsNumbered n versions
      → IsNumbered n (update_first id change versions)
  IsNumbered-update_first same n [] h = tt
  IsNumbered-update_first same n (v ∷ versions) h = elim (Bool-cases (has_id id v)) [
    | inl t ↦ rw t (same v ∙ h.0, h.1)
    | inr f ↦ rw f (h.0, IsNumbered-update_first same (n + 1) versions h.1)
  ]

  All-IsApproved-update_first :
      ((v : PolicyVersion) → IsApproved v → IsApproved (change v))
      → (versions : List PolicyVersion) → All IsApproved versions
      → All IsApproved (update_first id change versions)
  All-IsApproved-update_first keeps [] h = tt
  All-IsApproved-update_first keeps (v ∷ versions) h = elim (Bool-cases (has_id id v)) [
    | inl t ↦ rw t (keeps v h.0, h.1)
    | inr f ↦ rw f (h.0, All-IsApproved-update_first keeps versions h.1)
  ]

IsNumbered-retire :
    (n : ℕ) (versions : List PolicyVersion)
    → IsNumbered n versions
    → IsNumbered n (map retire versions)
IsNumbered-retire n [] h = tt
IsNumbered-retire n (v ∷ versions) h =
    (retire-version v ∙ h.0, IsNumbered-retire (n + 1) versions h.1)

All-IsApproved-retire :
    (versions : List PolicyVersion) → All IsApproved versions → All IsApproved (map retire versions)
All-IsApproved-retire [] h = tt
All-IsApproved-retire (v ∷ versions) h =
    (retire-IsApproved v h.0, All-IsApproved-retire versions h.1)

IsNumbered-append :
    (n : ℕ) (versions : List PolicyVersion) (v : PolicyVersion)
    → IsNumbered n versions
    → v.version ≡ n + length versions
    → IsNumbered n (versions ++ v ∷ [])
IsNumbered-append n [] v h e = (omega arith, tt)
IsNumbered-append n (w ∷ versions) v h e =
    (h.0, IsNumbered-append (n + 1) versions v h.1 (omega arith))

-- The three writes to a tenant's versions keep the invariant.
pub activate-IsGoverned :
    (now : ℕ) (subject id : String) (versions : List PolicyVersion)
    → IsGoverned versions
    → IsGoverned (update_first id (activate now subject) (map retire versions))
activate-IsGoverned now subject id versions g = record {
  one_active = omega (
    arith,
    count-update_first id (activate now subject) (map retire versions),
    count-retire versions,
  );
  numbered =
      IsNumbered-update_first id (activate now subject) (λ v. refl) 1 (map retire versions)
        (IsNumbered-retire 1 versions g.numbered);
  approved =
      All-IsApproved-update_first id (activate now subject) (λ v a t. refl) (map retire versions)
        (All-IsApproved-retire versions g.approved);
}

pub submit-IsGoverned :
    (id : String) (versions : List PolicyVersion)
    → IsGoverned versions
    → IsGoverned (update_first id (with_status pending_approval) versions)
submit-IsGoverned id versions g = record {
  one_active = omega (
    arith,
    count-update_first_inactive id (with_status pending_approval) (λ v. refl) versions,
    g.one_active,
  );
  numbered =
      IsNumbered-update_first id (with_status pending_approval) (λ v. refl) 1 versions g.numbered;
  approved =
      All-IsApproved-update_first id (with_status pending_approval) (λ v a t. cc) versions
        g.approved;
}

pub append-IsGoverned :
    (v : PolicyVersion) (versions : List PolicyVersion)
    → v.status ≡ draft
    → v.version ≡ length versions + 1
    → IsGoverned versions
    → IsGoverned (versions ++ v ∷ [])
append-IsGoverned v versions s n g = record {
  one_active = rw count-append (rw s (omega (arith, g.one_active)));
  numbered = IsNumbered-append 1 versions v g.numbered (omega arith);
  approved = All-append IsApproved versions (v ∷ []) g.approved (λ t. cc (rw s at t), tt);
}

-- After an activation the last active version is the one that was activated.
pub find_last-activate :
    (now : ℕ) (subject id : String) (versions : List PolicyVersion) (v : PolicyVersion)
    → find (has_id id) versions ≡ some v
    → find_last is_active_version (update_first id (activate now subject) (map retire versions))
      ≡ some (activate now subject v)
find_last-activate now subject id [] v f = cc
find_last-activate now subject id (x ∷ versions) v f = elim (Bool-cases (has_id id x)) [
  | inl t ↦
      (let same : x ≡ v = ground arith in
        let t' : has_id id (retire x) ≡ true = rw (retire-policy_id x) t in
        rw (t', find_last-retire versions)
          (ap some (activate-retire now subject x ∙ ap (activate now subject) same)))
  | inr t ↦
      (let later : find (has_id id) versions ≡ some v = ground arith in
        let t' : has_id id (retire x) ≡ false = rw (retire-policy_id x) t in
        rw (t', find_last-activate now subject id versions v later))
]
