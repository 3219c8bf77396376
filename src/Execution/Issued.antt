-- ===== src/Execution/Issued.antt =====
-- What `issue` of src/traceguard/control/execution.py returns, and that the grant is valid.
use trace_guard.Common.{
  ℕ, String, ◌≡◌, refl, sym, ap, Option, none, some, Result, ok, err, ok_injective,
}
use trace_guard.Control.Models.{
  Actor, ActionRequest, ExecutionGrant, DecisionResponse, Review, PolicyVersion,
}
use trace_guard.Control.Platform.{Draw}
use trace_guard.Control.Plane.{Plane, RegisteredTask}
use trace_guard.Control.Policies.{active_policy}
use trace_guard.Control.Actions.Evaluate.{evaluate}
use trace_guard.Execution.Amount.{Decimal, payment_amount}
use trace_guard.Execution.Issuer.{Issuer, find_task}
use trace_guard.Execution.Issue.{
  find_review, unsigned_grant, signed, store_grant, grant_amount, grant_epoch, grant_policy,
  grant_reviewed, grant_decided, issue_for, issue,
}

-- What stands behind a grant that was issued, and the plane that is left.
pub record IsIssued (i : Issuer) (first d : Draw) (actor : Actor) (action : ActionRequest)
    (audience : String) (review_id : Option String) (s : Plane) (g : ExecutionGrant) (s' : Plane)
    : Type 0 where
  pub task : RegisteredTask
  pub found : find_task i s actor action ≡ ok task
  pub decision : DecisionResponse
  pub decided : (evaluate i.platform first actor action s).0 ≡ ok decision
  pub review : Option Review
  pub reviewed :
      find_review i d actor action review_id decision (evaluate i.platform first actor action s).1
      ≡ ok review
  pub policy : PolicyVersion
  pub in_force :
      active_policy (evaluate i.platform first actor action s).1 action.tenant_id ≡ some policy
  pub epoch : ℕ
  pub current : (evaluate i.platform first actor action s).1.epochs action.tenant_id ≡ some epoch
  pub amount : Decimal
  pub priced : payment_amount i.parse_amount action ≡ ok amount
  pub granted : g ≡ signed i (unsigned_grant i d actor action audience task policy epoch amount)
  pub stored :
      s' ≡ store_grant i d actor review_id review g (evaluate i.platform first actor action s).1

module _ (i : Issuer) (d : Draw) (actor : Actor) (action : ActionRequest) (audience : String)
    (review_id : Option String) where
  -- What a grant that is returned was made from, once the task and the decision are there.
  record IsGranted (task : RegisteredTask) (s : Plane) (review : Option Review) (g : ExecutionGrant)
      (s' : Plane) : Type 0 where
    pub policy : PolicyVersion
    pub in_force : active_policy s action.tenant_id ≡ some policy
    pub epoch : ℕ
    pub current : s.epochs action.tenant_id ≡ some epoch
    pub amount : Decimal
    pub priced : payment_amount i.parse_amount action ≡ ok amount
    pub granted : g ≡ signed i (unsigned_grant i d actor action audience task policy epoch amount)
    pub stored : s' ≡ store_grant i d actor review_id review g s

  grant_amount-IsGranted :
      (task : RegisteredTask) (review : Option Review) (policy : PolicyVersion) (epoch : ℕ)
      (s : Plane) (g : ExecutionGrant) (r : Result Decimal)
      → active_policy s action.tenant_id ≡ some policy
      → s.epochs action.tenant_id ≡ some epoch
      → payment_amount i.parse_amount action ≡ r
      → (grant_amount i d actor action audience review_id task review policy epoch s r).0 ≡ ok g
      → IsGranted task s review g
          (grant_amount i d actor action audience review_id task review policy epoch s r).1
  grant_amount-IsGranted task review policy epoch s g (err x) e f a h = cc
  grant_amount-IsGranted task review policy epoch s g (ok amount) e f a h = record {
    policy = policy;
    in_force = e;
    epoch = epoch;
    current = f;
    amount = amount;
    priced = a;
    granted = sym (ok_injective h);
    stored = ap (λ x. store_grant i d actor review_id review x s) (ok_injective h);
  }

  grant_epoch-IsGranted :
      (task : RegisteredTask) (review : Option Review) (policy : PolicyVersion) (s : Plane)
      (g : ExecutionGrant) (o : Option ℕ)
      → active_policy s action.tenant_id ≡ some policy
      → s.epochs action.tenant_id ≡ o
      → (grant_epoch i d actor action audience review_id task review policy s o).0 ≡ ok g
      → IsGranted task s review g
          (grant_epoch i d actor action audience review_id task review policy s o).1
  grant_epoch-IsGranted task review policy s g none e f h = cc
  grant_epoch-IsGranted task review policy s g (some epoch) e f h =
      grant_amount-IsGranted task review policy epoch s g _ e f refl h

  grant_policy-IsGranted :
      (task : RegisteredTask) (review : Option Review) (s : Plane) (g : ExecutionGrant)
      (o : Option PolicyVersion)
      → active_policy s action.tenant_id ≡ o
      → (grant_policy i d actor action audience review_id task review s o).0 ≡ ok g
      → IsGranted task s review g
          (grant_policy i d actor action audience review_id task review s o).1
  grant_policy-IsGranted task review s g none e h = cc
  grant_policy-IsGranted task review s g (some policy) e h =
      grant_epoch-IsGranted task review policy s g _ e refl h

  grant_reviewed-IsGranted :
      (task : RegisteredTask) (s : Plane) (g : ExecutionGrant) (r : Result (Option Review))
      → (grant_reviewed i d actor action audience review_id task s r).0 ≡ ok g
      → (review : Option Review) × (r ≡ ok review)
        × IsGranted task s review g (grant_reviewed i d actor action audience review_id task s r).1
  grant_reviewed-IsGranted task s g (err x) h = cc
  grant_reviewed-IsGranted task s g (ok review) h =
      (review, refl, grant_policy-IsGranted task review s g _ refl h)

  grant_decided-IsGranted :
      (task : RegisteredTask) (g : ExecutionGrant) (r : Result DecisionResponse × Plane)
      → (grant_decided i d actor action audience review_id task r).0 ≡ ok g
      → (decision : DecisionResponse) × (r.0 ≡ ok decision)
        × (review : Option Review) × (find_review i d actor action review_id decision r.1
            ≡ ok review)
        × IsGranted task r.1 review g (grant_decided i d actor action audience review_id task r).1
  grant_decided-IsGranted task g (err x, s) h = cc
  grant_decided-IsGranted task g (ok decision, s) h =
      let (review, reviewed, granted) = grant_reviewed-IsGranted task s g _ h in
      (decision, refl, review, reviewed, granted)

module _ (i : Issuer) (first d : Draw) (actor : Actor) (action : ActionRequest) (audience : String)
    (review_id : Option String) where
  issue_for-IsIssued :
      (s : Plane) (g : ExecutionGrant) (r : Result RegisteredTask)
      → find_task i s actor action ≡ r
      → (issue_for i first d actor action audience review_id s r).0 ≡ ok g
      → IsIssued i first d actor action audience review_id s g
          (issue_for i first d actor action audience review_id s r).1
  issue_for-IsIssued s g (err x) e h = cc
  issue_for-IsIssued s g (ok task) e h =
      let (decision, decided, review, reviewed, p) =
        grant_decided-IsGranted i d actor action audience review_id task g _ h in
      record {
        task = task;
        found = e;
        decision = decision;
        decided = decided;
        review = review;
        reviewed = reviewed;
        policy = p.policy;
        in_force = p.in_force;
        epoch = p.epoch;
        current = p.current;
        amount = p.amount;
        priced = p.priced;
        granted = p.granted;
        stored = p.stored;
      }

  pub issue-IsIssued :
      (s : Plane) (g : ExecutionGrant)
      → (issue i first d actor action audience review_id s).0 ≡ ok g
      → IsIssued i first d actor action audience review_id s g
          (issue i first d actor action audience review_id s).1
  unfolding issue
  issue-IsIssued s g h = issue_for-IsIssued s g _ refl h
