-- ===== src/Control/Actions/Decide.antt =====
-- The decision on an action by the active policy (src/traceguard/control/service.py: `_decision`,
-- the middle of `evaluate`), and that it fails closed.
use trace_guard.Common.{
  ℕ, String, ◌≡◌, true, false, Option, none, some, All, Option-cases, inl, inr,
}
use trace_guard.Json.{Fields}
use trace_guard.Control.Models.{
  Decision, block, is_allow, ActionRequest, PolicyRule, PolicyVersion, DecisionResponse,
  DefaultDecision, default_of, block_default, escalate_default,
}
use trace_guard.Control.Platform.{Platform, action_digest}
use trace_guard.Control.Plane.{Plane}
use trace_guard.Control.Policies.{active_policy}
use trace_guard.Policy.Matching.{matches, select_rule}
use trace_guard.Policy.Matching.Selection.{In, select-IsStrictest, All-allow}

abbrev pub id_of : Option PolicyVersion → Option String
id_of none = none
id_of (some v) = some v.policy_id

abbrev pub version_of : Option PolicyVersion → Option ℕ
version_of none = none
version_of (some v) = some v.version

module _ (p : Platform) where
  -- `_decision`
  abbrev pub decision_response :
      ActionRequest → Decision → String → Option PolicyVersion → Option Fields → DecisionResponse
  decision_response action decision reason policy payload = record {
    decision = decision;
    reason = reason;
    policy_id = id_of policy;
    policy_version = version_of policy;
    audit_id = "pending";
    review_id = none;
    rewritten_arguments = payload;
    from_cache = false;
    action_digest = some (action_digest p action);
  }

  abbrev by_rule : PolicyVersion → Option PolicyRule → ActionRequest → DecisionResponse
  by_rule v none action =
      decision_response action (default_of v.contents.default_decision) "policy default" (some v)
        none
  by_rule v (some rule) action =
      decision_response action rule.decision rule.reason (some v) rule.rewrite_payload

  abbrev by_policy : Option PolicyVersion → ActionRequest → DecisionResponse
  by_policy none action = decision_response action block "no active policy" none none
  by_policy (some v) action = by_rule v (select_rule p.matching v action) action

  unfoldable pub decide : String → ActionRequest → Plane → DecisionResponse
  decide tenant action s = by_policy (active_policy s tenant) action

  -- What must hold of a tenant's policy when an action is allowed.
  pub record IsAuthorized (tenant : String) (action : ActionRequest) (s : Plane) : Type 0 where
    pub policy : PolicyVersion
    pub is_current : active_policy s tenant ≡ some policy
    pub rule : PolicyRule
    pub from_policy : In rule policy.contents.rules
    pub rule_matches : matches p.matching rule.match action ≡ true
    pub unanimous :
        All
          (λ r. matches p.matching r.match action ≡ true → is_allow r.decision ≡ true)
          policy.contents.rules

  -- An action that is allowed was allowed by a rule of the tenant's active policy that matches it,
  -- and every rule of that policy that matches it is an ALLOW rule.
  pub allow_needs_policy :
      (tenant : String) (action : ActionRequest) (s : Plane)
      → is_allow (decide tenant action s).decision ≡ true
      → IsAuthorized tenant action s
  unfolding decide
  allow_needs_policy tenant action s h = elim (Option-cases (active_policy s tenant)) [
    | inl missing ↦ cc (rw missing at h)
    | inr (v, found) ↦ elim (select-IsStrictest p.matching action v) [
      | inl (rule, selected, strict) ↦ record {
        policy = v;
        is_current = found;
        rule = rule;
        from_policy = strict.from_policy;
        rule_matches = strict.matching;
        unanimous =
            All-allow p.matching action rule v.contents.rules (rw (found, selected) at h)
              strict.strictest;
      }
      | inr (nothing, _) ↦
          absurd (default_not_allow v.contents.default_decision (rw (found, nothing) at h))
    ]
  ]
    where
      default_not_allow : (d : DefaultDecision) → is_allow (default_of d) ≡ true → ⊥
      default_not_allow block_default e = cc
      default_not_allow escalate_default e = cc
