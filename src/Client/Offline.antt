-- ===== src/Client/Offline.antt =====
-- What `SignedPolicyCache.evaluate` of src/traceguard/sdk.py allows without the service.
use trace_guard.Common.{
  ℕ, ◌<◌, ◌≡◌, refl, true, ◌&&◌, ◌||◌, not, some, ◌==◌, leb, All, ok, arith, Bool-cases,
  Option-cases, inl, inr, or-eq-false, and-eq-true, ==→eq,
}
use trace_guard.Policy.Matching.{matches}
use trace_guard.Policy.Matching.Selection.{In, select-IsStrictest, All-allow}
use trace_guard.Control.Models.{
  is_allow, ActionRequest, PolicyRule, SignedPolicyBundle, DecisionResponse,
}
use trace_guard.Control.Platform.{Platform, action_digest}
use trace_guard.Client.{PolicyCache, evaluate, is_read_only, cached_response}

module _ (p : Platform) where
  -- The grounds of an offline decision.
  pub record IsCovered (now : ℕ) (action : ActionRequest) (c : PolicyCache) (r : DecisionResponse)
      : Type 0 where
    pub bundle : SignedPolicyBundle
    pub installed : c.bundle ≡ some bundle
    pub live : now < bundle.expires_at
    pub same_tenant : action.tenant_id ≡ c.tenant_id
    pub read_only : is_read_only action ≡ true
    pub rule : PolicyRule
    pub from_policy : In rule bundle.policy.contents.rules
    pub rule_matches : matches p.matching rule.match action ≡ true
    pub eligible : rule.cache_eligible ≡ true
    pub unanimous :
        All
          (λ s. matches p.matching s.match action ≡ true → is_allow s.decision ≡ true)
          bundle.policy.contents.rules
    pub allowed : is_allow r.decision ≡ true
    pub bound : r.action_digest ≡ some (action_digest p action)

  -- The cache decides only to allow, and only a GET or HEAD over HTTP without a body, of its own
  -- tenant, while the installed bundle is live, by a matching rule of the bundle that is eligible
  -- for the cache, when every matching rule of the bundle is an ALLOW rule. The response carries
  -- the digest of the action.
  pub evaluate-IsCovered :
      (now : ℕ) (action : ActionRequest) (c : PolicyCache) (r : DecisionResponse)
      → evaluate p now action c ≡ ok r
      → IsCovered now action c r
  unfolding evaluate
  evaluate-IsCovered now action c r h = elim (Option-cases c.bundle) [
    | inl nothing ↦ cc (rw (nothing, evaluate) at h)
    | inr (b, installed) ↦
        elim (Bool-cases (leb b.expires_at now || not (action.tenant_id == c.tenant_id))) [
          | inl late ↦ cc (rw (installed, evaluate, late) at h)
          | inr timely ↦ elim (Bool-cases (is_read_only action)) [
            | inr writes ↦ cc (rw (installed, evaluate, timely, writes) at h)
            | inl reads ↦ elim (select-IsStrictest p.matching action b.policy) [
              | inr (nothing, _) ↦ cc (rw (installed, evaluate, timely, reads, nothing) at h)
              | inl (rule, selected, strict) ↦
                  elim (Bool-cases (is_allow rule.decision && rule.cache_eligible)) [
                    | inr refused ↦
                        cc (rw (installed, evaluate, timely, reads, selected, refused) at h)
                    | inl granted ↦
                        (let same : cached_response p b rule action ≡ r =
                            cc (rw (installed, evaluate, timely, reads, selected, granted) at h) in
                          let (allows, caches) =
                            and-eq-true (is_allow rule.decision) rule.cache_eligible granted in
                          let (alive, ours) = or-eq-false (leb b.expires_at now) _ timely in
                          rw (← same) (record {
                            bundle = b;
                            installed = installed;
                            live = ground arith;
                            same_tenant = ==→eq action.tenant_id c.tenant_id (ground arith);
                            read_only = reads;
                            rule = rule;
                            from_policy = strict.from_policy;
                            rule_matches = strict.matching;
                            eligible = caches;
                            unanimous =
                                All-allow p.matching action rule b.policy.contents.rules allows
                                  strict.strictest;
                            allowed = refl;
                            bound = refl;
                          }))
                  ]
            ]
          ]
        ]
  ]
