-- ===== src/Executor/Tests.antt =====
-- Executions of one grant on concrete input (src/traceguard/executor.py).
use trace_guard.Common.{
  ℕ, String, ◌≡◌, refl, true, false, some, List, [], ◌∷◌, ◌==◌, Result, ok, err, value_error,
}
use trace_guard.Policy.Tests.{search}
use trace_guard.Control.Models.{Actor, ExecutionGrant, reviewer, same_role}
use trace_guard.Control.Platform.{action_digest}
use trace_guard.Control.Tests.{known, person, bot}
use trace_guard.Ledger.Store.{Database, entry, connect}
use trace_guard.Ledger.Rows.{
  Row, succeeded, accepted_for_agent, bound, same_scope, blocks, same_task, repeats, charge,
}
use trace_guard.Ledger.Reserve.{reserve, reserve_again, reserve_new, replay}
use trace_guard.Ledger.Settle.{finish, lookup, reconcile, record_verdict}
use trace_guard.Execution.Amount.{payment_amount}
use trace_guard.Executor.{
  Executor, Outside, Effects, Step, executing, run, execute, is_unauthorized,
}
use trace_guard.Executor.Reconcile.{
  ProviderReceipt, safe_result, reconcile_by_provider, IsReconciled,
  reconcile_by_provider-IsReconciled,
}
use trace_guard.Executor.Once.{IsSafe, run-IsSafe}

abbrev worker : Executor
worker = record {
  platform = known;
  identity = person "worker" (λ r. false);
  public_key = "public";
  key_id = "execution-1";
  adapter_digest = "adapter-1";
  store_id = "ledger-1";
  verify = λ key g signature. signature == "signed";
  parse_amount = λ v. some (record { text = "60"; units = 60 });
  parse_limit = λ t. 100;
  effect_digest = λ tool arguments target. tool;
  is_bounded = λ t. true;
  sanitize = λ t. some t;
}

abbrev grant : ExecutionGrant
grant = record {
  nonce = "n1";
  tenant_id = "acme";
  task_id = "task-1";
  agent_subject = "bot";
  service_key_id = "key-1";
  audience = "worker";
  execution_domain = "ledger-1";
  action_digest = "task-1search";
  authority_digest = "authority-1";
  adapter_digest = "adapter-1";
  policy_id = "policy-1";
  policy_epoch = 1;
  issued_at = 10;
  expires_at = 70;
  expires_zone = true;
  repeatable = false;
  amount = "0";
  budget_limit = some "100";
  key_id = "execution-1";
  signature = "signed";
}

abbrev outside : ℕ → Outside
outside now = record {
  now = now;
  first_check = ok tt;
  second_check = ok tt;
  answer = ok "sunny";
  meanwhile = [];
}

abbrev start : Effects
start = record {
  database = record {
    file = entry true 1 4096;
    metadata = (3, "ledger-1") ∷ [];
    rows = [];
    reconciliations = [];
  };
  dispatched = [];
}

-- The grant is executed, executed again, and again after it has expired.
abbrev steps : List Step
steps =
    executing (outside 20) bot (search "weather") grant
    ∷ executing (outside 30) bot (search "weather") grant
    ∷ executing (outside 80) bot (search "weather") grant
    ∷ []

dispatched_one : (run worker steps start).dispatched ≡ "n1" ∷ []
unfolding execute is_unauthorized payment_amount action_digest reserve reserve_again reserve_new
    replay connect finish bound same_scope blocks same_task repeats charge
dispatched_one = refl

start-IsSafe : IsSafe start
start-IsSafe = record { valid = record { apart = tt; honest = tt }; recorded = tt; once = tt }

run-IsSafe_example : IsSafe (run worker steps start)
run-IsSafe_example = run-IsSafe worker steps start start-IsSafe

-- The dispatch fails, and the provider then says that the effect succeeded.
abbrev uncertain : Database
uncertain =
    (run worker
      (executing (record (outside 20) { answer = err (value_error "no answer") }) bot
          (search "weather") grant
        ∷ [])
      start).database

abbrev rita : Actor
rita = person "rita" (λ role. same_role role reviewer)

abbrev provider : Row → String → Result ProviderReceipt
provider r reference = ok (record {
  action_digest = r.digest;
  reference = reference;
  status = succeeded;
  result = some "sunny";
})

abbrev settled_row : Row
settled_row = record {
  nonce = "n1";
  scope = record { tenant = "acme"; principal = "bot"; credential = "key-1"; task = "task-1" };
  idempotency_key = "idempotency-1";
  digest = "task-1search";
  effect_digest = "search";
  amount = 0;
  status = succeeded;
  result = some "sunny";
  disposition = accepted_for_agent;
  result_policy = "sanitized-receipt-v1:adapter-1";
}

reconciled :
    (reconcile_by_provider worker (some provider) rita "n1" "case-1" false uncertain).0
    ≡ ok settled_row
unfolding reconcile_by_provider safe_result lookup reconcile record_verdict execute is_unauthorized
    payment_amount action_digest reserve reserve_again reserve_new replay connect finish bound
    same_scope blocks same_task repeats charge
reconciled = refl

reconcile_by_provider-IsReconciled_example :
    IsReconciled worker
      (some provider)
      rita
      "n1"
      "case-1"
      false
      uncertain
      (reconcile_by_provider worker (some provider) rita "n1" "case-1" false uncertain)
reconcile_by_provider-IsReconciled_example =
    reconcile_by_provider-IsReconciled worker (some provider) rita "n1" "case-1" false uncertain
      settled_row reconciled
