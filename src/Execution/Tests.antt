-- ===== src/Execution/Tests.antt =====
-- A task that may search is registered, a search is granted, and the grant ends when the tenant is
-- suspended: the model of src/traceguard/control/execution.py on concrete input.
use trace_guard.Common.{
  ◌≡◌, refl, Bool, true, false, none, some, List, [], ◌∷◌, ◌==◌, if◌then◌else◌, ok, arith,
}
use trace_guard.Json.{str, end}
use trace_guard.Policy.Tests.{search}
use trace_guard.Policy.Matching.{matches, target_passes, outranked, select_rule}
use trace_guard.Control.Models.{Role, executor, Actor, ExecutionGrant}
use trace_guard.Control.Platform.{action_digest}
use trace_guard.Control.Plane.{Plane, empty_plane, RegisteredTask, require, append_audit}
use trace_guard.Control.Policies.{active_policy, suspend_tenant}
use trace_guard.Control.Actions.Decide.{decide}
use trace_guard.Control.Actions.Evaluate.{
  evaluate_keyed, record_decision, evaluate as evaluate_action,
}
use trace_guard.Control.Calls.{suspending}
use trace_guard.Control.Calls.Sound.{IsSound, empty_plane-IsSound}
use trace_guard.Control.Tests.{known, at, person, alice, bot, in_force}
use trace_guard.Authority.Calls.{TaskAuthority}
use trace_guard.Authority.Registry.{Registry, tool_effect, output, sensitive_path, scoped_fields}
use trace_guard.Authority.Grants.{
  generates_forbidden, conflicts, names_absent, check_tools, validate_authority, explicit_fields,
  is_idle, needed_fields, ungranted_fields,
}
use trace_guard.Authority.Checks.{
  first, argument_strings, duplicate_mutation, check_pinned, check_delegated, check_resources,
  is_bad_amount, is_unresolved, paid_numbers, spent, check_email, strict_checks, check_authority,
}
use trace_guard.Authority.Kernel.{has_remote_refs, arguments_fit, evaluate}
use trace_guard.Authority.Tests.{known_library, known_registry, shop_grant}
use trace_guard.Execution.Amount.{payment_amount}
use trace_guard.Execution.Issuer.{Issuer, find_task, task_found}
use trace_guard.Execution.Issue.{find_review, unsigned_grant, signed, store_grant, issue, validate}
use trace_guard.Execution.Validated.{IsValidated, validate-IsValidated}
use trace_guard.Execution.RoundTrip.{issued_validates}
use trace_guard.Execution.Calls.{controlling, ServiceCall, run}
use trace_guard.Execution.Kept.{run_service-IsSound}
use trace_guard.Execution.Epochs.{suspends, ended_forever}

abbrev searches : Registry
searches = record known_registry { mutations = "search" ∷ [] }

abbrev search_grant : TaskAuthority
search_grant = record shop_grant {
  allowed_tools = some ("search" ∷ []);
  argument_values = [];
  resource_values = ("search", ("query", str "weather" ∷ []) ∷ []) ∷ [];
  max_amount = none;
}

abbrev search_task : RegisteredTask
search_task = record {
  principal = "bot";
  credential = "key-1";
  compiled = record { scope = search_grant; schemas = ("search", end) ∷ []; digest = "digest" };
  adapter_digest = "adapter";
  execution_domain = "ledger-1";
}

abbrev pub issuer : Issuer
issuer = record {
  platform = known;
  registry = searches;
  library = known_library;
  key_id = "execution-1";
  sign = λ g. "signed";
  verify = λ g s. s == "signed";
  dump = λ g. g.nonce;
  parse_amount = λ v. none;
  limit_text = λ n. "0";
}

abbrev ready : Plane
ready = record in_force {
  tasks = λ tenant task. if tenant == "acme" then some search_task else none;
}

abbrev is_executor : Role → Bool
is_executor executor = true
is_executor _ = false

abbrev worker : Actor
worker = record (person "worker" is_executor) { service_key_id = some "key-2" }

abbrev grant : ExecutionGrant
grant = record {
  nonce = "nonce-1";
  tenant_id = "acme";
  task_id = "task-1";
  agent_subject = "bot";
  service_key_id = "key-1";
  audience = "worker";
  execution_domain = "ledger-1";
  action_digest = "task-1search";
  authority_digest = "digest";
  adapter_digest = "adapter";
  policy_id = "policy-1";
  policy_epoch = 1;
  issued_at = 51;
  expires_at = 111;
  expires_zone = true;
  repeatable = false;
  amount = "0";
  budget_limit = none;
  key_id = "execution-1";
  signature = "signed";
}

issued : (issue issuer (at 50) (at 51) bot (search "weather") "worker" none ready).0 ≡ ok grant
unfolding issue find_task task_found require evaluate arguments_fit has_remote_refs check_authority
    strict_checks first duplicate_mutation tool_effect validate_authority generates_forbidden
    check_tools conflicts names_absent check_pinned check_delegated check_resources scoped_fields
    is_bad_amount is_unresolved paid_numbers spent argument_strings check_email sensitive_path
    explicit_fields is_idle needed_fields ungranted_fields output evaluate_action evaluate_keyed
    decide active_policy select_rule outranked matches target_passes action_digest record_decision
    append_audit find_review payment_amount unsigned_grant signed
issued = refl

abbrev granted : Plane
granted = (issue issuer (at 50) (at 51) bot (search "weather") "worker" none ready).1

worker_admitted : require granted worker executor "acme" ≡ ok tt
unfolding issue find_task task_found require evaluate arguments_fit has_remote_refs check_authority
    strict_checks first duplicate_mutation tool_effect validate_authority generates_forbidden
    check_tools conflicts names_absent check_pinned check_delegated check_resources scoped_fields
    is_bad_amount is_unresolved paid_numbers spent argument_strings check_email sensitive_path
    explicit_fields is_idle needed_fields ungranted_fields output evaluate_action evaluate_keyed
    decide active_policy select_rule outranked matches target_passes action_digest record_decision
    append_audit find_review payment_amount unsigned_grant signed store_grant
worker_admitted = refl

issued_validates_example : validate issuer 60 worker (search "weather") grant granted ≡ ok tt
issued_validates_example =
    issued_validates issuer (at 50) (at 51) bot worker (search "weather") none ready grant 60
      (λ x. refl) issued worker_admitted refl refl (omega arith)

validate-IsValidated_example : IsValidated issuer 60 worker (search "weather") grant granted
validate-IsValidated_example =
    validate-IsValidated issuer 60 worker (search "weather") grant granted issued_validates_example

suspension : (suspend_tenant known (at 70) "acme" alice true granted).0 ≡ ok tt
unfolding issue find_task task_found require evaluate arguments_fit has_remote_refs check_authority
    strict_checks first duplicate_mutation tool_effect validate_authority generates_forbidden
    check_tools conflicts names_absent check_pinned check_delegated check_resources scoped_fields
    is_bad_amount is_unresolved paid_numbers spent argument_strings check_email sensitive_path
    explicit_fields is_idle needed_fields ungranted_fields output evaluate_action evaluate_keyed
    decide active_policy select_rule outranked matches target_passes action_digest record_decision
    append_audit find_review payment_amount unsigned_grant signed store_grant suspend_tenant
suspension = refl

abbrev resumption : List ServiceCall
resumption = controlling (at 80) (suspending "acme" alice false) ∷ []

ended_forever_example : ¬ (
    validate issuer 90 worker
      (search "weather")
      grant
      (run issuer resumption (suspend_tenant known (at 70) "acme" alice true granted).1)
    ≡ ok tt)
ended_forever_example =
    ended_forever issuer 60 90 worker worker (search "weather") (search "weather") grant granted
      (suspend_tenant known (at 70) "acme" alice true granted).1 resumption issued_validates_example
      (suspends (at 70) alice true suspension)

run_service-IsSound_example : IsSound known (run issuer resumption empty_plane)
run_service-IsSound_example =
    run_service-IsSound issuer resumption empty_plane (empty_plane-IsSound known)
