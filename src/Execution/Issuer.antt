-- ===== src/Execution/Issuer.antt =====
-- `ExecutionAuthority` of src/traceguard/control/execution.py: what it is given, and `_task`, which
-- finds the task that an action belongs to. A grant's text is `model_dump_json`, and what it is
-- signed over leaves its signature out (here: empty).
use trace_guard.Common.{
  String, Bool, ◌&&◌, not, Option, none, some, [], ◌==◌, if◌then◌else◌, same_option, Result, ok,
  err, authorization_error,
}
use trace_guard.Json.{Json}
use trace_guard.Control.Models.{
  Actor, ActionRequest, ExecutionGrant, agent, tool, same_kind, is_allow,
}
use trace_guard.Control.Platform.{Platform}
use trace_guard.Control.Plane.{Plane, RegisteredTask, require}
use trace_guard.Execution.Amount.{Decimal}
use trace_guard.Authority.Calls.{Number, ToolCall}
use trace_guard.Authority.Registry.{Registry, Library}
use trace_guard.Authority.Kernel.{evaluate}

pub record Issuer : Type 0 where
  pub platform : Platform
  pub registry : Registry
  pub library : Library
  pub key_id : String
  pub sign : ExecutionGrant → String
  -- the check of a signature with the signer's public key
  pub verify : ExecutionGrant → String → Bool
  pub dump : ExecutionGrant → String
  -- of `payment_amount`, and `str` of a grant's limit
  pub parse_amount : Json → Option Decimal
  pub limit_text : Number → String

-- The call that an action asks for. Its own id is drawn, and nothing reads it.
abbrev pub call_of : ActionRequest → ToolCall
call_of action = record {
  task_id = action.task_id;
  step_id = 0;
  tool_name = action.operation;
  arguments = action.arguments;
  consumed_observation_ids = [];
  requested_resources = [];
  call_id = "";
}

abbrev pub is_owner : Actor → RegisteredTask → Bool
is_owner actor task =
    actor.subject == task.principal && same_option actor.service_key_id (some task.credential)

module _ (i : Issuer) where
  abbrev pub authorized : ActionRequest → RegisteredTask → Bool
  authorized action task =
      is_allow (evaluate i.library i.registry task.compiled (call_of action) [] []).decision

  unfoldable pub task_found : Actor → ActionRequest → Option RegisteredTask → Result RegisteredTask
  task_found actor action none =
      err (authorization_error "task is not registered for this principal and credential")
  task_found actor action (some task) =
      if not (is_owner actor task)
      then err (authorization_error "task is not registered for this principal and credential")
      else if task.execution_domain == ""
      then err (authorization_error "legacy task requires fenced execution-domain approval")
      else if not (authorized action task)
      then err (authorization_error "action exceeds the registered strict task grant")
      else ok task

  abbrev pub task_required :
      Plane → Actor → ActionRequest → Result (Unit {0}) → Result RegisteredTask
  task_required s actor action (err x) = err x
  task_required s actor action (ok _) =
      if not (same_kind action.kind tool)
      then err (authorization_error "execution grants support typed tools only")
      else task_found actor action (s.tasks action.tenant_id action.task_id)

  -- `_task`
  unfoldable pub find_task : Plane → Actor → ActionRequest → Result RegisteredTask
  find_task s actor action = task_required s actor action (require s actor agent action.tenant_id)
