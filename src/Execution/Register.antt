-- ===== src/Execution/Register.antt =====
-- `register` and `bind_legacy_domain` of src/traceguard/control/execution.py. The length of a domain
-- is given beside it.
use trace_guard.Common.{
  ℕ, String, Bool, true, false, ◌&&◌, ◌||◌, not, Option, none, some, [], ◌∷◌, ◌==◌, if◌then◌else◌,
  ltb, is_some, Dict, Result, ok, err, after, value_error, key_error,
}
use trace_guard.Json.{str, Fields, end, field}
use trace_guard.Control.Models.{Actor, ExecutionGrant, admin}
use trace_guard.Control.Platform.{Draw}
use trace_guard.Control.Plane.{Plane, RegisteredTask, require, append_audit}
use trace_guard.Control.Policies.{entry_of}
use trace_guard.Authority.Calls.{TaskAuthority}
use trace_guard.Authority.Kernel.{CompiledAuthority, compile}
use trace_guard.Execution.Issuer.{Issuer}

-- `TaskRegistration` of src/traceguard/control/models.py, with the authority that pydantic reads in
-- it, `none` where that raises.
pub record TaskRegistration : Type 0 where
  pub task_id : String
  pub agent_subject : String
  pub service_key_id : String
  pub execution_domain : String
  pub authority : Option TaskAuthority
  pub tool_schemas : Dict Fields
  pub adapter_digest : String

-- `self._tasks[(tenant, task)] = value`
abbrev pub put_task :
    (String → String → Option RegisteredTask)
    → String
    → String
    → RegisteredTask
    → String
    → String
    → Option RegisteredTask
put_task tasks tenant task_id value t k =
    if tenant == t && task_id == k then some value else tasks t k

-- The loop that deletes a task's grants.
abbrev pub drop_grants :
    (String → Option ExecutionGrant) → String → String → String → Option ExecutionGrant
drop_grants issued tenant task_id nonce = elim (issued nonce) [
  | none ↦ none
  | some g ↦ if g.tenant_id == tenant && g.task_id == task_id then none else some g
]

abbrev pub delegates : TaskAuthority → Bool
delegates a = elim a.delegated_fields [ [] ↦ false | f ∷ fs ↦ true ]

module _ (i : Issuer) where
  unfoldable pub register_task :
      Draw → String → Actor → TaskRegistration → CompiledAuthority → Plane → Result String × Plane
  register_task d tenant actor r compiled s = after (require s actor admin tenant) s (
      if is_some (s.tasks tenant r.task_id)
      then (err (value_error "task registration is immutable; create a newly approved task"), s)
      else (
        ok compiled.digest,
        append_audit i.platform d.now tenant
            (entry_of d "task.registered" actor (
              field "task_id" (str r.task_id) (field "authority_digest" (str compiled.digest) end)))
            (record s {
              tasks = put_task s.tasks tenant r.task_id (record {
                principal = r.agent_subject;
                credential = r.service_key_id;
                compiled = compiled;
                adapter_digest = r.adapter_digest;
                execution_domain = r.execution_domain;
              });
            }),
      ))

  abbrev pub register_compiled :
      Draw
      → String
      → Actor
      → TaskRegistration
      → Plane
      → Result CompiledAuthority
      → Result String × Plane
  register_compiled d tenant actor r s (err x) = (err x, s)
  register_compiled d tenant actor r s (ok compiled) = register_task d tenant actor r compiled s

  abbrev pub register_scope :
      Draw
      → String
      → Actor
      → TaskRegistration
      → Plane
      → Option TaskAuthority
      → Result String × Plane
  register_scope d tenant actor r s none = (err (value_error "invalid task authority"), s)
  register_scope d tenant actor r s (some scope) =
      if delegates scope
      then (
        err (
            value_error
              "execution grants require an authenticated source adapter before delegation"),
        s,
      )
      else register_compiled d tenant actor r s (compile i.library i.registry scope r.tool_schemas)

  unfoldable pub register : Draw → String → Actor → TaskRegistration → Plane → Result String × Plane
  register d tenant actor r s = register_scope d tenant actor r s r.authority

  abbrev pub bind_found :
      Draw
      → String
      → Actor
      → String
      → String
      → Plane
      → Option RegisteredTask
      → Result (Unit {0}) × Plane
  bind_found d tenant actor task_id domain s none = (err (key_error "task not found"), s)
  bind_found d tenant actor task_id domain s (some task) =
      if not (task.execution_domain == "")
      then (err (value_error "existing task execution domains are immutable"), s)
      else (
        ok tt,
        append_audit i.platform d.now tenant
            (entry_of d "task.domain-approved" actor
              (field "task_id" (str task_id) (field "execution_domain" (str domain) end)))
            (record s {
              tasks = put_task s.tasks tenant task_id (record task { execution_domain = domain });
              issued = drop_grants s.issued tenant task_id;
            }),
      )

  unfoldable pub bind_legacy_domain :
      Draw → String → Actor → String → String → ℕ → Bool → Plane → Result (Unit {0}) × Plane
  bind_legacy_domain d tenant actor task_id domain length workers_fenced s =
      if not workers_fenced || (domain == "" || ltb 128 length)
      then (err (value_error "fenced workers and an approved migrated ledger are required"), s)
      else after (require s actor admin tenant) s
          (bind_found d tenant actor task_id domain s (s.tasks tenant task_id))
