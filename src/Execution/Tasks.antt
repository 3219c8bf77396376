-- ===== src/Execution/Tasks.antt =====
-- What `_task` of src/traceguard/control/execution.py finds.
use trace_guard.Common.{
  true, false, ◌≡◌, refl, sym, Option, none, some, ◌==◌, Bool-cases, Result-cases, inl, inr, ok,
  ok_injective,
}
use trace_guard.Control.Models.{Actor, ActionRequest, agent, tool, same_kind}
use trace_guard.Control.Plane.{Plane, RegisteredTask, require}
use trace_guard.Execution.Issuer.{Issuer, find_task, task_found, is_owner, authorized}

-- The task is registered for the actor, it has a domain, and its grant permits the action.
pub record IsTask (i : Issuer) (s : Plane) (actor : Actor) (action : ActionRequest)
    (task : RegisteredTask) : Type 0 where
  pub agent_ok : require s actor agent action.tenant_id ≡ ok tt
  pub typed : same_kind action.kind tool ≡ true
  pub registered : s.tasks action.tenant_id action.task_id ≡ some task
  pub owned : is_owner actor task ≡ true
  pub bound : (task.execution_domain == "") ≡ false
  pub permitted : authorized i action task ≡ true

module _ (i : Issuer) where
  task_found-IsTask :
      (s : Plane) (actor : Actor) (action : ActionRequest) (o : Option RegisteredTask)
      (task : RegisteredTask)
      → s.tasks action.tenant_id action.task_id ≡ o
      → require s actor agent action.tenant_id ≡ ok tt
      → same_kind action.kind tool ≡ true
      → task_found i actor action o ≡ ok task
      → IsTask i s actor action task
  unfolding task_found
  task_found-IsTask s actor action none task e r k h = cc
  task_found-IsTask s actor action (some t) task e r k h = elim (Bool-cases (is_owner actor t)) [
    | inr f ↦ cc (rw f at h)
    | inl owned ↦ elim (Bool-cases (t.execution_domain == "")) [
      | inl f ↦ cc (rw (owned, f) at h)
      | inr bound ↦ elim (Bool-cases (authorized i action t)) [
        | inr f ↦ cc (rw (owned, bound, f) at h)
        | inl permitted ↦
            (let same = ok_injective (rw (owned, bound, permitted) at h) in
              rw (sym same) (record {
                agent_ok = r;
                typed = k;
                registered = e;
                owned = owned;
                bound = bound;
                permitted = permitted;
              }))
      ]
    ]
  ]

  pub find_task-IsTask :
      (s : Plane) (actor : Actor) (action : ActionRequest) (task : RegisteredTask)
      → find_task i s actor action ≡ ok task
      → IsTask i s actor action task
  unfolding find_task
  find_task-IsTask s actor action task h =
      elim (Result-cases (require s actor agent action.tenant_id)) [
        | inl (x, e) ↦ cc (rw e at h)
        | inr (u, e) ↦ elim (Bool-cases (same_kind action.kind tool)) [
          | inr f ↦ cc (rw (e, f) at h)
          | inl k ↦ task_found-IsTask s actor action _ task refl e k (rw (e, k) at h)
        ]
      ]

  pub find_task_complete :
      (s : Plane) (actor : Actor) (action : ActionRequest) (task : RegisteredTask)
      → IsTask i s actor action task
      → find_task i s actor action ≡ ok task
  unfolding find_task task_found
  find_task_complete s actor action task h =
      rw (h.agent_ok, h.typed, h.registered) (rw (h.owned, h.bound, h.permitted) refl)
