-- ===== src/Execution/Calls.antt =====
-- The control plane with its execution authority: the calls of src/traceguard/control/service.py and of
-- src/traceguard/control/execution.py that change the one state which they share.
use trace_guard.Common.{ℕ, String, Bool, Option, List, [], ◌∷◌}
use trace_guard.Control.Models.{Actor, ActionRequest}
use trace_guard.Control.Platform.{Draw}
use trace_guard.Control.Plane.{Plane}
use trace_guard.Control.Calls.{Call, perform as perform_control}
use trace_guard.Execution.Issuer.{Issuer}
use trace_guard.Execution.Register.{TaskRegistration, register, bind_legacy_domain}
use trace_guard.Execution.Issue.{issue}

pub data ServiceCall : Type 0 where
  controlling : Draw → Call → ServiceCall
  registering : Draw → String → Actor → TaskRegistration → ServiceCall
  binding : Draw → String → Actor → String → String → ℕ → Bool → ServiceCall
  issuing : Draw → Draw → Actor → ActionRequest → String → Option String → ServiceCall

module _ (i : Issuer) where
  -- The plane that a call leaves, whether it returns or raises.
  unfoldable pub perform : ServiceCall → Plane → Plane
  perform (controlling d c) s = perform_control i.platform d c s
  perform (registering d tenant actor r) s = (register i d tenant actor r s).1
  perform (binding d tenant actor task_id domain length workers_fenced) s =
      (bind_legacy_domain i d tenant actor task_id domain length workers_fenced s).1
  perform (issuing first d actor action audience review_id) s =
      (issue i first d actor action audience review_id s).1

  abbrev pub run : List ServiceCall → Plane → Plane
  run [] s = s
  run (c ∷ calls) s = run calls (perform c s)
