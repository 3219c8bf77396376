-- ===== src/Execution/ReplayTests.antt =====
-- A search is answered and asked again after a draft: `evaluate` of src/traceguard/control/service.py on
-- concrete input.
use trace_guard.Common.{◌<◌, ◌≡◌, refl, List, [], ◌∷◌, ok, arith}
use trace_guard.Policy.Tests.{search, two_rules}
use trace_guard.Policy.Matching.{matches, target_passes, outranked, select_rule}
use trace_guard.Control.Models.{agent}
use trace_guard.Control.Platform.{action_digest}
use trace_guard.Control.Plane.{Plane, require, append_audit, epoch_of}
use trace_guard.Control.Policies.{active_policy, create_draft}
use trace_guard.Control.Actions.Decide.{decide}
use trace_guard.Control.Actions.Evaluate.{evaluate, evaluate_keyed, record_decision}
use trace_guard.Control.Calls.{drafting, perform as perform_control}
use trace_guard.Control.Tests.{known, at, alice, bot, in_force, answer, answered}
use trace_guard.Execution.Calls.{ServiceCall, controlling, perform, run}
use trace_guard.Execution.Replays.{evaluate_replays, answered_once}
use trace_guard.Execution.Tests.{issuer}

abbrev between : List ServiceCall
between = controlling (at 60) (drafting "acme" alice two_rules.contents) ∷ []

abbrev later : Plane
later = run issuer between (evaluate known (at 50) bot (search "weather") in_force).1

still_granted : require later bot agent "acme" ≡ ok tt
unfolding perform perform_control create_draft evaluate evaluate_keyed record_decision decide
    active_policy select_rule outranked matches target_passes require append_audit action_digest
still_granted = refl

same_epoch : epoch_of later "acme" ≡ epoch_of in_force "acme"
unfolding perform perform_control create_draft evaluate evaluate_keyed record_decision decide
    active_policy select_rule outranked matches target_passes require append_audit action_digest
same_epoch = refl

evaluate_replays_example : evaluate known (at 349) bot (search "weather") later ≡ (ok answer, later)
evaluate_replays_example =
    evaluate_replays issuer (at 50) (at 349) bot "key-1" (search "weather") answer in_force between
      refl refl answered still_granted same_epoch (omega arith)

answered_again : (evaluate known (at 349) bot (search "weather") later).0 ≡ ok answer
answered_again = rw evaluate_replays_example refl

answered_once_example :
    (answer ≡ answer)
    × (action_digest known (search "weather") ≡ action_digest known (search "weather"))
    × (epoch_of later "acme" ≡ epoch_of in_force "acme")
    × (349 < 350)
    × ((evaluate known (at 349) bot (search "weather") later).1 ≡ later)
answered_once_example =
    answered_once issuer (at 50) (at 349) bot bot "key-1" (search "weather") (search "weather")
      answer answer in_force between refl refl refl refl answered answered_again
