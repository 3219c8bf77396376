-- ===== src/Ledger/Tests.antt =====
-- Runs of the model of src/traceguard/ledger.py on concrete input, and the theorems at it.
use trace_guard.Common.{
  ℕ, ◌≤◌, String, ◌≡◌, ◌≢◌, refl, ap, true, false, none, some, List, [], ◌∷◌, any, find, All, arith,
  ok, err, execution_unknown, authorization_error,
}
use trace_guard.Ledger.Rows.{
  succeeded, unknown, accepted_for_agent, withheld, review_required, pending_review, Scope, Row,
  Request, spent, bound, same_scope, same_task, reservation, repeats, blocks, charge,
}
use trace_guard.Ledger.Store.{Database, entry, missing, connect, provision}
use trace_guard.Ledger.Reserve.{Replay, reserve, reserve_again, reserve_new, replay}
use trace_guard.Ledger.Settle.{finish, decide_result, reconcile}
use trace_guard.Ledger.Perform.{Call, reserving, finishing, deciding, perform, run, Requests}
use trace_guard.Ledger.Change.Row.{Change}
use trace_guard.Ledger.Change.Invariant.{IsValid}
use trace_guard.Ledger.Change.Budget.{Respects}
use trace_guard.Ledger.Change.Operations.{perform-Change}
use trace_guard.Ledger.Runs.Safety.{run-IsValid, run_within_budget, withheld_as}
use trace_guard.Ledger.Runs.Once.{granted_once, grant_closes_task}
use trace_guard.Ledger.Runs.Release.{HandsOver, release_needs_acceptance, withheld_forever}
use trace_guard.Ledger.Runs.Progress.{
  reply, verdict_of, in_state, grant_finish_replay, grant_unknown_reconcile_replay,
}

abbrev nowhere : Database
nowhere = record { file = missing; metadata = []; rows = []; reconciliations = [] }

abbrev fresh : Database
fresh = record {
  file = entry true 1 4096;
  metadata = (3, "ledger-1") ∷ [];
  rows = [];
  reconciliations = [];
}

provision-fresh : provision "ledger-1" 8 4096 nowhere ≡ (ok "ledger-1", fresh)
unfolding provision
provision-fresh = refl

abbrev alice : Scope
alice = record { tenant = "acme"; principal = "alice"; credential = "key-1"; task = "pay" }

abbrev payment : String → String → ℕ → Request
payment nonce digest amount = record {
  scope = alice;
  nonce = nonce;
  idempotency_key = nonce;
  digest = digest;
  effect_digest = digest;
  amount = amount;
  budget_limit = some 100;
  repeatable = false;
  result_policy = "policy-1";
}

abbrev first : Request
first = payment "n1" "d1" 60

abbrev second : Request
second = payment "n2" "d2" 40

abbrev third : Request
third = payment "n3" "d3" 1

fresh-IsValid : IsValid fresh.rows
fresh-IsValid = record { apart = tt; honest = tt }

first_granted : (reserve "ledger-1" first fresh).0 ≡ ok none
unfolding reserve reserve_new connect
first_granted = refl

-- Two payments fill the budget, and the third is refused.
abbrev calls : List Call
calls =
    reserving first
    ∷ finishing "n1" succeeded (some "paid 60") accepted_for_agent
    ∷ reserving second
    ∷ finishing "n2" succeeded (some "paid 40") pending_review
    ∷ deciding "n2" accepted_for_agent "policy-1"
    ∷ []

third_refused :
    (reserve "ledger-1" third (run "ledger-1" calls fresh)).0
    ≡ err (authorization_error "task budget is already spent or reserved")
unfolding perform reserve reserve_again reserve_new replay connect finish decide_result bound
    same_scope blocks same_task repeats charge
third_refused = refl

first_replayed :
    (reserve "ledger-1" first (run "ledger-1" calls fresh)).0 ≡ ok (some (reply first "paid 60"))
unfolding perform reserve reserve_again reserve_new replay connect finish decide_result bound
    same_scope blocks same_task repeats charge
first_replayed = refl

fresh_connected : connect "ledger-1" fresh ≡ ok tt
unfolding connect
fresh_connected = refl

first-bound : bound "n1" alice "n1" (reservation first) ≡ true
unfolding bound
first-bound = refl

one_task : same_task alice alice ≡ true
unfolding same_task
one_task = refl

second_free : find (bound "n2" alice "n2") (reserve "ledger-1" first fresh).1.rows ≡ none
unfolding reserve reserve_new connect bound same_scope
second_free = refl

perform-Change_example :
    Change (Requests (reserving first)) fresh.rows (perform "ledger-1" (reserving first) fresh).rows
perform-Change_example = perform-Change "ledger-1" (reserving first) fresh fresh-IsValid

run-IsValid_example : IsValid (run "ledger-1" calls fresh).rows
run-IsValid_example = run-IsValid "ledger-1" calls fresh fresh-IsValid

calls-Respect : All (λ c. (q : Request) → Requests c q → Respects 100 alice q) calls
calls-Respect = (
  λ q e t. (100, ap (λ (r : Request). r.budget_limit) e, omega arith),
  (
    λ q e t. absurd e,
    (
      λ q e t. (100, ap (λ (r : Request). r.budget_limit) e, omega arith),
      (λ q e t. absurd e, (λ q e t. absurd e, tt)),
    ),
  ),
)

run_within_budget_example : spent alice (run "ledger-1" calls fresh).rows ≤ 100
run_within_budget_example =
    run_within_budget "ledger-1" 100 alice calls fresh fresh-IsValid calls-Respect (omega arith)

granted_once_example :
    (reserve "ledger-1" first (run "ledger-1" calls (reserve "ledger-1" first fresh).1)).0 ≢ ok none
granted_once_example =
    granted_once "ledger-1" first first calls fresh fresh-IsValid first_granted first-bound

grant_closes_task_example : reserve "ledger-1" second (reserve "ledger-1" first fresh).1 ≡ (
  err (execution_unknown "task has a pending or unknown effect; reconcile before retry"),
  (reserve "ledger-1" first fresh).1,
)
grant_closes_task_example =
    grant_closes_task "ledger-1" first second fresh fresh_connected first_granted one_task
      second_free

release_needs_acceptance_example :
    (r : Row) × (find (bound "n1" alice "n1") (run "ledger-1" calls fresh).rows ≡ some r)
    × HandsOver first r
        (reply first "paid 60")
        (run "ledger-1" calls fresh)
        (reserve "ledger-1" first (run "ledger-1" calls fresh)).1
release_needs_acceptance_example =
    release_needs_acceptance "ledger-1" first (reply first "paid 60") (run "ledger-1" calls fresh)
      first_replayed refl

abbrev hidden : Row
hidden = record (in_state first succeeded (some "secret") withheld) { result_policy = "policy-1" }

abbrev kept_back : Database
kept_back = record fresh { rows = hidden ∷ [] }

kept_back-IsValid : IsValid kept_back.rows
kept_back-IsValid = record { apart = (tt, tt); honest = (refl, tt) }

abbrev silence : Replay
silence = record {
  nonce = "n1";
  status = succeeded;
  result = none;
  disposition = withheld;
  replayed = true;
}

silent :
    (reserve "ledger-1" first
      (run "ledger-1" (deciding "n1" accepted_for_agent "policy-1" ∷ []) kept_back)).0
    ≡ ok (some silence)
unfolding perform reserve reserve_again replay connect decide_result bound same_scope
silent = refl

is_hidden : any (withheld_as "n1") kept_back.rows ≡ true
unfolding withheld_as
is_hidden = refl

withheld_forever_example : silence.result ≡ none
withheld_forever_example =
    withheld_forever "ledger-1" (deciding "n1" accepted_for_agent "policy-1" ∷ []) first silence
      kept_back kept_back-IsValid is_hidden silent

grant_finish_replay_example :
    let done =
      finish "ledger-1" "n1" succeeded
        (some "paid 60")
        accepted_for_agent
        (reserve "ledger-1" first fresh).1 in
    (done.0 ≡ ok tt)
    × (reserve "ledger-1" first done.1 ≡ (ok (some (reply first "paid 60")), done.1))
grant_finish_replay_example =
    grant_finish_replay "ledger-1" first fresh fresh_connected first_granted "paid 60"

grant_unknown_reconcile_replay_example :
    let v = verdict_of "paid 60" "olga" "receipt-7" false in
    let lost =
      finish "ledger-1" "n1" unknown none review_required (reserve "ledger-1" first fresh).1 in
    let settled = reconcile "ledger-1" "n1" v lost.1 in
    (lost.0 ≡ ok tt)
    × (settled.0 ≡ ok (in_state first succeeded (some "paid 60") accepted_for_agent))
    × (reserve "ledger-1" first settled.1 ≡ (ok (some (reply first "paid 60")), settled.1))
grant_unknown_reconcile_replay_example =
    grant_unknown_reconcile_replay "ledger-1" first fresh fresh_connected first_granted "paid 60"
      "olga" "receipt-7" false refl
