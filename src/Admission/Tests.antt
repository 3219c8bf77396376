-- ===== src/Admission/Tests.antt =====
-- Two requests in a minute, where two are the limit, and a third: the model of
-- src/traceguard/control/admission.py on concrete input.
use trace_guard.Common.{ℕ, ◌≤◌, ◌≡◌, refl, some, List, [], arith}
use trace_guard.Admission.{
  Principal, Limits, Admissions, admitted, requests_exhausted, put_times, expire, admit, release,
}
use trace_guard.Admission.Rate.{
  AdmissionRun, opened, arrived, ended, admitted_since, logged, run_within_rate,
}
use trace_guard.Admission.Budgets.{run_within_budgets, KeepsBudgets}

abbrev two_a_minute : Limits
two_a_minute = record { max_inflight = 4; requests_per_minute = 2; max_principals = 8 }

abbrev bot : Principal
bot = record { subject = "bot"; credential = some "key-1" }

abbrev empty : Admissions
empty = record { inflight = 0; buckets = [] }

abbrev after_one : Admissions
after_one = (admit two_a_minute 10 (some bot) empty).1

abbrev after_two : Admissions
after_two = (admit two_a_minute 20 (some bot) (release after_one)).1

third_refused : (admit two_a_minute 69 (some bot) after_two).0 ≡ requests_exhausted
unfolding admit release put_times expire
third_refused = refl

first_expired : (admit two_a_minute 70 (some bot) after_two).0 ≡ admitted
unfolding admit release put_times expire
first_expired = refl

abbrev log_of_one : List (Principal × ℕ)
log_of_one = logged (admit two_a_minute 10 (some bot) empty).0 (some bot) 10 []

busy : 1 ≤ after_one.inflight
unfolding admit put_times expire
busy = omega arith

two_requests :
    AdmissionRun two_a_minute 20
      (logged (admit two_a_minute 20 (some bot) (release after_one)).0 (some bot) 20 log_of_one)
      after_two
two_requests =
    arrived 10 20 log_of_one (release after_one) (some bot)
      (ended 10 log_of_one after_one (arrived 0 10 [] empty (some bot) opened (omega arith)) busy)
      (omega arith)

run_within_rate_example :
    admitted_since bot 20
      (logged (admit two_a_minute 20 (some bot) (release after_one)).0 (some bot) 20 log_of_one)
    ≤ 2
run_within_rate_example =
    run_within_rate two_a_minute 20
      (logged (admit two_a_minute 20 (some bot) (release after_one)).0 (some bot) 20 log_of_one)
      after_two bot two_requests

run_within_budgets_example : KeepsBudgets two_a_minute after_two
run_within_budgets_example =
    run_within_budgets two_a_minute 20
      (logged (admit two_a_minute 20 (some bot) (release after_one)).0 (some bot) 20 log_of_one)
      after_two two_requests
