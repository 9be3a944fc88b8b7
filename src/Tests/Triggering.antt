-- ===== src/Tests/Triggering.antt =====
-- The theorems on dependent runs and on hung runs, at concrete rows.
use mathlib.Core.Bool.{false≢true}
use croncontrol.Prelude.{
  ◌≡◌, ◌≢◌, refl, pos, ◌-ℤ◌, ◌+ℤ◌, ◌*ℤ◌, int64, saturate64, subst, Option, none, some, [], ◌∷◌,
  String, same, same_iff, arith,
}
use croncontrol.Store.{Interval, find_run}
use croncontrol.Store.Growth.{Grew}
use croncontrol.World.{World, done}
use croncontrol.Dependency.{evaluate, validate_no_cycles}
use croncontrol.Dependency.Triggers.{IsTriggered, evaluate-Grew}
use croncontrol.Dependency.Cycles.{validate_no_cycles_finds}
use croncontrol.Monitor.{RunningRow, hung_reason, check_run, exceeded, interval_to_duration}
use croncontrol.Monitor.Intervals.{Passed, IsShort}
use croncontrol.Monitor.Timeouts.{hung_reason_lem, hung_row, check_run_lem}
use croncontrol.Tests.Samples.{
  running_run, completed_run, second, cron_process, world_of, reliable_env,
}

abbrev one_completed : World
one_completed = world_of (completed_run ∷ [])

evaluate_example :
    Grew
      (IsTriggered completed_run)
      one_completed.store.runs
      (evaluate reliable_env completed_run one_completed).1.store
evaluate_example = evaluate-Grew reliable_env completed_run one_completed

not_empty : ◌≢◌ {A = String} "wsp_1" ""
unfolding same
not_empty e = absurd (false≢true ((same_iff "wsp_1" "").1 e))

parent_not_empty : ◌≢◌ {A = String} "prc_2" ""
unfolding same
parent_not_empty e = absurd (false≢true ((same_iff "prc_2" "").1 e))

different : ◌≢◌ {A = String} "prc_1" "prc_2"
unfolding same
different e = absurd (false≢true ((same_iff "prc_1" "prc_2").1 e))

-- The process `prc_2` depends on `prc_1`, and a dependency the other way is accepted.
validate_no_cycles_example :
    (validate_no_cycles reliable_env 5 "prc_1" "prc_2" one_completed).0 ≡ some none
validate_no_cycles_example =
    (validate_no_cycles_finds reliable_env 4 "prc_1" "prc_2" one_completed
        (not_empty, (not_empty, tt)) parent_not_empty).1
      different

-- A run that has been running for longer than its second.
abbrev slow_row : RunningRow
slow_row = record {
  run = running_run;
  execution_timeout = cron_process.execution_timeout;
  heartbeat_timeout = none;
  timeout_action = cron_process.timeout_action;
  execution_method = "http";
}

abbrev one_running : World
one_running = world_of (running_run ∷ [])

is_slow : hung_reason slow_row (pos 4) (pos 2000000000) ≡ some "execution_timeout"
unfolding hung_reason exceeded interval_to_duration int64 saturate64 ◌+ℤ◌ ◌*ℤ◌ ◌-ℤ◌
is_slow = refl

-- A second has not passed after one nanosecond.
abbrev InTime : Option Interval → Type 0
InTime none = Unit
InTime (some iv) = ¬ Passed iv (pos 4) (pos 5)

second_in_time : ¬ Passed second (pos 4) (pos 5)
unfolding ◌-ℤ◌ ◌+ℤ◌ ◌*ℤ◌
second_in_time p = omega (arith, p.1)

in_time : (iv : Interval) → some second ≡ some iv → ¬ Passed iv (pos 4) (pos 5)
in_time iv e = subst InTime e second_in_time

second-IsShort : IsShort (some second)
unfolding ◌+ℤ◌ ◌*ℤ◌
second-IsShort = (omega arith, omega arith, omega arith, omega arith)

hung_reason_example : hung_reason slow_row (pos 4) (pos 5) ≡ none
hung_reason_example =
    (hung_reason_lem slow_row (pos 4) (pos 5) second-IsShort tt).1 (in_time, λ iv other e. cc)

check_run_example :
    find_run "run_2"
      (check_run reliable_env (λ id. done) (pos 2000000000) slow_row one_running).1.store
    ≡ some (hung_row (pos 2000000000) running_run)
unfolding find_run same
check_run_example =
    (check_run_lem reliable_env (λ id. done) (pos 2000000000) (pos 4) slow_row running_run
        one_running (λ n. refl) (λ x w p. p) refl refl).1
      (λ e. cc (is_slow, e))
