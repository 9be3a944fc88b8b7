-- ===== src/Monitor.antt =====
-- internal/monitor/monitor.go: the search for hung runs.
pub mod Intervals
pub mod Timeouts
use croncontrol.Prelude.{
  ℕ, ℤ, pos, negsuc, ◌+ℤ◌, ◌-ℤ◌, ◌*ℤ◌, int64, saturate64, ltb_ℤ, Bool, true, false, not, Option,
  none, some, List, [], ◌∷◌, String, if◌then◌else◌, ◌&&◌, same, find,
}
use croncontrol.RunState.{State}
use croncontrol.Store.{
  Store, Interval, TimeoutAction, Run, Process, to_state, update_run_state, list_running_runs,
}
use croncontrol.World.{Env, M, ◌>>=◌, ◌>>◌, done, pure, send, Signal, exec, fetch, now}

-- A row of `ListRunningRuns`: the run, and the columns of its process.
pub record RunningRow : Type 0 where
  pub run : Run
  pub execution_timeout : Option Interval
  pub heartbeat_timeout : Option Interval
  pub timeout_action : TimeoutAction
  pub execution_method : String

abbrev add_row : Run → Option Process → List RunningRow → List RunningRow
add_row r none rows = rows
add_row r (some p) rows =
    record {
      run = r;
      execution_timeout = p.execution_timeout;
      heartbeat_timeout = p.heartbeat_timeout;
      timeout_action = p.timeout_action;
      execution_method = p.execution_method;
    }
    ∷ rows

join_processes : Store → List Run → List RunningRow
join_processes s [] = []
join_processes s (r ∷ rs) =
    add_row r (find (λ p. same p.id r.process_id) s.processes) (join_processes s rs)

-- `ListRunningRuns`.
unfoldable pub running_rows : Store → List RunningRow
unfolding join_processes
running_rows s = join_processes s (list_running_runs s)

-- `intervalToDuration` of an interval that is not NULL, each step of it in 64 bits: a month is 30
-- days.
unfoldable pub interval_to_duration : Interval → ℤ
interval_to_duration iv = int64 (
    int64 (
      int64 (iv.microseconds *ℤ pos 1000) +ℤ int64 (int64 (iv.days *ℤ pos 24) *ℤ pos 3600000000000))
    +ℤ int64 (int64 (int64 (iv.months *ℤ pos 30) *ℤ pos 24) *ℤ pos 3600000000000))

-- More than the timeout has passed, and there is one; `Sub` of two times saturates.
unfoldable pub exceeded : Option Interval → ℤ → ℤ → Bool
exceeded none from t = false
exceeded (some iv) from t =
    ltb_ℤ (pos 0) (interval_to_duration iv)
    && ltb_ℤ (interval_to_duration iv) (saturate64 (t -ℤ from))

-- The last heartbeat, or the start where there is none.
abbrev pub last_heartbeat : Run → ℤ → ℤ
last_heartbeat r started = elim r.last_heartbeat_at [ none ↦ started | some t ↦ t ]

-- Why a run that started at `started` is hung; `none` if it is not.
unfoldable pub hung_reason : RunningRow → ℤ → ℤ → Option String
unfolding exceeded
hung_reason row started t =
    if exceeded row.execution_timeout started t
    then some "execution_timeout"
    else if not (same row.execution_method "http")
        && exceeded row.heartbeat_timeout (last_heartbeat row.run started) t
    then some "heartbeat_timeout"
    else none

module _ (env : Env) (kill : String → M (Unit {0})) where
  abbrev alert : Run → String → M (Unit {0})
  alert run reason = send (Signal.alert_sent run.id reason)

  -- The switch on the timeout action; `kill` is the callback of main.go.
  unfoldable pub act : TimeoutAction → Run → String → M (Unit {0})
  act TimeoutAction.kill run reason = kill run.id
  act TimeoutAction.alert run reason = alert run reason
  act TimeoutAction.both run reason = kill run.id >> alert run reason

  -- A run that is hung.
  unfoldable pub mark_and_act : RunningRow → ℤ → String → M (Unit {0})
  mark_and_act row t reason = do
    ok ←
        exec env
          (update_run_state row.run.id (record (to_state State.hung) { finished_at = some t }))
    if ok then act row.timeout_action row.run reason else done

  -- The body of the loop of `check`.
  unfoldable pub check_run : ℤ → RunningRow → M (Unit {0})
  check_run t row = elim row.run.started_at [
    | none ↦ done
    | some started ↦ elim (hung_reason row started t) [
      | none ↦ done
      | some reason ↦ mark_and_act row t reason
    ]
  ]

  unfoldable pub check_runs : ℤ → List RunningRow → M (Unit {0})
  check_runs t [] = done
  check_runs t (row ∷ rows) = check_run t row >> check_runs t rows

  -- `check`.
  unfoldable pub check : M (Unit {0})
  check = do
    rows ← fetch env running_rows
    elim rows [ none ↦ done | some rs ↦ do t ← now env; check_runs t rs ]
