-- ===== src/Executor/Finalize/Outcome.antt =====
-- internal/executor/async_runs.go, `finalizeRunResult`: the row of the run afterwards, where the
-- database does not fail.
use croncontrol.Prelude.{
  ℕ, suc, ◌≡◌, refl, ℤ, pos, negsuc, ltb_ℤ, true, false, Option, none, some, String,
}
use croncontrol.RunState.{State}
use croncontrol.Store.{
  Run, Process, Stream, UpdateRunState, coalesce, update_run, apply_update, update_run_state,
  find_run, clear_run_execution_handle,
}
use croncontrol.Store.Laws.{Row, KeepsId, find_run-update_run}
use croncontrol.World.{World, Env, now, tick, send}
use croncontrol.World.Hoare.{Hoare, IsReliable, exec_reliable}
use croncontrol.Executor.Method.{Result, is_success}
use croncontrol.Executor.Backoff.{parse_backoff_list}
use croncontrol.Executor.Backoff.Delay.{retry_time, calculate_backoff-suc}
use croncontrol.Executor.Terminal.{Hooks, attempt_exec}
use croncontrol.Executor.Terminal.Frame.{IsFrame}
use croncontrol.Executor.Finalize.{
  duration_ms, exit_code32, or_else, complete_run, retry_run, fail_run, settle_run, record_result,
  finalize_run_result,
}
use croncontrol.Executor.Finalize.Frame.{
  append_text-Keeps, finish_attempt-Keeps, after_terminal-Keeps,
}

-- The row with its execution handle cleared.
abbrev pub cleared : Run → Run
cleared r = record r { execution_handle = none; stdout_offset = pos 0; stderr_offset = pos 0 }

-- The row that an attempt ends in, without a state.
abbrev pub ended : State → Option ℤ → ℤ → Option ℤ → Run → Run
ended state finished duration exit_code r = record (cleared r) {
  state = state;
  finished_at = coalesce finished r.finished_at;
  duration_ms = some duration;
  exit_code = coalesce exit_code r.exit_code;
  next_attempt_at = none;
  queue_reason = none;
  waiting_reason = none;
}

-- The row of a run whose attempt succeeded, failed for good, or is to be tried again.
abbrev pub completed_row : ℤ → ℤ → Result → Run → Run
completed_row finished duration result r =
    ended State.completed (some finished) duration (exit_code32 result) r

abbrev pub failed_row : ℤ → ℤ → Result → Run → Run
failed_row finished duration result r =
    ended State.failed (some finished) duration (some (or_else (negsuc 0) (exit_code32 result))) r

abbrev pub retried_row : ℤ → ℤ → ℤ → Run → Run
retried_row attempt next_at duration r = record (ended State.retrying none duration none r) {
  attempt = attempt;
  next_attempt_at = some next_at;
}

module _ (env : Env) (reliable : IsReliable env) (run_id : String) where
  pub change_reliable :
      (f : Run → Run) (r : Run)
      → KeepsId f
      → Hoare
          (Row run_id r)
          (attempt_exec env (λ s. some (update_run run_id f s)))
          (Row run_id (f r))
  change_reliable f r k w p =
      rw
        (exec_reliable env (λ s. some (update_run run_id f s)) w (update_run run_id f w.store)
          reliable refl)
        (find_run-update_run run_id f w.store r k p)

  pub update_reliable :
      (u : UpdateRunState) (r : Run)
      → Hoare
          (Row run_id r)
          (attempt_exec env (update_run_state run_id u))
          (Row run_id (apply_update u r))
  unfolding update_run_state
  update_reliable u r = change_reliable (apply_update u) r (λ x. refl)

  record_result_reliable :
      (attempt_id : String) (t d : ℤ) (result : Result) (r : Run)
      → Hoare
          (Row run_id r)
          (record_result env run_id attempt_id t d result)
          (Row run_id (cleared r))
  unfolding record_result clear_run_execution_handle
  record_result_reliable attempt_id t d result r w p =
      change_reliable cleared r (λ x. refl) _
        (append_text-Keeps env run_id r run_id Stream.stdout result.response_body _ (
          append_text-Keeps env run_id r run_id Stream.stderr result.stderr _ (
            append_text-Keeps env run_id r run_id Stream.stdout result.stdout _
              (finish_attempt-Keeps env run_id r attempt_id t d _ _ w p))))

  module _ (hooks : Hooks) (frame : (r : Run) → IsFrame env run_id r hooks) where
    complete_run_reliable :
        (ws : String) (proc : Process) (t d : ℤ) (result : Result) (r : Run)
        → Hoare
            (Row run_id (cleared r))
            (complete_run env hooks run_id ws proc t d result)
            (Row run_id (completed_row t d result r))
    unfolding complete_run send apply_update
    complete_run_reliable ws proc t d result r w p =
        after_terminal-Keeps env run_id _ hooks run_id ws proc State.completed (frame _) _
          (update_reliable _ (cleared r) w p)

    fail_run_reliable :
        (ws : String) (proc : Process) (t d : ℤ) (result : Result) (r : Run)
        → Hoare
            (Row run_id (cleared r))
            (fail_run env hooks run_id ws proc t d result)
            (Row run_id (failed_row t d result r))
    unfolding fail_run send apply_update
    fail_run_reliable ws proc t d result r w p =
        after_terminal-Keeps env run_id _ hooks run_id ws proc State.failed (frame _) _
          (update_reliable _ (cleared r) w p)

    retry_run_reliable :
        (k : ℕ) (proc : Process) (t d : ℤ) (r : Run)
        → Hoare (Row run_id (cleared r)) (retry_run env run_id (pos (suc k)) proc t d) (
            Row run_id (
              retried_row
                (pos (suc k))
                (retry_time t k (parse_backoff_list env.parse_duration proc.retry_backoff))
                d
                r))
    unfolding apply_update retry_run
    retry_run_reliable k proc t d r w p =
        rw
          (
            calculate_backoff-suc t k (parse_backoff_list env.parse_duration proc.retry_backoff),
            retry_run,
          )
          (update_reliable _ (cleared r) w p)

    -- The end of attempt `k + 1` of a run that is in the table, for a database that does not fail
    -- and a callback that leaves the row alone. With `t` the time that the clock reads: after a
    -- success the run is completed; after a failure below the limit of attempts it is retrying, and
    -- due again after the delay of this attempt; after a failure at the limit it has failed, with
    -- exit code -1 if there is none. In each case the row has the duration, the execution handle and
    -- both reasons are cleared, and both offsets are 0; the time of the end and the exit code are
    -- kept where the run does not retry, and nothing else in the row changes.
    pub finalize_run_result_lem :
        (ws attempt_id : String) (k : ℕ) (started_at : ℤ) (proc : Process) (result : Result)
        (r : Run) (w : World)
        → find_run run_id w.store ≡ some r
        → let t = env.clock w.step in
          let d = duration_ms t started_at in
          let after =
            find_run run_id
              (finalize_run_result env hooks run_id ws attempt_id
                (pos (suc k))
                started_at
                proc
                result
                w).1.store in
          (is_success result ≡ true → after ≡ some (completed_row t d result r))
          × (is_success result ≡ false
              → ltb_ℤ (pos (suc k)) proc.max_attempts ≡ true
              → after
                ≡ some (
                    retried_row
                      (pos (suc k))
                      (retry_time t k (parse_backoff_list env.parse_duration proc.retry_backoff))
                      d
                      r))
          × (is_success result ≡ false
              → ltb_ℤ (pos (suc k)) proc.max_attempts ≡ false
              → after ≡ some (failed_row t d result r))
    unfolding finalize_run_result now
    finalize_run_result_lem ws attempt_id k started_at proc result r w p = (
      λ e. rw (e, settle_run) (complete_run_reliable ws proc _ _ result r _ recorded),
      λ e e'. rw (e, e', settle_run) (retry_run_reliable k proc _ _ r _ recorded),
      λ e e'. rw (e, e', settle_run) (fail_run_reliable ws proc _ _ result r _ recorded),
    )
      where
        recorded :
            Row run_id
              (cleared r)
              (record_result env run_id attempt_id
                (env.clock w.step)
                (duration_ms (env.clock w.step) started_at)
                result
                (tick w)).1.store
        recorded = record_result_reliable attempt_id _ _ result r (tick w) p
