-- ===== src/Tests/Attempts.antt =====
-- The theorems on attempts of a run, at concrete runs, methods and answers.
use croncontrol.Prelude.{
  ◌≡◌, ◌≢◌, refl, ◌⊎◌, ℤ, pos, eqb_ℤ, not, ◌||◌, true, some, List, [], ◌∷◌, ◌++◌, map, length,
  String, arith, same, same_iff,
}
use mathlib.Core.Bool.{false≢true}
use croncontrol.RunState.{State, is_final_terminal}
use croncontrol.Store.{
  RunOutput, find_run, update_run, apply_update, to_state, get_process, count_active_by_process,
}
use croncontrol.World.{World, Env}
use croncontrol.World.Hoare.{IsReliable}
use croncontrol.Executor.Method.{is_success}
use croncontrol.Executor.Backoff.{parse_backoff_list}
use croncontrol.Executor.Backoff.Delay.{retry_time}
use croncontrol.Executor.Finalize.{duration_ms, finalize_run_result}
use croncontrol.Executor.Finalize.Frame.{finalize_run_result_frame}
use croncontrol.Executor.Finalize.Outcome.{finalize_run_result_lem, retried_row}
use croncontrol.Executor.Poll.{AsyncRunPollRow, finalize_run_killed, store_chunks}
use croncontrol.Executor.Poll.Killed.{killed_row, finalize_run_killed_lem}
use croncontrol.Executor.Poll.Chunks.{moved, piece, pieces, next_offsets, store_chunks_lem}
use croncontrol.Executor.Dispatch.{dispatch, start_run}
use croncontrol.Executor.Dispatch.Attempt.{Settled, started_row, start_run_lem}
use croncontrol.Executor.Dispatch.Overlap.{skip_triggers_nothing}
use croncontrol.Tests.Samples.{
  pending_run, running_run, retrying_run, cron_process, world_of, reliable_env, env_failing,
  no_hooks, wired_hooks, failing_result, failing_method, blocking_handle, running_poll,
}

-- The first of three attempts fails, and the run is to be tried again.
start_run_example :
    (t0 : ℤ) × (t : ℤ) × Settled reliable_env cron_process failing_result 0 t
      (duration_ms t t0)
      (started_row reliable_env cron_process t0 (pos 1) pending_run)
      (find_run "run_1"
        (start_run reliable_env no_hooks pending_run cron_process failing_method
          (world_of (pending_run ∷ []))).1.store)
unfolding find_run same
start_run_example =
    start_run_lem reliable_env no_hooks pending_run cron_process failing_method 0 blocking_handle
      failing_result (world_of (pending_run ∷ [])) (λ n. refl) (λ x run proc w p. p) (λ n s x p. p)
      (λ n. refl) refl (omega arith) refl

abbrev one_running : World
one_running = world_of (running_run ∷ [])

finalize_run_result_example :
    find_run "run_2"
      (finalize_run_result reliable_env no_hooks "run_2" "wsp_1" "rat_1"
        (pos 1)
        (pos 4)
        cron_process
        failing_result
        one_running).1.store
    ≡ some (
        retried_row
          (pos 1)
          (retry_time
            (pos 0)
            0
            (parse_backoff_list reliable_env.parse_duration cron_process.retry_backoff))
          (duration_ms (pos 0) (pos 4))
          running_run)
unfolding find_run same is_success
finalize_run_result_example =
    (finalize_run_result_lem reliable_env (λ n. refl) "run_2" no_hooks (λ r run proc w p. p) "wsp_1"
        "rat_1" 0 (pos 4) cron_process failing_result running_run one_running refl).1
      refl refl

-- Every call of the database fails.
finalize_run_result_frame_example :
    find_run "run_1"
      (finalize_run_result
        (env_failing (λ n. true))
        no_hooks
        "run_2"
        "wsp_1"
        "rat_1"
        (pos 1)
        (pos 4)
        cron_process
        failing_result
        (world_of (running_run ∷ pending_run ∷ []))).1.store
    ≡ some pending_run
unfolding find_run same
finalize_run_result_frame_example =
    finalize_run_result_frame (env_failing (λ n. true)) no_hooks "run_2" "wsp_1" "rat_1" (pos 1)
      (pos 4) cron_process failing_result "run_1" pending_run
      (world_of (running_run ∷ pending_run ∷ [])) (λ e. other e) (λ run proc w p. p) refl
  where
    other : ◌≢◌ {A = String} "run_1" "run_2"
    other e = absurd (false≢true ((same_iff "run_1" "run_2").1 e))

abbrev polled_row : AsyncRunPollRow
polled_row = record {
  id = "run_2";
  workspace_id = "wsp_1";
  process_id = "prc_1";
  attempt = pos 1;
  state = State.kill_requested;
  started_at = pos 4;
  attempt_id = "rat_1";
  execution_handle = "h";
  stdout_offset = pos 0;
  stderr_offset = pos 0;
  execution_method = "ssh";
}

finalize_run_killed_example :
    find_run "run_2"
      (finalize_run_killed reliable_env no_hooks polled_row cron_process failing_result
        one_running).1.store
    ≡ some (killed_row (pos 0) (duration_ms (pos 0) (pos 4)) failing_result running_run)
unfolding find_run same
finalize_run_killed_example =
    (finalize_run_killed_lem reliable_env no_hooks polled_row cron_process failing_result
        running_run one_running (λ n. refl) (λ x run proc w p. p) refl 0 refl refl).0
      refl

-- One chunk is stored, and the offset of its stream moves.
store_chunks_example :
    let s = (store_chunks reliable_env polled_row running_poll one_running).1.store in
    let (a, b) = next_offsets polled_row running_poll in
    (new : List RunOutput) × (s.run_output ≡ [] ++ new)
    × ((find_run "run_2" s ≡ some running_run)
        ⊎ ((find_run "run_2" s ≡ some (moved a b running_run))
            × (map piece new ≡ pieces "run_2" running_poll)))
    × (IsReliable reliable_env
        → not (eqb_ℤ a (pos 0)) || not (eqb_ℤ b (pos 0)) ≡ true
        → length new ≡ length (pieces "run_2" running_poll)
        → find_run "run_2" s ≡ some (moved a b running_run))
unfolding find_run same
store_chunks_example =
    store_chunks_lem reliable_env polled_row running_poll running_run one_running refl

abbrev two_active : World
two_active = world_of (pending_run ∷ running_run ∷ retrying_run ∷ [])

abbrev env_with_method : Env
env_with_method = record reliable_env { registry = ("http", failing_method) ∷ [] }

abbrev one_active : World
one_active = world_of (pending_run ∷ running_run ∷ [])

skip_triggers_nothing_example :
    (dispatch reliable_env wired_hooks pending_run two_active).1.store
    ≡ update_run "run_1" (apply_update (to_state State.skipped)) two_active.store
unfolding get_process same count_active_by_process is_final_terminal
skip_triggers_nothing_example =
    skip_triggers_nothing reliable_env (λ n. refl) wired_hooks pending_run cron_process two_active
      refl refl refl refl refl (omega arith) refl
