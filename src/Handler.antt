-- ===== src/Handler.antt =====
-- internal/handler/service.go: the handlers that cancel and kill a run, and that pause and resume a
-- process. The workspace and the actor, which the middleware puts into the context, and the
-- parameters of the request are arguments.
pub mod Runs
pub mod Pausing
pub mod Jobs
pub mod Kills
pub mod Replays
pub mod Enqueue
pub mod Workers
pub mod Triggers
pub mod Queues
pub mod QueueTrip
use croncontrol.Prelude.{Bool, true, false, Option, none, some, String, if◌then◌else◌}
use croncontrol.RunState.{
  State, pending, waiting_for_worker, queued, running, retrying, paused, kill_requested, cancelled,
}
use croncontrol.Store.{
  Run, UpdateRunState, to_state, update_run_state, get_run, set_process_enabled, bulk_cancel_runs,
  bulk_pause_runs, bulk_resume_runs,
}
use croncontrol.World.{Env, M, ◌>>=◌, ◌>>◌, pure, fetch_row}
use croncontrol.Executor.Terminal.{attempt_exec}

pub record Actor : Type 0 where
  pub kind : String
  pub id : String

-- What is written to the client.
pub data Response : Type 0 where
  -- 404, `Run not found`.
  not_found : Response
  -- 200, with a state of a run as the status.
  run_status : State → Response
  -- 200, with the status of a process.
  process_status : String → Response

-- The update that requests a kill.
abbrev pub kill_request : Actor → UpdateRunState
kill_request actor = record (to_state kill_requested) {
  killed_by_actor_type = some actor.kind;
  killed_by_actor_id = some actor.id;
}

module _ (env : Env) where
  abbrev write_state : String → UpdateRunState → M Response
  write_state run_id u = attempt_exec env (update_run_state run_id u) >> pure (run_status u.state)

  -- The switch of `CancelRun`.
  unfoldable pub cancel_in : Actor → String → State → M Response
  cancel_in actor run_id pending = write_state run_id (to_state cancelled)
  cancel_in actor run_id queued = write_state run_id (to_state cancelled)
  cancel_in actor run_id waiting_for_worker = write_state run_id (to_state cancelled)
  cancel_in actor run_id paused = write_state run_id (to_state cancelled)
  cancel_in actor run_id retrying = write_state run_id (to_state cancelled)
  cancel_in actor run_id running = write_state run_id (kill_request actor)
  cancel_in actor run_id state = pure (run_status state)

  -- `CancelRun`.
  unfoldable pub cancel_run : Actor → String → String → M Response
  cancel_run actor run_id workspace_id = do
    row ← fetch_row env (get_run run_id workspace_id)
    elim row [ none ↦ pure not_found | some run ↦ cancel_in actor run_id run.state ]

  -- `KillRun`.
  unfoldable pub kill_run : Actor → String → String → M Response
  kill_run actor run_id workspace_id = do
    row ← fetch_row env (get_run run_id workspace_id)
    elim row [ none ↦ pure not_found | some run ↦ write_state run_id (kill_request actor) ]

  -- `PauseProcess`.
  unfoldable pub pause_process : Bool → String → String → M Response
  pause_process cancel_pending process_id workspace_id = do
    attempt_exec env (set_process_enabled process_id workspace_id false)
    attempt_exec env (
        if cancel_pending
        then bulk_cancel_runs process_id workspace_id
        else bulk_pause_runs process_id workspace_id)
    pure (process_status "paused")

  -- `ResumeProcess`.
  unfoldable pub resume_process : String → String → M Response
  resume_process process_id workspace_id = do
    attempt_exec env (set_process_enabled process_id workspace_id true)
    attempt_exec env (bulk_resume_runs process_id workspace_id)
    pure (process_status "resumed")
