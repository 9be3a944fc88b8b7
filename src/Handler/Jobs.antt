-- ===== src/Handler/Jobs.antt =====
-- internal/handler/service.go: the handlers `CancelJob` and `ReplayJob`, and `WorkerPoll` and
-- `WorkerControlPoll`, behind the authentication of the worker.
use croncontrol.Prelude.{
  ℤ, pos, Option, none, some, List, [], ◌∷◌, ◌++◌, map, String, if◌then◌else◌, ◌&&◌, same, any,
  keep,
}
use croncontrol.RunState
use croncontrol.JobState.{
  State, pending, waiting_for_worker, running, retrying, kill_requested, is_state,
}
use croncontrol.Store.{
  Store, Job, to_state, update_run_state, to_job_state, update_job_state, cancel_job, get_job,
  CreateReplayJob, create_replay_job, create_job_attempt, is_value,
}
use croncontrol.World.{
  Env, Task, M, ◌>>=◌, ◌>>◌, pure, exec, exec_row, fetch, fetch_row, now, fresh,
}
use croncontrol.Executor.Terminal.{attempt_exec}
use croncontrol.Worker.Dispatcher.{poll_task}
use croncontrol.Handler.{Actor}

-- What is written to the client.
pub data JobResponse : Type 0 where
  -- 404, `Job not found`.
  job_not_found : JobResponse
  -- 200, with a state of a job as the status.
  job_status : State → JobResponse
  -- 201, with the new job.
  job_created : Job → JobResponse
  -- 500.
  internal_error : JobResponse

abbrev pub or_zero : Option ℤ → ℤ
or_zero none = pos 0
or_zero (some n) = n

-- The parameters that `ReplayJob` builds; the payload and the priority are the request's.
abbrev pub replay_params : Actor → String → String → Option String → Option ℤ → CreateReplayJob
replay_params actor job_id new_id payload priority = record {
  id = job_id;
  new_id = new_id;
  actor_type = some actor.kind;
  actor_id = some actor.id;
  override_payload = payload;
  override_priority = some (or_zero priority);
}

-- The query of `WorkerControlPoll` on runs, and that on jobs.
unfoldable pub killed_runs : String → List String → Store → List String
killed_runs worker_id active s =
    map (λ r. r.id)
      (keep
        (λ r.
          is_value worker_id r.worker_id
          && RunState.is_state r.state RunState.State.kill_requested
          && any (same r.id) active)
        s.runs)

unfoldable pub killed_jobs : String → List String → Store → List String
killed_jobs worker_id active s =
    map (λ j. j.id)
      (keep
        (λ j.
          is_value worker_id j.worker_id
          && is_state j.state kill_requested
          && any (same j.id) active)
        s.jobs)

module _ (env : Env) where
  abbrev pub write_cancel : String → M JobResponse
  write_cancel job_id =
      attempt_exec env (cancel_job job_id (some "manual")) >> pure (job_status State.cancelled)

  -- The switch of `CancelJob`.
  unfoldable pub cancel_job_in : String → State → M JobResponse
  cancel_job_in job_id pending = write_cancel job_id
  cancel_job_in job_id waiting_for_worker = write_cancel job_id
  cancel_job_in job_id retrying = write_cancel job_id
  cancel_job_in job_id running =
      attempt_exec env (
        update_job_state job_id
          (record (to_job_state kill_requested) { cancel_reason = some "manual" }))
      >> pure (job_status kill_requested)
  cancel_job_in job_id state = pure (job_status state)

  -- `CancelJob`.
  unfoldable pub request_job_cancel : String → String → M JobResponse
  request_job_cancel job_id workspace_id = do
    row ← fetch_row env (get_job job_id workspace_id)
    elim row [ none ↦ pure job_not_found | some job ↦ cancel_job_in job_id job.state ]

  -- `ReplayJob`; the workspace is not read.
  unfoldable pub replay_job : Actor → String → Option String → Option ℤ → M JobResponse
  replay_job actor job_id payload priority = do
    new_id ← fresh env "job_"
    t ← now env
    row ← exec_row env (create_replay_job (replay_params actor job_id new_id payload priority) t)
    elim row [ none ↦ pure internal_error | some job ↦ pure (job_created job) ]

  -- The run of a task that a worker takes is running.
  start_run_task : String → Task → M (Option Task)
  start_run_task worker_id task = do
    t ← now env
    attempt_exec env (
        update_run_state task.id (record (to_state RunState.State.running) {
          started_at = some t;
          worker_id = some worker_id;
        }))
    pure (some task)

  -- The attempt of the job of a task; `none` is 500.
  unfoldable pub start_job_task : String → Task → Job → M (Option Task)
  start_job_task worker_id task job = do
    t ← now env
    attempt_id ← fresh env "jat_"
    ok ← exec env (create_job_attempt attempt_id task.id job.attempt t task.method_config)
    if ok
        then (attempt_exec env (
              update_job_state task.id
                (record (to_job_state State.running) { worker_id = some worker_id }))
            >> pure (some (record task { attempt_id = attempt_id })))
        else pure none

  -- The switch of `WorkerPoll` on a task of a worker.
  unfoldable pub deliver : String → String → Task → M (Option Task)
  unfolding start_run_task start_job_task
  deliver worker_id workspace_id task =
      if same task.kind "run"
      then start_run_task worker_id task
      else if same task.kind "job"
      then (do
        row ← fetch_row env (get_job task.id workspace_id)
        elim row [ none ↦ pure none | some job ↦ start_job_task worker_id task job ])
      else pure (some task)

  -- `WorkerPoll`: the task that is written to the client; `none` where there is none.
  unfoldable pub worker_poll : String → String → M (Option Task)
  worker_poll worker_id workspace_id = do
    found ← poll_task worker_id
    elim found [ none ↦ pure none | some task ↦ deliver worker_id workspace_id task ]

  add_killed_jobs : String → List String → List String → M (Option (List String))
  add_killed_jobs worker_id active runs = do
    jobs ← fetch env (killed_jobs worker_id active)
    elim jobs [ none ↦ pure none | some ids ↦ pure (some (runs ++ ids)) ]

  load_commands : String → List String → M (Option (List String))
  unfolding add_killed_jobs
  load_commands worker_id active = do
    runs ← fetch env (killed_runs worker_id active)
    elim runs [ none ↦ pure none | some ids ↦ add_killed_jobs worker_id active ids ]

  -- `WorkerControlPoll`: the tasks that the worker is told to kill; `none` is 500.
  unfoldable pub worker_control_poll : String → List String → M (Option (List String))
  unfolding load_commands
  worker_control_poll worker_id [] = pure (some [])
  worker_control_poll worker_id (a ∷ active) = load_commands worker_id (a ∷ active)
