-- ===== src/Wiring.antt =====
-- main.go: the callbacks through which the orchestrator and the queue processor reach the worker
-- dispatcher. `resolveCredentialsForWorker`, which reads the tables of credentials, is a parameter.
pub mod AtAttempt
pub mod Round
use croncontrol.Prelude.{
  ℤ, pos, ◌+ℤ◌, eqb_ℤ, int32, Bool, true, false, Option, none, some, List, String, if◌then◌else◌,
  same,
}
use croncontrol.RunState
use croncontrol.JobState
use croncontrol.Store.{
  Message, Run, Process, ClaimedJob, UpdateRunState, UpdateJobState, to_state, update_run_state,
  to_job_state, update_job_state, snapshot_job_config,
}
use croncontrol.World.{Env, Task, M, ◌>>=◌, ◌>>◌, done, pure, exec}
use croncontrol.Executor.Terminal.{attempt_exec}
use croncontrol.Queue.Config.{queue_config, build_job_method_config}
use croncontrol.Worker.Dispatcher.{
  Dispatched, selected, unavailable, dispatch_failed, dispatch_task,
}

-- `firstNonEmptyPtr`, of two values; the empty text stands for nil.
unfoldable pub first_non_empty : Option String → Option String → String
first_non_empty none none = ""
first_non_empty none (some b) = b
first_non_empty (some a) none = a
first_non_empty (some a) (some b) = if same a "" then b else a

abbrev pub text_of : Option String → String
text_of none = ""
text_of (some a) = a

-- The configuration with its credentials, or `none` for an error.
abbrev pub Resolver : Type 0
Resolver = String → List (String × String) → M (Option (List (String × String)))

abbrev pub run_task : Run → Process → String → Task
run_task run proc config = record {
  id = run.id;
  kind = "run";
  attempt_id = "";
  workspace_id = proc.workspace_id;
  execution_method = proc.execution_method;
  method_config = config;
}

abbrev pub job_task : ClaimedJob → String → Task
job_task c config = record {
  id = c.job.id;
  kind = "job";
  attempt_id = "";
  workspace_id = c.job.workspace_id;
  execution_method = c.queue.execution_method;
  method_config = config;
}

-- What a run that waits for a worker is set to.
abbrev pub run_waits : UpdateRunState
run_waits = record (to_state RunState.State.waiting_for_worker) {
  waiting_reason = some (Message.plain "Waiting for available worker");
}

abbrev pub run_assigned : String → UpdateRunState
run_assigned worker_id = record (to_state RunState.State.waiting_for_worker) {
  waiting_reason = some (Message.prefixed "Assigned to worker " worker_id);
  worker_id = some worker_id;
}

abbrev pub job_waits : UpdateJobState
job_waits = record (to_job_state JobState.State.waiting_for_worker) {
  waiting_reason = some (Message.plain "Waiting for available worker");
}

abbrev pub job_assigned : String → ℤ → UpdateJobState
job_assigned worker_id attempt = record (to_job_state JobState.State.waiting_for_worker) {
  attempt = some attempt;
  waiting_reason = some (Message.prefixed "Assigned to worker " worker_id);
  worker_id = some worker_id;
}

module _ (env : Env) where
  -- The text of the last error.
  abbrev last_error : M (Option String)
  last_error w = (some (env.error_text w.step), w)

  -- The error of a statement, if there is one.
  abbrev pub error_of : Bool → M (Option String)
  error_of true = pure none
  error_of false = last_error

  write_run : Run → UpdateRunState → M (Option String)
  write_run run u = exec env (update_run_state run.id u) >>= error_of

  -- Behind `Dispatch`, for a run.
  unfoldable pub assign_run : Run → Dispatched → M (Option String)
  unfolding write_run
  assign_run run dispatch_failed = last_error
  assign_run run unavailable = write_run run run_waits
  assign_run run (selected worker_id) =
      if same worker_id "" then write_run run run_waits else write_run run (run_assigned worker_id)

  unfoldable pub write_job : ClaimedJob → UpdateJobState → M (Option String)
  write_job c u = exec env (update_job_state c.job.id u) >>= error_of

  unfoldable pub snapshot_job : ClaimedJob → ℤ → String → M (Unit {0})
  snapshot_job c attempt config =
      if eqb_ℤ attempt (pos 1)
      then attempt_exec env
          (snapshot_job_config c.job.id (env.encode_job_snapshot c.queue.execution_method config))
      else done

  -- Behind `Dispatch`, for a job.
  unfoldable pub assign_job : ClaimedJob → String → Dispatched → M (Option String)
  unfolding write_job snapshot_job
  assign_job c config dispatch_failed = last_error
  assign_job c config unavailable = write_job c job_waits
  assign_job c config (selected worker_id) =
      let attempt = int32 (c.job.attempt +ℤ pos 1) in
      if same worker_id ""
      then write_job c job_waits
      else (snapshot_job c attempt config >> write_job c (job_assigned worker_id attempt))

  module _ (resolve : Resolver) where
    -- The callback of the orchestrator.
    unfoldable pub dispatch_run_to_worker : Run → Process → M (Option String)
    dispatch_run_to_worker run proc = do
      resolved ← resolve proc.execution_method (queue_config env proc.method_config)
      elim resolved [
        | none ↦ last_error
        | some config ↦
            dispatch_task env proc.workspace_id (run_task run proc (env.encode_object config))
              (text_of proc.worker_id) (text_of proc.worker_labels)
            >>= assign_run run
      ]

    -- The callback of the queue processor.
    unfoldable pub dispatch_job_by_worker : ClaimedJob → M (Option String)
    dispatch_job_by_worker c = do
      resolved ←
          resolve c.queue.execution_method
            (build_job_method_config env c.queue.method_config c.job.payload)
      elim resolved [
        | none ↦ last_error
        | some config ↦
            dispatch_task env c.job.workspace_id (job_task c (env.encode_object config))
              (first_non_empty c.job.worker_id_override c.queue.worker_id)
              (text_of c.job.worker_labels_override)
            >>= assign_job c (env.encode_object config)
      ]
