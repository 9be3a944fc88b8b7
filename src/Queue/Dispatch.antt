-- ===== src/Queue/Dispatch.antt =====
-- internal/queue/processor.go: `tick`, which claims jobs, and `dispatch`, which starts a claimed job.
use croncontrol.Prelude.{
  ℤ, pos, ◌+ℤ◌, eqb_ℤ, leb_ℤ, int32, Bool, false, Option, none, some, List, [], ◌∷◌, String,
  if◌then◌else◌,
}
use croncontrol.JobState.{State}
use croncontrol.Store.{
  Bytes, Message, Runtime, ClaimedJob, to_job_state, update_job_state, snapshot_job_config,
  save_job_execution_handle, create_job_attempt, count_running_by_queue, claim_pending_jobs,
}
use croncontrol.World.{Env, M, ◌>>=◌, ◌>>◌, done, pure, exec, fetch, now, fresh, call}
use croncontrol.Executor.Method.{Handle, StartResult, Method, get}
use croncontrol.Executor.Dispatch.{handle_or}
use croncontrol.Executor.Terminal.{attempt_exec}
use croncontrol.Queue.Config.{build_job_method_config}
use croncontrol.Queue.Finalize.{fail_job, finalize_job_result}

-- The callback of main.go that routes a job to a worker. The answer is the text of the error.
abbrev pub WorkerDispatch : Type 0
WorkerDispatch = ClaimedJob → M (Option String)

abbrev pub override : {A : Type 0} → A → Option A → A
override d none = d
override d (some a) = a

-- `runtime == "worker" && p.workerDispatch != nil`.
abbrev pub worker_route : Option WorkerDispatch → ClaimedJob → Option WorkerDispatch
worker_route worker_dispatch c = elim (override c.queue.runtime c.job.runtime_override) [
  | Runtime.worker ↦ worker_dispatch
  | Runtime.direct ↦ none
]

-- `getRetryBackoffString`.
abbrev pub get_retry_backoff_string : ClaimedJob → Bytes
get_retry_backoff_string c = override c.queue.retry_backoff c.job.retry_backoff

abbrev pub max_attempts_of : ClaimedJob → ℤ
max_attempts_of c = override c.queue.max_attempts c.job.max_attempts

module _ (env : Env) where
  -- `saveJobExecutionHandle`; the answer says that there is no error.
  unfoldable pub save_job_handle : String → Handle → M Bool
  save_job_handle job_id handle = elim (env.encode_handle handle) [
    | none ↦ pure false
    | some text ↦ exec env (save_job_execution_handle job_id text)
  ]

  -- A handle that has to be polled later.
  unfoldable pub accept_job : ClaimedJob → Handle → M (Unit {0})
  accept_job c handle = do
    ok ← save_job_handle c.job.id (handle_or c.queue.execution_method c.job.id handle)
    if ok then done else fail_job env c.job.id (pos 0)

  -- From the answer of `Start` on; its error is not read.
  unfoldable pub after_job_start : ClaimedJob → String → ℤ → ℤ → StartResult → M (Unit {0})
  after_job_start c attempt_id attempt started answer = elim answer.result [
    | none ↦ accept_job c answer.handle
    | some result ↦
        finalize_job_result env c.job.id attempt_id attempt c.job.state started (max_attempts_of c)
          (get_retry_backoff_string c) c.queue.max_response_size result false
  ]

  -- `SnapshotJobConfig` on the first attempt.
  unfoldable pub snapshot_first : ClaimedJob → ℤ → String → M (Unit {0})
  snapshot_first c attempt config =
      if eqb_ℤ attempt (pos 1)
      then attempt_exec env
          (snapshot_job_config c.job.id (env.encode_job_snapshot c.queue.execution_method config))
      else done

  -- Behind the transition to `running`.
  unfoldable pub run_job : ClaimedJob → Method → ℤ → String → M (Unit {0})
  run_job c method attempt config = do
    snapshot_first c attempt config
    started ← now env
    attempt_id ← fresh env "jat_"
    attempt_exec env (create_job_attempt attempt_id c.job.id attempt started config)
    (answer, err) ← call env (λ n.
        method.start n
          (record { run_id = c.job.id; workspace_id = c.job.workspace_id; method_config = config }))
    after_job_start c attempt_id attempt started answer

  -- The transition to `running`, which ends the dispatch where it fails.
  unfoldable pub start_job : ClaimedJob → Method → ℤ → M (Unit {0})
  start_job c method attempt = do
    ok ←
        exec env (
          update_job_state c.job.id
            (record (to_job_state State.running) { attempt = some attempt }))
    if ok
        then run_job c method attempt
            (env.encode_object (build_job_method_config env c.queue.method_config c.job.payload))
        else done

  -- Behind the check of the queue's concurrency.
  unfoldable pub dispatch_direct : ClaimedJob → M (Unit {0})
  dispatch_direct c = elim (get c.queue.execution_method env.registry) [
    | none ↦ fail_job env c.job.id (pos 0)
    | some method ↦ start_job c method (int32 (c.job.attempt +ℤ pos 1))
  ]

  unfoldable pub check_concurrency : ClaimedJob → M (Unit {0})
  check_concurrency c = do
    running ← fetch env (count_running_by_queue c.job.queue_id)
    elim running [
      | none ↦ done
      | some n ↦ if leb_ℤ c.queue.concurrency (pos n) then done else dispatch_direct c
    ]

  unfoldable pub dispatch_job_to_worker : WorkerDispatch → ClaimedJob → M (Unit {0})
  dispatch_job_to_worker worker_dispatch c = do
    err ← worker_dispatch c
    elim err [
      | none ↦ done
      | some text ↦ attempt_exec env (
          update_job_state c.job.id (record (to_job_state State.waiting_for_worker) {
            waiting_reason = some (Message.prefixed "Worker dispatch failed: " text);
          }))
    ]

  -- `dispatch`.
  unfoldable pub dispatch_job : Option WorkerDispatch → ClaimedJob → M (Unit {0})
  dispatch_job worker_dispatch c = elim (worker_route worker_dispatch c) [
    | some f ↦ dispatch_job_to_worker f c
    | none ↦ check_concurrency c
  ]

  unfoldable pub dispatch_jobs : Option WorkerDispatch → List ClaimedJob → M (Unit {0})
  dispatch_jobs worker_dispatch [] = done
  dispatch_jobs worker_dispatch (c ∷ cs) =
      dispatch_job worker_dispatch c >> dispatch_jobs worker_dispatch cs

  commit_jobs : Option WorkerDispatch → List ClaimedJob → M (Unit {0})
  commit_jobs worker_dispatch jobs = do
    committed ← exec env (λ s. some s)
    if committed then dispatch_jobs worker_dispatch jobs else done

  claim_jobs : Option WorkerDispatch → M (Unit {0})
  unfolding commit_jobs
  claim_jobs worker_dispatch = do
    t ← now env
    jobs ← fetch env (claim_pending_jobs t 10)
    elim jobs [ none ↦ done | some cs ↦ commit_jobs worker_dispatch cs ]

  -- `tick`: the goroutines in the order of the claimed rows.
  unfoldable pub tick_jobs : Option WorkerDispatch → M (Unit {0})
  unfolding claim_jobs
  tick_jobs worker_dispatch = do
    begun ← exec env (λ s. some s)
    if begun then claim_jobs worker_dispatch else done
