-- ===== src/Queue/Concurrency.antt =====
-- internal/queue/processor.go, `dispatch`: the number of running jobs of a queue.
use croncontrol.Prelude.{
  ℕ, ◌+◌, ◌≤◌, ◌≡◌, refl, subst, ℤ, pos, leb_ℤ, ltb_ℤ, Bool, false, Option, none, some, String,
  if◌then◌else◌, ◌&&◌, same, Bool-cases, Option-cases, inl, inr, arith,
}
use croncontrol.JobState.{State, is_state, running}
use croncontrol.Store.{
  Bytes, Store, Job, ClaimedJob, to_job_state, UpdateJobState, apply_job_update, update_job,
  update_job_state, clear_job_execution_handle, finish_job_attempt, update_attempt,
  snapshot_job_config, save_job_execution_handle, create_job_attempt, count_running_by_queue,
}
use croncontrol.Store.JobLaws.{
  AddsNoRunning, count_running-update_job_le, count_keyed, count_running-update_job_add,
}
use croncontrol.World.{World, Env, done, now, tick, send, panic, exec, fresh, call}
use croncontrol.World.Hoare.{Keeps, exec-Keeps, exec-cases, if-Keeps, fetch_then}
use croncontrol.Executor.Method.{Handle, Result, StartResult, Method, get, is_success}
use croncontrol.Executor.Terminal.{attempt_exec}
use croncontrol.Queue.Finalize.{
  calculate_job_backoff, get_backoff_list_from_string, fail_job, finish_attempt_of_job, log_attempt,
  record_job_result, retry_job, end_job, settle_job, finalize_job_result,
}
use croncontrol.Queue.Dispatch.{
  WorkerDispatch, worker_route, save_job_handle, accept_job, after_job_start, snapshot_first,
  run_job, start_job, dispatch_direct, check_concurrency, dispatch_job, max_attempts_of,
  get_retry_backoff_string,
}

abbrev to_running : ℤ → UpdateJobState
to_running attempt = record (to_job_state State.running) { attempt = some attempt }

-- At most `n` jobs of the queue run.
abbrev pub RunsAtMost : String → ℕ → Store → Type 0
RunsAtMost queue_id n s = count_running_by_queue queue_id s ≤ n

module _ (env : Env) (queue_id : String) (n : ℕ) where
  -- A change of a job's row that makes no job run.
  change_job-Keeps :
      (job_id : String) (f : Job → Job)
      → AddsNoRunning f
      → Keeps (RunsAtMost queue_id n) (exec env (λ s. some (update_job job_id f s)))
  change_job-Keeps job_id f h =
      exec-Keeps env (RunsAtMost queue_id n) (λ s. some (update_job job_id f s))
        (λ s s' e p.
          let q : update_job job_id f s ≡ s' = cc in
          let le = count_running-update_job_le queue_id job_id f s h in
          subst (RunsAtMost queue_id n) q (omega (arith, le, p)))

  -- A transition to another state than `running`.
  leave_running-Keeps :
      (job_id : String) (u : UpdateJobState)
      → is_state u.state running ≡ false
      → Keeps (RunsAtMost queue_id n) (attempt_exec env (update_job_state job_id u))
  unfolding update_job_state apply_job_update
  leave_running-Keeps job_id u h =
      change_job-Keeps job_id (apply_job_update u) (λ j q e. ground (arith, h))

  -- A statement on other tables than the jobs.
  other_table-Keeps :
      (f : Store → Option Store)
      → ((s s' : Store) → f s ≡ some s' → s'.jobs ≡ s.jobs)
      → Keeps (RunsAtMost queue_id n) (exec env f)
  unfolding count_running_by_queue
  other_table-Keeps f h = exec-Keeps env (RunsAtMost queue_id n) f (λ s s' e p. rw (h s s' e) p)

  fail_job-Keeps : (job_id : String) (d : ℤ) → Keeps (RunsAtMost queue_id n) (fail_job env job_id d)
  unfolding fail_job
  fail_job-Keeps job_id d = leave_running-Keeps job_id _ refl

  finish_attempt-Keeps :
      (attempt_id : String) (t d max : ℤ) (result : Result)
      → Keeps (RunsAtMost queue_id n) (finish_attempt_of_job env attempt_id t d max result)
  unfolding finish_attempt_of_job finish_job_attempt update_attempt
  finish_attempt-Keeps attempt_id t d max result =
      if-Keeps (RunsAtMost queue_id n) (same attempt_id "") done _ (λ w p. p)
        (other_table-Keeps (finish_job_attempt attempt_id _) (λ s s' e. ground arith))

  record_job_result-Keeps :
      (job_id attempt_id : String) (attempt started t d max : ℤ) (result : Result)
      → Keeps
          (RunsAtMost queue_id n)
          (record_job_result env job_id attempt_id attempt started t d max result)
  unfolding record_job_result clear_job_execution_handle log_attempt send
  record_job_result-Keeps job_id attempt_id attempt started t d max result w p =
      change_job-Keeps job_id _ (λ j q e. e) _
        (if-Keeps (RunsAtMost queue_id n) env.has_log_backend _ done (λ w p. p) (λ w p. p) _
          (finish_attempt-Keeps attempt_id t d max result w p))

  retry_job-Keeps :
      (job_id : String) (attempt : ℤ) (text : Bytes) (t : ℤ)
      → Keeps (RunsAtMost queue_id n) (retry_job env job_id attempt text t)
  unfolding retry_job panic
  retry_job-Keeps job_id attempt text t w p =
      elim (Option-cases
        (calculate_job_backoff t attempt (get_backoff_list_from_string env.parse_duration text))) [
          | inl e ↦ rw (e, retry_job) p
          | inr (next_at, e) ↦ rw (e, retry_job) (leave_running-Keeps job_id _ refl w p)
        ]

  settle_job-Keeps :
      (job_id : String) (attempt max : ℤ) (text : Bytes) (t d : ℤ) (result : Result)
      → Keeps (RunsAtMost queue_id n) (settle_job env job_id attempt max text t d result)
  unfolding settle_job end_job
  settle_job-Keeps job_id attempt max text t d result =
      if-Keeps (RunsAtMost queue_id n) (is_success result) _ _ (leave_running-Keeps job_id _ refl) (
        if-Keeps (RunsAtMost queue_id n) (ltb_ℤ attempt max) _ _
          (retry_job-Keeps job_id attempt text t) (fail_job-Keeps job_id d))

  -- The end of an attempt makes no job run, whatever calls of the database fail.
  pub finalize_job_result-Keeps :
      (job_id attempt_id : String) (attempt : ℤ) (state : State) (started max : ℤ) (text : Bytes)
      (max_size : ℤ) (result : Result) (was_killed : Bool)
      → Keeps (RunsAtMost queue_id n) (
          finalize_job_result env job_id attempt_id attempt state started max text max_size result
            was_killed)
  unfolding finalize_job_result now end_job
  finalize_job_result-Keeps job_id attempt_id attempt state started max text max_size result
        was_killed w p =
      if-Keeps (RunsAtMost queue_id n) (was_killed && is_state state State.kill_requested) _ _
        (leave_running-Keeps job_id _ refl) (settle_job-Keeps job_id attempt max text _ _ result) _
        (record_job_result-Keeps job_id attempt_id attempt started _ _ max_size result (tick w) p)

  save_job_handle-Keeps :
      (job_id : String) (handle : Handle)
      → Keeps (RunsAtMost queue_id n) (save_job_handle env job_id handle)
  unfolding save_job_handle save_job_execution_handle
  save_job_handle-Keeps job_id handle w p = elim (Option-cases (env.encode_handle handle)) [
    | inl e ↦ rw (e, save_job_handle) p
    | inr (text, e) ↦ rw (e, save_job_handle) (change_job-Keeps job_id _ (λ j q e. e) w p)
  ]

  accept_job-Keeps :
      (c : ClaimedJob) (handle : Handle) → Keeps (RunsAtMost queue_id n) (accept_job env c handle)
  unfolding accept_job
  accept_job-Keeps c handle w p =
      if-Keeps (RunsAtMost queue_id n) _ done _ (λ w p. p) (fail_job-Keeps c.job.id (pos 0)) _
        (save_job_handle-Keeps c.job.id _ w p)

  after_job_start-Keeps :
      (c : ClaimedJob) (attempt_id : String) (attempt started : ℤ) (answer : StartResult)
      → Keeps (RunsAtMost queue_id n) (after_job_start env c attempt_id attempt started answer)
  unfolding after_job_start
  after_job_start-Keeps c attempt_id attempt started answer w p =
      elim (Option-cases answer.result) [
        | inl e ↦ rw (e, after_job_start) (accept_job-Keeps c answer.handle w p)
        | inr (result, e) ↦
            rw (e, after_job_start)
              (finalize_job_result-Keeps c.job.id attempt_id attempt c.job.state started
                (max_attempts_of c) (get_retry_backoff_string c) c.queue.max_response_size result
                false w p)
      ]

  module _
      (others : (k : ℕ) (s : Store)
        → RunsAtMost queue_id n s
        → RunsAtMost queue_id n (env.others k s)) where
    run_job-Keeps :
        (c : ClaimedJob) (method : Method) (attempt : ℤ) (config : String)
        → Keeps (RunsAtMost queue_id n) (run_job env c method attempt config)
    unfolding run_job snapshot_first snapshot_job_config create_job_attempt now fresh call
    run_job-Keeps c method attempt config w p = after_job_start-Keeps c _ attempt _ _ _ (
        others _ _ (
          other_table-Keeps (create_job_attempt _ c.job.id attempt _ config)
            (λ s s' e. ground arith) _
            (if-Keeps (RunsAtMost queue_id n) _ _ done (change_job-Keeps c.job.id _ (λ j q e. e))
              (λ w p. p) w p)))

    -- One more job may run, if fewer than `n` did.
    start_job-RunsAtMost :
        (c : ClaimedJob) (method : Method) (attempt : ℤ) (w : World)
        → count_keyed c.job.id w.store ≤ 1
        → count_running_by_queue queue_id w.store + 1 ≤ n
        → RunsAtMost queue_id n (start_job env c method attempt w).1.store
    unfolding start_job update_job_state
    start_job-RunsAtMost c method attempt w unique below =
        elim (exec-cases env (update_job_state c.job.id (to_running attempt)) w) [
          | inl e ↦ rw e (omega (arith, below))
          | inr (s, q, e) ↦ rw e (
              run_job-Keeps c method attempt _ _ (
                let r : update_job c.job.id (apply_job_update (to_running attempt)) w.store ≡ s =
                  cc in
                subst (RunsAtMost queue_id n) r (
                  let le =
                    count_running-update_job_add queue_id c.job.id
                      (apply_job_update (to_running attempt)) w.store in
                  omega (arith, le, unique, below))))
        ]

    dispatch_direct-RunsAtMost :
        (c : ClaimedJob) (w : World)
        → count_keyed c.job.id w.store ≤ 1
        → count_running_by_queue queue_id w.store + 1 ≤ n
        → RunsAtMost queue_id n (dispatch_direct env c w).1.store
    unfolding dispatch_direct
    dispatch_direct-RunsAtMost c w unique below =
        elim (Option-cases (get c.queue.execution_method env.registry)) [
          | inl e ↦
              rw (e, dispatch_direct) (fail_job-Keeps c.job.id (pos 0) w (omega (arith, below)))
          | inr (method, e) ↦
              rw (e, dispatch_direct) (start_job-RunsAtMost c method _ w unique below)
        ]

check_concurrency-RunsAtMost :
    (env : Env) (n : ℕ) (c : ClaimedJob) (w : World)
    → ((k : ℕ) (s : Store)
        → RunsAtMost c.job.queue_id n s
        → RunsAtMost c.job.queue_id n (env.others k s))
    → c.queue.concurrency ≡ pos n
    → count_keyed c.job.id w.store ≤ 1
    → RunsAtMost c.job.queue_id n w.store
    → RunsAtMost c.job.queue_id n (check_concurrency env c w).1.store
unfolding check_concurrency
check_concurrency-RunsAtMost env n c w others limit unique p =
    fetch_then env (RunsAtMost c.job.queue_id n) (count_running_by_queue c.job.queue_id)
      (λ running. if leb_ℤ c.queue.concurrency (pos running) then done else dispatch_direct env c) w
      p
      (elim (Bool-cases
        (leb_ℤ c.queue.concurrency (pos (count_running_by_queue c.job.queue_id w.store)))) [
          | inl full ↦ rw full p
          | inr free ↦ rw free (
              dispatch_direct-RunsAtMost env c.job.queue_id n others c (tick w) unique
                (ground (arith, free, limit)))
        ])

-- Dispatching a job that runs without a worker keeps the number of running jobs of its queue within
-- the queue's concurrency, whatever calls of the database fail, whatever the method answers, and
-- whatever its configuration is, if no two jobs have its key and the other handlers keep the limit
-- while the method runs. (The dispatches of a tick are taken one after the other.)
pub dispatch_job-RunsAtMost :
    (env : Env) (worker_dispatch : Option WorkerDispatch) (n : ℕ) (c : ClaimedJob) (w : World)
    → ((k : ℕ) (s : Store)
        → RunsAtMost c.job.queue_id n s
        → RunsAtMost c.job.queue_id n (env.others k s))
    → worker_route worker_dispatch c ≡ none
    → c.queue.concurrency ≡ pos n
    → count_keyed c.job.id w.store ≤ 1
    → RunsAtMost c.job.queue_id n w.store
    → RunsAtMost c.job.queue_id n (dispatch_job env worker_dispatch c w).1.store
unfolding dispatch_job
dispatch_job-RunsAtMost env worker_dispatch n c w others direct limit unique p =
    rw (direct, dispatch_job) (check_concurrency-RunsAtMost env n c w others limit unique p)
