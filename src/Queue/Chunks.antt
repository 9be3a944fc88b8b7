-- ===== src/Queue/Chunks.antt =====
-- internal/queue/async_jobs.go, `pollAsyncJob`: what is left of the body of a response that a method
-- gives in chunks.
use croncontrol.Prelude.{
  ◌≡◌, ◌≢◌, refl, ap, ◌∙◌, ℤ, ltb_ℤ, int32, Bool, false, Option, none, some, String, find,
  find-update_where, find-passes, same, same_ne, Option-cases, Bool-cases, inl, inr, arith,
  if◌then◌else◌, ◌&&◌, ◌||◌, ◌++◌,
}
use mathlib.Core.Option
use croncontrol.JobState.{State, is_state}
use croncontrol.Store.{
  Bytes, Store, Job, JobAttempt, FinishJobAttempt, finished_attempt, update_attempt,
  finish_job_attempt, append_job_attempt_response_chunk, or_empty, update_job, update_job_state,
  apply_job_update, clear_job_execution_handle, update_job_offsets, UpdateJobState,
}
use croncontrol.World.{World, Env, now, tick, send, panic, done}
use croncontrol.World.Hoare.{Hoare, Keeps, IsReliable, exec-Keeps, exec_reliable, if-Keeps}
use croncontrol.Executor.Method.{Result, PollResult, is_success}
use croncontrol.Executor.Finalize.{duration_ms}
use croncontrol.Executor.Poll.{is_unfinished, is_empty}
use croncontrol.Executor.Terminal.{attempt_exec}
use croncontrol.Queue.Finalize.{
  truncate, calculate_job_backoff, get_backoff_list_from_string, fail_job, finish_attempt_of_job,
  log_attempt, record_job_result, retry_job, end_job, settle_job, finalize_job_result,
}
use croncontrol.Queue.Async.{
  AsyncJobPollRow, job_poll_result, mark_remote_failed, is_killed, store_job_offsets,
  append_job_chunk, finish_job_poll, after_job_poll,
}

-- The attempt with a key.
abbrev pub find_attempt : String → Store → Option JobAttempt
find_attempt id s = find (λ a. same a.id id) s.job_attempts

abbrev pub AttemptRow : String → JobAttempt → Store → Type 0
AttemptRow id a s = find_attempt id s ≡ some a

-- What `finalizeJobResult` writes about an attempt.
abbrev pub closing : ℤ → ℤ → ℤ → Result → FinishJobAttempt
closing finished duration max_size result = record {
  finished_at = finished;
  duration_ms = duration;
  response_code = Option.map int32 result.response_code;
  truncated = (truncate max_size result.response_body).1;
  response_body = (truncate max_size result.response_body).0;
  original_size = none;
  error_message = result.error;
}

module _ (env : Env) (id : String) (a : JobAttempt) where
  -- A change of a job.
  job-Keeps :
      (job_id : String) (f : Job → Job)
      → Keeps (AttemptRow id a) (attempt_exec env (λ s. some (update_job job_id f s)))
  unfolding update_job
  job-Keeps job_id f =
      exec-Keeps env (AttemptRow id a) (λ s. some (update_job job_id f s))
        (λ s s' e p. ground arith)

  update_job_state-Keeps :
      (job_id : String) (u : UpdateJobState)
      → Keeps (AttemptRow id a) (attempt_exec env (update_job_state job_id u))
  unfolding update_job_state
  update_job_state-Keeps job_id u = job-Keeps job_id (apply_job_update u)

  retry_job-Keeps :
      (job_id : String) (attempt : ℤ) (text : Bytes) (t : ℤ)
      → Keeps (AttemptRow id a) (retry_job env job_id attempt text t)
  unfolding retry_job panic
  retry_job-Keeps job_id attempt text t w p =
      elim (Option-cases
        (calculate_job_backoff t attempt (get_backoff_list_from_string env.parse_duration text))) [
          | inl e ↦ rw (e, retry_job) p
          | inr (next_at, e) ↦ rw (e, retry_job) (update_job_state-Keeps job_id _ w p)
        ]

  settle_job-Keeps :
      (job_id : String) (attempt max : ℤ) (text : Bytes) (t d : ℤ) (result : Result)
      → Keeps (AttemptRow id a) (settle_job env job_id attempt max text t d result)
  unfolding settle_job end_job fail_job
  settle_job-Keeps job_id attempt max text t d result =
      if-Keeps (AttemptRow id a) (is_success result) _ _ (update_job_state-Keeps job_id _) (
        if-Keeps (AttemptRow id a) (ltb_ℤ attempt max) _ _ (retry_job-Keeps job_id attempt text t)
          (update_job_state-Keeps job_id _))

  -- A job ends as killed, or is settled.
  end-Keeps :
      (b : Bool) (job_id : String) (attempt max : ℤ) (text : Bytes) (t d : ℤ) (result : Result)
      → Keeps (AttemptRow id a) (
          if b
          then end_job env job_id State.killed d
          else settle_job env job_id attempt max text t d result)
  unfolding end_job
  end-Keeps b job_id attempt max text t d result =
      if-Keeps (AttemptRow id a) b _ _ (update_job_state-Keeps job_id _)
        (settle_job-Keeps job_id attempt max text t d result)

module _ (env : Env) (reliable : IsReliable env) (id : String) (given : id ≢ "") where
  change_attempt_reliable :
      (f : JobAttempt → JobAttempt) (a : JobAttempt)
      → ((a : JobAttempt) → (f a).id ≡ a.id)
      → Hoare
          (AttemptRow id a)
          (attempt_exec env (λ s. some (update_attempt id f s)))
          (AttemptRow id (f a))
  unfolding update_attempt
  change_attempt_reliable f a k w p =
      rw
        (exec_reliable env (λ s. some (update_attempt id f s)) w (update_attempt id f w.store)
          reliable refl)
        (find-update_where (λ x. same x.id id) f w.store.job_attempts a p
          (ap (λ i. same i id) (k a) ∙ find-passes (λ x. same x.id id) w.store.job_attempts a p))

  finish_attempt_reliable :
      (t d max_size : ℤ) (result : Result) (a : JobAttempt)
      → Hoare
          (AttemptRow id a)
          (finish_attempt_of_job env id t d max_size result)
          (AttemptRow id (finished_attempt (closing t d max_size result) a))
  unfolding finish_attempt_of_job finish_job_attempt finished_attempt
  finish_attempt_reliable t d max_size result a w p =
      rw (same_ne id "" given)
        (change_attempt_reliable (finished_attempt (closing t d max_size result)) a (λ x. refl) w p)

  pub finalize_job_result-AttemptRow :
      (job_id : String) (attempt : ℤ) (state : State) (started max : ℤ) (text : Bytes)
      (max_size : ℤ) (result : Result) (was_killed : Bool) (a : JobAttempt) (w : World)
      → AttemptRow id a w.store
      → let t = env.clock w.step in
        AttemptRow id
          (finished_attempt (closing t (duration_ms t started) max_size result) a)
          (finalize_job_result env job_id id attempt state started max text max_size result
            was_killed w).1.store
  unfolding finalize_job_result record_job_result clear_job_execution_handle now log_attempt send
  finalize_job_result-AttemptRow job_id attempt state started max text max_size result was_killed a
        w p =
      let b = finished_attempt _ a in
      end-Keeps env id b (was_killed && is_state state State.kill_requested) job_id attempt max text
        _ _ result _
        (job-Keeps env id b job_id _ _ (
          if-Keeps (AttemptRow id b) env.has_log_backend _ done (λ w p. p) (λ w p. p) _
            (finish_attempt_reliable _ _ max_size result a (tick w) p)))

  -- Either the attempt is as it was, or a chunk is behind its body.
  append_job_chunk_reliable :
      (chunk : Bytes) (a : JobAttempt) (w : World)
      → AttemptRow id a w.store
      → (body : Option Bytes) × AttemptRow id
          (record a { response_body = body })
          (append_job_chunk env id chunk w).1.store
  unfolding append_job_chunk append_job_attempt_response_chunk
  append_job_chunk_reliable chunk a w p = elim (Bool-cases (same id "" || is_empty chunk)) [
    | inl e ↦ rw e (a.response_body, p)
    | inr e ↦ rw e (
      _,
      change_attempt_reliable
          (λ x. record x { response_body = some (or_empty x.response_body ++ chunk) }) a (λ x. refl)
          w p,
    )
  ]

mark_remote_failed-response_body :
    (p : PollResult)
    → (mark_remote_failed p.state (job_poll_result p)).response_body ≡ p.response_body_chunk
mark_remote_failed-response_body p = ground arith

store_job_offsets-Keeps :
    (env : Env) (row : AsyncJobPollRow) (p : PollResult) (id : String) (a : JobAttempt)
    → Keeps (AttemptRow id a) (store_job_offsets env row p)
unfolding store_job_offsets update_job_offsets
store_job_offsets-Keeps env row p id a =
    if-Keeps (AttemptRow id a) _ _ done (job-Keeps env id a row.id _) (λ w p. p)

finish_job_poll_reliable :
    (env : Env) (row : AsyncJobPollRow) (p : PollResult) (a : JobAttempt) (w : World)
    → IsReliable env
    → row.attempt_id ≢ ""
    → is_unfinished p.state ≡ false
    → AttemptRow row.attempt_id a w.store
    → let t = env.clock w.step in
      AttemptRow row.attempt_id
        (finished_attempt
          (closing t
            (duration_ms t row.attempt_started_at)
            row.max_response_size
            (mark_remote_failed p.state (job_poll_result p)))
          a)
        (finish_job_poll env row p w).1.store
unfolding finish_job_poll
finish_job_poll_reliable env row p a w reliable given ended found = rw ended (
    finalize_job_result-AttemptRow env reliable row.attempt_id given row.id row.attempt row.state
      row.attempt_started_at row.max_attempts row.retry_backoff row.max_response_size
      (mark_remote_failed p.state (job_poll_result p)) (is_killed p.state) a w found)

-- The poll that ends an asynchronous job closes its attempt with the last chunk of the response
-- alone, cut at the limit of the queue: whatever body the attempt had, from the chunks of this poll
-- and of the earlier ones, is overwritten. (For an attempt that is in the table, and a database that
-- does not fail.)
pub after_job_poll_overwrites :
    (env : Env) (row : AsyncJobPollRow) (p : PollResult) (a : JobAttempt) (w : World)
    → IsReliable env
    → row.attempt_id ≢ ""
    → is_unfinished p.state ≡ false
    → find_attempt row.attempt_id w.store ≡ some a
    → (b : JobAttempt) × (find_attempt row.attempt_id (after_job_poll env row p w).1.store ≡ some b)
      × (b.response_body ≡ some (truncate row.max_response_size p.response_body_chunk).0)
      × (b.attempt_number ≡ a.attempt_number)
unfolding after_job_poll finished_attempt
after_job_poll_overwrites env row p a w reliable given ended found =
    let (body, appended) =
      append_job_chunk_reliable env reliable row.attempt_id given p.response_body_chunk a _
        (store_job_offsets-Keeps env row p row.attempt_id a w found) in
    (
      _,
      finish_job_poll_reliable env row p (record a { response_body = body }) _ reliable given ended
          appended,
      ap (λ chunk. some (truncate row.max_response_size chunk).0)
          (mark_remote_failed-response_body p),
      refl,
    )
