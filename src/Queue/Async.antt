-- ===== src/Queue/Async.antt =====
-- internal/queue/async_jobs.go: jobs that a method executes on its own, and kill requests.
use croncontrol.Prelude.{
  ℤ, eqb_ℤ, Bool, true, false, not, Option, none, some, List, [], ◌∷◌, String, if◌then◌else◌, ◌||◌,
  same,
}
use croncontrol.JobState.{State}
use croncontrol.Store.{
  Bytes, ActiveAsyncJob, find_job, update_job_offsets, append_job_attempt_response_chunk,
  list_active_async_jobs, list_kill_requested_async_job_ids,
}
use croncontrol.World.{Env, M, ◌>>=◌, ◌>>◌, done, pure, send, Signal, fetch, fetch_row, call}
use croncontrol.Executor.Method.{Handle, Method, Result, PollResult, RemoteState, get}
use croncontrol.Executor.Poll.{next_offset, is_unfinished, is_empty, error_or, named}
use croncontrol.Executor.Terminal.{attempt_exec}
use croncontrol.Queue.Dispatch.{override}
use croncontrol.Queue.Finalize.{finalize_job_result}

-- `asyncJobPollRow`.
pub record AsyncJobPollRow : Type 0 where
  pub id : String
  pub workspace_id : String
  pub queue_id : String
  pub attempt : ℤ
  pub state : State
  pub attempt_id : String
  pub attempt_started_at : ℤ
  pub execution_handle : String
  pub stdout_offset : ℤ
  pub stderr_offset : ℤ
  pub execution_method : String
  pub max_attempts : ℤ
  pub retry_backoff : Bytes
  pub max_response_size : ℤ

abbrev row_with : ActiveAsyncJob → String → String → ℤ → AsyncJobPollRow
row_with a handle attempt_id started_at = record {
  id = a.job.id;
  workspace_id = a.job.workspace_id;
  queue_id = a.job.queue_id;
  attempt = a.job.attempt;
  state = a.job.state;
  attempt_id = attempt_id;
  attempt_started_at = started_at;
  execution_handle = handle;
  stdout_offset = a.job.stdout_offset;
  stderr_offset = a.job.stderr_offset;
  execution_method = a.queue.execution_method;
  max_attempts = override a.queue.max_attempts a.job.max_attempts;
  retry_backoff = override a.queue.retry_backoff a.job.retry_backoff;
  max_response_size = a.queue.max_response_size;
}

-- `none` is a row without `started_at`, which is skipped: the job has no open attempt. The query
-- gives only rows with a handle.
unfoldable pub job_poll_row : ActiveAsyncJob → Option AsyncJobPollRow
job_poll_row a = elim a.job.execution_handle [
  | none ↦ none
  | some handle ↦ elim a.open_attempt [
    | none ↦ none
    | some o ↦ elim o.started_at [ none ↦ none | some t ↦ some (row_with a handle o.id t) ]
  ]
]

-- `mark_failed` for a result of a job.
abbrev pub mark_remote_failed : RemoteState → Result → Result
mark_remote_failed RemoteState.remote_failed r = elim r.exit_code [
  | some c ↦ r
  | none ↦ error_or "remote execution failed" r
]
mark_remote_failed _ r = r

-- The result that a poll amounts to; the two streams are left out.
abbrev pub job_poll_result : PollResult → Result
job_poll_result p = record {
  exit_code = p.exit_code;
  response_code = none;
  stdout = [];
  stderr = [];
  response_body = p.response_body_chunk;
  error = p.error;
}

abbrev pub is_killed : RemoteState → Bool
is_killed RemoteState.remote_killed = true
is_killed _ = false

module _ (env : Env) where
  unfoldable pub store_job_offsets : AsyncJobPollRow → PollResult → M (Unit {0})
  store_job_offsets row p =
      let stdout_offset = next_offset p.cursor.stdout_offset row.stdout_offset p.stdout_chunk in
      let stderr_offset = next_offset p.cursor.stderr_offset row.stderr_offset p.stderr_chunk in
      if not (eqb_ℤ stdout_offset row.stdout_offset) || not (eqb_ℤ stderr_offset row.stderr_offset)
      then attempt_exec env (update_job_offsets row.id stdout_offset stderr_offset)
      else done

  -- `appendJobAttemptResponseChunk`.
  unfoldable pub append_job_chunk : String → Bytes → M (Unit {0})
  append_job_chunk attempt_id chunk =
      if same attempt_id "" || is_empty chunk
      then done
      else attempt_exec env (append_job_attempt_response_chunk attempt_id chunk)

  unfoldable pub finish_job_poll : AsyncJobPollRow → PollResult → M (Unit {0})
  finish_job_poll row p =
      if is_unfinished p.state
      then done
      else finalize_job_result env row.id row.attempt_id row.attempt row.state
          row.attempt_started_at row.max_attempts row.retry_backoff row.max_response_size
          (mark_remote_failed p.state (job_poll_result p)) (is_killed p.state)

  -- `pollAsyncJob`, from the answer of the method on.
  unfoldable pub after_job_poll : AsyncJobPollRow → PollResult → M (Unit {0})
  after_job_poll row p = do
    store_job_offsets row p
    append_job_chunk row.attempt_id p.response_body_chunk
    finish_job_poll row p

  poll_with : AsyncJobPollRow → Handle → Method → M (Unit {0})
  poll_with row handle method = do
    (err, p) ← call env (λ n.
        method.poll n handle
          (record { stdout_offset = row.stdout_offset; stderr_offset = row.stderr_offset }))
    elim err [ some e ↦ done | none ↦ after_job_poll row p ]

  poll_handle : AsyncJobPollRow → Handle → M (Unit {0})
  unfolding poll_with
  poll_handle row handle = elim (get handle.method_name env.registry) [
    | none ↦ done
    | some method ↦ poll_with row handle method
  ]

  -- `pollAsyncJob`.
  unfoldable pub poll_async_job : AsyncJobPollRow → M (Unit {0})
  unfolding poll_handle
  poll_async_job row = elim (env.decode_handle row.execution_handle) [
    | none ↦ done
    | some handle ↦ poll_handle row (named row.execution_method handle)
  ]

  poll_jobs : List ActiveAsyncJob → M (Unit {0})
  poll_jobs [] = done
  poll_jobs (a ∷ rest) =
      (elim (job_poll_row a) as (λ o. M (Unit {0})) [ none ↦ done | some row ↦ poll_async_job row ])
      >> poll_jobs rest

  -- `processAsyncJobs`.
  unfoldable pub process_async_jobs : M (Unit {0})
  unfolding poll_jobs
  process_async_jobs = do
    rows ← fetch env list_active_async_jobs
    elim rows [ none ↦ done | some as_ ↦ poll_jobs as_ ]

  -- `loadPersistedJobHandle`; `none` is an error or no handle.
  unfoldable pub load_persisted_job_handle : String → M (Option Handle)
  load_persisted_job_handle job_id = do
    row ← fetch_row env (find_job job_id)
    elim row [
      | none ↦ pure none
      | some j ↦ elim j.execution_handle [
        | none ↦ pure none
        | some text ↦ pure (env.decode_handle text)
      ]
    ]

  kill_job_handle : Handle → M (Unit {0})
  kill_job_handle handle = elim (get handle.method_name env.registry) [
    | none ↦ done
    | some method ↦ do err ← call env (λ n. method.kill n handle); send (Signal.kill_sent handle)
  ]

  kill_jobs : List String → M (Unit {0})
  unfolding kill_job_handle
  kill_jobs [] = done
  kill_jobs (id ∷ ids) =
      (do
        loaded ← load_persisted_job_handle id
        elim loaded [ none ↦ done | some handle ↦ kill_job_handle handle ])
      >> kill_jobs ids

  -- `processKillRequests`.
  unfoldable pub process_job_kill_requests : M (Unit {0})
  unfolding kill_jobs
  process_job_kill_requests = do
    rows ← fetch env list_kill_requested_async_job_ids
    elim rows [ none ↦ done | some ids ↦ kill_jobs ids ]
