-- ===== src/Store/JobAttempts.antt =====
-- internal/db/job_attempts.sql.go, and `AppendJobAttemptResponseChunk` and `ListActiveAsyncJobs` of
-- internal/db/jobs.sql.go.
use croncontrol.Prelude.{
  ℤ, Bool, true, false, Option, none, some, List, [], ◌∷◌, ◌++◌, String, if◌then◌else◌, ◌&&◌, ◌||◌,
  same, any, update_where, ltb_ℤ,
}
use croncontrol.JobState.{State, running, kill_requested, is_state}
use croncontrol.Store.Tables.{Bytes, Store, Job, Queue, JobAttempt}
use croncontrol.Store.Jobs.{find_queue}

-- `CreateJobAttempt`; `none` is a violated primary key.
unfoldable pub create_job_attempt : String → String → ℤ → ℤ → String → Store → Option Store
create_job_attempt id job_id attempt_number started_at request s =
    if any (λ a. same a.id id) s.job_attempts
    then none
    else some (record s {
      job_attempts =
          s.job_attempts
          ++ record {
            id = id;
            job_id = job_id;
            attempt_number = attempt_number;
            started_at = some started_at;
            finished_at = none;
            duration_ms = none;
            request = request;
            response_code = none;
            response_body = none;
            truncated = false;
            original_size = none;
            error_message = none;
          }
            ∷ [];
    })

-- The columns that `FinishJobAttempt` sets.
pub record FinishJobAttempt : Type 0 where
  pub finished_at : ℤ
  pub duration_ms : ℤ
  pub response_code : Option ℤ
  pub truncated : Bool
  pub response_body : Bytes
  pub original_size : Option ℤ
  pub error_message : Option String

unfoldable pub finished_attempt : FinishJobAttempt → JobAttempt → JobAttempt
finished_attempt u a = record a {
  finished_at = some u.finished_at;
  duration_ms = some u.duration_ms;
  response_code = u.response_code;
  response_body = some u.response_body;
  truncated = u.truncated;
  original_size = u.original_size;
  error_message = u.error_message;
}

unfoldable pub update_attempt : String → (JobAttempt → JobAttempt) → Store → Store
update_attempt id f s = record s {
  job_attempts = update_where (λ a. same a.id id) f s.job_attempts;
}

-- `FinishJobAttempt`.
unfoldable pub finish_job_attempt : String → FinishJobAttempt → Store → Option Store
finish_job_attempt id u s = some (update_attempt id (finished_attempt u) s)

abbrev pub or_empty : Option Bytes → Bytes
or_empty none = []
or_empty (some b) = b

-- `AppendJobAttemptResponseChunk`.
unfoldable pub append_job_attempt_response_chunk : String → Bytes → Store → Option Store
append_job_attempt_response_chunk id chunk s = some (
    update_attempt id (λ a. record a { response_body = some (or_empty a.response_body ++ chunk) })
      s)

-- A row of `ListActiveAsyncJobs`.
pub record ActiveAsyncJob : Type 0 where
  pub job : Job
  pub queue : Queue
  -- The unfinished attempt with the highest number.
  pub open_attempt : Option JobAttempt

abbrev pub is_none : Option ℤ → Bool
is_none none = true
is_none (some t) = false

abbrev pub higher : JobAttempt → Option JobAttempt → JobAttempt
higher a none = a
higher a (some b) = if ltb_ℤ a.attempt_number b.attempt_number then b else a

unfoldable pub latest_job_attempt : String → List JobAttempt → Option JobAttempt
latest_job_attempt job_id [] = none
latest_job_attempt job_id (a ∷ as_) =
    let rest = latest_job_attempt job_id as_ in
    if same a.job_id job_id && is_none a.finished_at then some (higher a rest) else rest

abbrev pub is_polled : State → Option String → Bool
is_polled s none = false
is_polled s (some h) = is_state s running || is_state s kill_requested

abbrev pub add_active : Store → Job → Option Queue → List ActiveAsyncJob → List ActiveAsyncJob
unfolding latest_job_attempt
add_active s j none rest = rest
add_active s j (some q) rest =
    if is_polled j.state j.execution_handle
    then record { job = j; queue = q; open_attempt = latest_job_attempt j.id s.job_attempts } ∷ rest
    else rest

active_jobs : Store → List Job → List ActiveAsyncJob
unfolding find_queue
active_jobs s [] = []
active_jobs s (j ∷ js) = add_active s j (find_queue j.queue_id s) (active_jobs s js)

-- `ListActiveAsyncJobs`.
unfoldable pub list_active_async_jobs : Store → List ActiveAsyncJob
unfolding active_jobs
list_active_async_jobs s = active_jobs s s.jobs
