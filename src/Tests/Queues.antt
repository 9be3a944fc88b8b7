-- ===== src/Tests/Queues.antt =====
-- The theorems on jobs of a queue, at concrete jobs and results.
use croncontrol.Prelude.{◌≡◌, refl, pos, true, false, none, some, [], ◌∷◌, arith, same, same_iff}
use mathlib.Core.Bool.{false≢true}
use croncontrol.JobState.{State}
use croncontrol.Store.{
  Runtime, Job, Queue, JobAttempt, find_job, find_run, is_expired, count_running_by_queue,
}
use croncontrol.World.{World, Env}
use croncontrol.Executor.Method.{PollResult, RemoteState, is_success}
use croncontrol.Executor.Finalize.{finalize_run_result}
use croncontrol.Executor.Backoff.{parse_backoff_list}
use croncontrol.Executor.Backoff.Delay.{retry_time}
use croncontrol.Queue.Finalize.{finalize_job_result, truncate}
use croncontrol.Queue.Outcome.{finalize_job_result_lem, retried_job}
use croncontrol.Queue.Agreement.{EndsAlike, finalize_job_result_agrees}
use croncontrol.Queue.Dispatch.{dispatch_job}
use croncontrol.Queue.Concurrency.{RunsAtMost, dispatch_job-RunsAtMost}
use croncontrol.Queue.Async.{AsyncJobPollRow, after_job_poll}
use croncontrol.Queue.Chunks.{find_attempt, after_job_poll_overwrites}
use croncontrol.Queue.Expiration.{expire_jobs}
use croncontrol.Queue.Expired.{expired_row, expire_jobs_lem}
use croncontrol.Tests.Samples.{
  second, running_run, cron_process, store_of, world_of, reliable_env, no_hooks, failing_result,
  failing_method,
}

-- A pending job that expired at time 0.
abbrev pub pending_job : Job
pending_job = record {
  id = "job_1";
  workspace_id = "wsp_1";
  queue_id = "que_1";
  runtime_override = none;
  worker_id_override = none;
  worker_labels_override = none;
  payload = "{}";
  priority = pos 7;
  max_attempts = none;
  attempt = pos 0;
  retry_backoff = none;
  state = State.pending;
  scheduled_at = pos 0;
  expires_at = some (pos 0);
  next_attempt_at = none;
  reference = none;
  idempotency_key = none;
  replayed_from_job_id = none;
  cancel_reason = none;
  waiting_reason = none;
  actor_type = none;
  actor_id = none;
  effective_config = none;
  tags = [];
  worker_id = none;
  duration_ms = none;
  created_at = pos 0;
  execution_handle = none;
  stdout_offset = pos 0;
  stderr_offset = pos 0;
}

-- A job that a worker runs.
abbrev pub running_job : Job
running_job = record pending_job {
  id = "job_2";
  state = State.running;
  attempt = pos 1;
  worker_id = some "wrk_1";
  expires_at = none;
}

abbrev pub http_queue : Queue
http_queue = record {
  id = "que_1";
  workspace_id = "wsp_1";
  name = "mail";
  execution_method = "http";
  runtime = Runtime.direct;
  method_config = "{}";
  concurrency = pos 1;
  max_attempts = pos 3;
  retry_backoff = b'5' ∷ b's' ∷ [];
  job_timeout = second;
  max_response_size = pos 1;
  ssh_credential_id = none;
  ssm_profile_id = none;
  k8s_cluster_id = none;
  worker_id = none;
  worker_labels = none;
  tags = [];
  enabled = true;
}

abbrev first_attempt : JobAttempt
first_attempt = record {
  id = "jat_1";
  job_id = "job_2";
  attempt_number = pos 1;
  started_at = some (pos 0);
  finished_at = none;
  duration_ms = none;
  request = "{}";
  response_code = none;
  response_body = some (b'a' ∷ b'b' ∷ []);
  truncated = false;
  original_size = none;
  error_message = none;
}

abbrev pub job_world : World
job_world = record (world_of (running_run ∷ [])) {
  store = record (store_of (running_run ∷ [])) {
    jobs = pending_job ∷ running_job ∷ [];
    job_attempts = first_attempt ∷ [];
    queues = http_queue ∷ [];
  };
}

-- The first attempt fails, and the job is to be tried again.
finalize_job_result_example :
    find_job "job_2"
      (finalize_job_result reliable_env "job_2" "jat_1"
        (pos 1)
        State.running
        (pos 0)
        (pos 3)
        http_queue.retry_backoff
        (pos 1)
        failing_result
        true
        job_world).1.store
    ≡ some (
        retried_job
          (pos 1)
          (retry_time
            (pos 0)
            0
            (parse_backoff_list reliable_env.parse_duration (some http_queue.retry_backoff)))
          running_job)
unfolding find_job same is_success
finalize_job_result_example =
    (finalize_job_result_lem reliable_env (λ n. refl) "job_2" "jat_1" 0 State.running (pos 0)
        (pos 3) http_queue.retry_backoff (pos 1) failing_result true running_job job_world refl).2
      refl refl refl

finalize_job_result_agrees_example :
    EndsAlike
      (find_job "job_2"
        (finalize_job_result reliable_env "job_2" "jat_1"
          (pos 1)
          State.running
          (pos 4)
          (pos 3)
          (b'5' ∷ b's' ∷ [])
          (pos 1)
          failing_result
          false
          job_world).1.store)
      (find_run "run_2"
        (finalize_run_result reliable_env no_hooks "run_2" "wsp_1" "rat_1"
          (pos 1)
          (pos 4)
          cron_process
          failing_result
          job_world).1.store)
unfolding find_job find_run same
finalize_job_result_agrees_example =
    finalize_job_result_agrees reliable_env no_hooks 0 (pos 4) (pos 1) (b'5' ∷ b's' ∷ [])
      cron_process failing_result State.running "run_2" "job_2" "wsp_1" "rat_1" "jat_1" running_run
      running_job job_world (λ n. refl) (λ x run proc w p. p) refl refl refl

abbrev queue_env : Env
queue_env = record reliable_env { registry = ("http", failing_method) ∷ [] }

abbrev queue_of_two : Queue
queue_of_two = record http_queue { concurrency = pos 2 }

-- A second job of a queue that runs two at a time.
dispatch_job-RunsAtMost_example :
    RunsAtMost "que_1" 2
      (dispatch_job queue_env none
        (record { job = pending_job; queue = queue_of_two })
        job_world).1.store
unfolding same count_running_by_queue
dispatch_job-RunsAtMost_example =
    dispatch_job-RunsAtMost queue_env none 2 (record { job = pending_job; queue = queue_of_two })
      job_world (λ k s p. p) refl refl (omega arith) (omega arith)

abbrev async_row : AsyncJobPollRow
async_row = record {
  id = "job_2";
  workspace_id = "wsp_1";
  queue_id = "que_1";
  attempt = pos 1;
  state = State.running;
  attempt_id = "jat_1";
  attempt_started_at = pos 0;
  execution_handle = "";
  stdout_offset = pos 0;
  stderr_offset = pos 0;
  execution_method = "http";
  max_attempts = pos 3;
  retry_backoff = http_queue.retry_backoff;
  max_response_size = pos 1;
}

abbrev last_poll : PollResult
last_poll = record {
  state = RemoteState.remote_completed;
  exit_code = some (pos 0);
  stdout_chunk = [];
  stderr_chunk = [];
  response_body_chunk = b'c' ∷ b'd' ∷ [];
  cursor = record { stdout_offset = pos 0; stderr_offset = pos 0 };
  error = none;
}

-- `ab` is overwritten by `c`.
after_job_poll_overwrites_example :
    (b : JobAttempt) × (find_attempt "jat_1"
        (after_job_poll reliable_env async_row last_poll job_world).1.store
      ≡ some b)
    × (b.response_body ≡ some (truncate (pos 1) (b'c' ∷ b'd' ∷ [])).0)
    × (b.attempt_number ≡ pos 1)
unfolding same
after_job_poll_overwrites_example =
    after_job_poll_overwrites reliable_env async_row last_poll first_attempt job_world (λ n. refl)
      (λ e. absurd (false≢true ((same_iff "jat_1" "").1 e))) refl refl

expire_jobs_example :
    find_job "job_1" (expire_jobs reliable_env job_world).1.store ≡ some (expired_row pending_job)
unfolding find_job same is_expired
expire_jobs_example =
    expire_jobs_lem reliable_env "job_1" pending_job job_world (λ n. refl) refl (omega arith)
      (omega arith)
