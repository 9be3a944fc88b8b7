-- ===== src/Tests/Workers.antt =====
-- The theorems on workers, at concrete workers and results.
use croncontrol.Prelude.{◌≡◌, refl, pos, true, none, some, [], ◌∷◌, arith, same}
use croncontrol.Store.{
  Worker, WorkerStatus, ClaimedJob, find_job, get_job_with_queue, find_queue,
  get_worker_by_enrollment_token, update_worker_credential_hash,
}
use croncontrol.World.{World, fetch, fetch_row, now, exec}
use croncontrol.Worker.Labels.{matches_worker_labels}
use croncontrol.Worker.Dispatcher.{
  selected, select_worker, count_active_by_worker, select_from, consider_load, improve,
}
use croncontrol.Worker.LeastLoaded.{IsBestChoice, select_worker_lem}
use croncontrol.Worker.Enrollment.{
  EnrollmentResult, enroll, register_worker, generate_token, exchange,
}
use croncontrol.Worker.SingleUse.{enroll_once, register_worker_fails}
use croncontrol.Worker.Results.{TaskResult, is_success_of, process_job_result}
use croncontrol.Worker.Outcome.{IsSettled, process_job_result_lem}
use croncontrol.Handler.Jobs.{deliver}
use croncontrol.Wiring.{job_task, assign_job}
use croncontrol.Wiring.Round.{RetriesAt, worker_round_lem}
use croncontrol.Tests.Samples.{reliable_env}
use croncontrol.Tests.Queues.{pending_job, running_job, http_queue, job_world}

-- A worker that has its token still.
abbrev fresh_worker : Worker
fresh_worker = record {
  id = "wrk_1";
  workspace_id = "wsp_1";
  name = "one";
  credential_hash = "placeholder";
  labels = "{}";
  capabilities = "{}";
  max_concurrency = pos 5;
  version = none;
  enabled = true;
  status = WorkerStatus.online;
  last_heartbeat_at = none;
  consecutive_failures = pos 0;
  consecutive_healthy = pos 0;
  enrollment_token_hash = some "token";
  enrollment_token_expires_at = some (pos 100);
}

abbrev idle_worker : Worker
idle_worker = record fresh_worker {
  id = "wrk_2";
  name = "two";
  credential_hash = "other";
  enrollment_token_hash = none;
  enrollment_token_expires_at = none;
}

abbrev worker_world : World
worker_world = record job_world {
  store = record job_world.store { workers = fresh_worker ∷ idle_worker ∷ [] };
}

-- The second worker, since the first one runs a job.
select_worker_example :
    IsBestChoice reliable_env worker_world.store ""
      (fresh_worker ∷ idle_worker ∷ [])
      (some idle_worker)
unfolding select_worker same matches_worker_labels count_active_by_worker select_from consider_load
    fetch improve
select_worker_example =
    select_worker_lem reliable_env "" (fresh_worker ∷ idle_worker ∷ []) worker_world (λ n. refl)

abbrev enrolled : EnrollmentResult
enrolled = record { worker_id = "wrk_1"; credential = "wrk_cred_secret" }

enroll_once_example :
    (enroll reliable_env "token" (enroll reliable_env "token" worker_world).1).0 ≡ none
unfolding enroll same fetch_row get_worker_by_enrollment_token now generate_token exchange exec
    update_worker_credential_hash
enroll_once_example =
    enroll_once reliable_env "token" enrolled worker_world
      (enroll reliable_env "token" worker_world).1 (omega arith) refl refl

register_worker_fails_example :
    (register_worker reliable_env "wsp_1" "three" (pos 5) worker_world).0 ≡ none
register_worker_fails_example =
    register_worker_fails reliable_env "wsp_1" "three" (pos 5) worker_world

-- A worker's command that exits with 1.
abbrev failed_task : TaskResult
failed_task = record {
  task_id = "job_2";
  attempt_id = "";
  exit_code = some (pos 1);
  response_code = none;
  response_body = [];
  duration_ms = pos 12;
  error = "";
}

process_job_result_example :
    IsSettled reliable_env failed_task running_job http_queue 1
      (pos 2)
      (find_job "job_2" (process_job_result reliable_env failed_task worker_world).1.store)
unfolding find_job same get_job_with_queue find_queue
process_job_result_example =
    process_job_result_lem reliable_env (λ n. refl) failed_task 1 http_queue running_job
      worker_world refl (omega arith) refl refl

-- The first attempt of the job, from attempt 0 on.
abbrev claimed_job : ClaimedJob
claimed_job = record { job = pending_job; queue = http_queue }

abbrev failed_first : TaskResult
failed_first = record failed_task { task_id = "job_1" }

worker_round_example :
    RetriesAt "job_1" 2
      (process_job_result reliable_env failed_first
        (deliver reliable_env "wrk_1" "wsp_1"
          (job_task claimed_job "{}")
          (assign_job reliable_env claimed_job "{}" (selected "wrk_1") worker_world).1).1).1.store
unfolding find_job same find_queue is_success_of
worker_round_example =
    worker_round_lem reliable_env claimed_job "{}" "wrk_1" "wsp_1" "que_1" http_queue none 0
      failed_first worker_world (λ n. refl) refl refl (omega arith) refl refl refl
      (pending_job, refl, refl, refl, refl, refl, refl)
