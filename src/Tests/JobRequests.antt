-- ===== src/Tests/JobRequests.antt =====
-- The theorems on requests about jobs, at concrete jobs.
use croncontrol.Prelude.{◌≡◌, refl, pos, true, false, none, some, [], ◌∷◌, any, same}
use croncontrol.JobState.{State}
use croncontrol.Store.{Job, Queue, Runtime, find_job, get_job, create_queue}
use croncontrol.World.{fresh, exec_row}
use croncontrol.Handler.Queues.{
  QueueRequest, queue_not_found, read_runtime, default_backoff, five_minutes, insert_queue_row,
  create_queue_request, get_queue_request,
}
use croncontrol.Handler.QueueTrip.{get_queue_request-create_queue_request}
use croncontrol.Handler.{Actor}
use croncontrol.Handler.Jobs.{job_status, job_created, killed_jobs, request_job_cancel, replay_job}
use croncontrol.Handler.Kills.{killed_job_undelivered}
use croncontrol.Handler.Replays.{IsReplayOf, replay_job_lem}
use croncontrol.Handler.Enqueue.{EnqueueRequest, enqueue_job, batch_enqueue_jobs}
use croncontrol.Handler.Enqueue.Refused.{RefusedIn, enqueue_refused}
use croncontrol.Tests.Samples.{reliable_env}
use croncontrol.Tests.Queues.{pending_job, running_job, job_world}

killed_job_undelivered_example :
    let (answer, after) = request_job_cancel reliable_env "job_2" "wsp_1" job_world in
    (answer ≡ job_status State.kill_requested)
    × (any (same "job_2") (killed_jobs "wrk_1" ("job_2" ∷ []) after.store) ≡ false)
unfolding same get_job
killed_job_undelivered_example =
    killed_job_undelivered reliable_env "job_2" "wsp_1" "wrk_1" ("job_2" ∷ []) running_job job_world
      (λ n. refl) refl refl

-- A job of priority 7 that is replayed without a priority.
replay_job_example :
    (new : Job) × ((replay_job reliable_env
        (record { kind = "user"; id = "usr_1" })
        "job_1"
        none
        none
        job_world).0
      ≡ job_created new)
    × (find_job "job_"
          (replay_job reliable_env
            (record { kind = "user"; id = "usr_1" })
            "job_1"
            none
            none
            job_world).1.store
        ≡ some new)
    × IsReplayOf none none pending_job new
unfolding find_job same
replay_job_example =
    replay_job_lem reliable_env (record { kind = "user"; id = "usr_1" }) "job_1" none none
      pending_job job_world (λ n. refl) refl refl

abbrev job_request : EnqueueRequest
job_request = record {
  queue_id = "que_1";
  payload = "{}";
  priority = pos 1;
  reference = none;
  idempotency_key = some "once";
}

abbrev caller : Actor
caller = record { kind = "user"; id = "usr_1" }

enqueue_refused_example :
    RefusedIn job_world.store (enqueue_job reliable_env caller "wsp_1" job_request job_world)
    × RefusedIn job_world.store
        (batch_enqueue_jobs reliable_env caller "wsp_1" (job_request ∷ job_request ∷ []) job_world)
enqueue_refused_example =
    enqueue_refused reliable_env caller "wsp_1" job_request (job_request ∷ job_request ∷ [])
      job_world

-- A request for a queue of another name than that in the table.
abbrev queue_request : QueueRequest
queue_request = record {
  name = some "mails";
  execution_method = some "http";
  runtime = none;
  method_config = some "null";
  concurrency = some (pos 4);
  max_attempts = none;
  retry_backoff = none;
  job_timeout = none;
  max_response_size = none;
  ssh_credential_id = none;
  ssm_profile_id = none;
  k8s_cluster_id = none;
  worker_id = some none;
  worker_labels = none;
  tags = none;
  enabled = none;
}

abbrev mails_queue : Queue
mails_queue = record {
  id = "que_";
  workspace_id = "wsp_1";
  name = "mails";
  execution_method = "http";
  runtime = Runtime.direct;
  method_config = "{}";
  concurrency = pos 4;
  max_attempts = pos 3;
  retry_backoff = default_backoff;
  job_timeout = five_minutes;
  max_response_size = pos 5242880;
  ssh_credential_id = none;
  ssm_profile_id = none;
  k8s_cluster_id = none;
  worker_id = none;
  worker_labels = none;
  tags = [];
  enabled = true;
}

-- The world with the new queue, in the second workspace.
get_queue_request_example :
    (get_queue_request reliable_env "que_" "wsp_2"
      (create_queue_request reliable_env "wsp_1" queue_request job_world).1).0
    ≡ queue_not_found
unfolding create_queue_request insert_queue_row read_runtime create_queue fresh exec_row same
get_queue_request_example =
    get_queue_request-create_queue_request reliable_env "wsp_1" "wsp_2" queue_request job_world
      (create_queue_request reliable_env "wsp_1" queue_request job_world).1 mails_queue (λ n. refl)
      refl
