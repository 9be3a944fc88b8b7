-- ===== src/Store/Jobs.antt =====
-- internal/db/jobs.sql.go: the queries on jobs.
use croncontrol.Prelude.{
  ℕ, ℤ, pos, Bool, true, false, Option, none, some, List, [], ◌∷◌, ◌++◌, String, if◌then◌else◌,
  ◌&&◌, ◌||◌, same, find, any, keep, count, take, update_where, leb_ℤ, ltb_ℤ, eqb_ℤ,
}
use mathlib.Core.List.{map}
use croncontrol.JobState
use croncontrol.JobState.{State, pending, running, retrying, kill_requested, is_state}
use croncontrol.Store.Tables.{Message, Store, Job, Queue}
use croncontrol.Store.Lists.{due}
use croncontrol.Store.Runs.{coalesce_or}
use croncontrol.Store.Processes.{in_active_workspace}

-- The columns that `UpdateJobState` sets; `none` is a NULL parameter.
pub record UpdateJobState : Type 0 where
  pub state : State
  pub attempt : Option ℤ
  pub next_attempt_at : Option ℤ
  pub cancel_reason : Option String
  pub waiting_reason : Option Message
  pub worker_id : Option String
  pub duration_ms : Option ℤ

-- The parameters that a Go literal with only `State` gives.
abbrev pub to_job_state : State → UpdateJobState
to_job_state s = record {
  state = s;
  attempt = none;
  next_attempt_at = none;
  cancel_reason = none;
  waiting_reason = none;
  worker_id = none;
  duration_ms = none;
}

-- The new row: but for the attempt, each column is set also to NULL.
unfoldable pub apply_job_update : UpdateJobState → Job → Job
apply_job_update u j = record j {
  state = u.state;
  attempt = coalesce_or u.attempt j.attempt;
  next_attempt_at = u.next_attempt_at;
  cancel_reason = u.cancel_reason;
  waiting_reason = u.waiting_reason;
  worker_id = u.worker_id;
  duration_ms = u.duration_ms;
}

-- `UPDATE jobs SET … WHERE id = $1`, for a change `f` of the row.
unfoldable pub update_job : String → (Job → Job) → Store → Store
update_job id f s = record s { jobs = update_where (λ j. same j.id id) f s.jobs }

-- The row with a primary key.
unfoldable pub find_job : String → Store → Option Job
find_job id s = find (λ j. same j.id id) s.jobs

-- `UpdateJobState`.
unfoldable pub update_job_state : String → UpdateJobState → Store → Option Store
update_job_state id u s = some (update_job id (apply_job_update u) s)

-- `CancelJob`.
unfoldable pub cancel_job : String → Option String → Store → Option Store
cancel_job id reason s =
    some
      (update_job id (λ j. record j { state = JobState.State.cancelled; cancel_reason = reason }) s)

-- `SnapshotJobConfig`.
unfoldable pub snapshot_job_config : String → String → Store → Option Store
snapshot_job_config id config s =
    some (update_job id (λ j. record j { effective_config = some config }) s)

-- `SaveJobExecutionHandle`.
unfoldable pub save_job_execution_handle : String → String → Store → Option Store
save_job_execution_handle id handle s = some (
    update_job id
      (λ j. record j {
        execution_handle = some handle;
        stdout_offset = pos 0;
        stderr_offset = pos 0;
      })
      s)

-- `ClearJobExecutionHandle`.
unfoldable pub clear_job_execution_handle : String → Store → Option Store
clear_job_execution_handle id s = some (
    update_job id
      (λ j. record j { execution_handle = none; stdout_offset = pos 0; stderr_offset = pos 0 }) s)

-- `UpdateJobOffsets`.
unfoldable pub update_job_offsets : String → ℤ → ℤ → Store → Option Store
update_job_offsets id stdout_offset stderr_offset s = some (
    update_job id (λ j. record j { stdout_offset = stdout_offset; stderr_offset = stderr_offset })
      s)

-- A row of `ClaimPendingJobs`: the job, and the columns of its queue.
pub record ClaimedJob : Type 0 where
  pub job : Job
  pub queue : Queue

-- The row of a job, if its queue passes a test.
abbrev pub with_queue : (Queue → Bool) → Job → Option Queue → List ClaimedJob → List ClaimedJob
with_queue p j none rest = rest
with_queue p j (some q) rest = if p q then record { job = j; queue = q } ∷ rest else rest

unfoldable pub find_queue : String → Store → Option Queue
find_queue id s = find (λ q. same q.id id) s.queues

-- A join of jobs with their queues.
unfoldable pub join_queues : (Queue → Bool) → Store → List Job → List ClaimedJob
unfolding find_queue
join_queues p s [] = []
join_queues p s (j ∷ js) = with_queue p j (find_queue j.queue_id s) (join_queues p s js)

-- The conditions of `ClaimPendingJobs` on the job and its workspace, at the database's clock.
unfoldable pub is_job_claimable : ℤ → Store → Job → Bool
is_job_claimable now s j =
    (is_state j.state pending && leb_ℤ j.scheduled_at now
      || is_state j.state retrying && due now j.next_attempt_at)
    && in_active_workspace j.workspace_id s

-- `ORDER BY priority DESC, scheduled_at, created_at`: whether the first row stands strictly before
-- the second.
unfoldable pub claims_before : ClaimedJob → ClaimedJob → Bool
claims_before a b =
    ltb_ℤ b.job.priority a.job.priority
    || eqb_ℤ b.job.priority a.job.priority
      && (ltb_ℤ a.job.scheduled_at b.job.scheduled_at
          || eqb_ℤ a.job.scheduled_at b.job.scheduled_at && ltb_ℤ a.job.created_at b.job.created_at)

unfoldable pub insert_claim : ClaimedJob → List ClaimedJob → List ClaimedJob
insert_claim a [] = a ∷ []
insert_claim a (b ∷ bs) =
    let later = b ∷ insert_claim a bs in if claims_before a b then a ∷ b ∷ bs else later

unfoldable pub order_claims : List ClaimedJob → List ClaimedJob
order_claims [] = []
order_claims (a ∷ as_) = insert_claim a (order_claims as_)

-- `ClaimPendingJobs`: the rows are locked until the transaction ends, and not changed.
unfoldable pub claim_pending_jobs : ℤ → ℕ → Store → List ClaimedJob
claim_pending_jobs now limit s =
    take limit
      (order_claims (join_queues (λ q. q.enabled) s (keep (is_job_claimable now s) s.jobs)))

-- `CountRunningByQueue`.
unfoldable pub count_running_by_queue : String → Store → ℕ
count_running_by_queue queue_id s =
    count (λ j. same j.queue_id queue_id && is_state j.state running) s.jobs

-- The condition of `ListExpiredPendingJobs`.
unfoldable pub is_expired : ℤ → Job → Bool
is_expired now j = is_state j.state pending && due now j.expires_at

-- `ListExpiredPendingJobs`.
unfoldable pub list_expired_pending_jobs : ℤ → ℕ → Store → List Job
list_expired_pending_jobs now limit s = take limit (keep (is_expired now) s.jobs)

abbrev has_handle : Option String → Bool
has_handle none = false
has_handle (some h) = true

-- `ListKillRequestedAsyncJobIDs`.
unfoldable pub list_kill_requested_async_job_ids : Store → List String
list_kill_requested_async_job_ids s =
    map (λ j. j.id)
      (keep (λ j. is_state j.state kill_requested && has_handle j.execution_handle) s.jobs)

-- `GetJobWithQueue`; `none` is pgx.ErrNoRows.
unfoldable pub get_job_with_queue : String → String → Store → Option ClaimedJob
get_job_with_queue id workspace_id s =
    elim (find (λ j. same j.id id && same j.workspace_id workspace_id) s.jobs) [
      | none ↦ none
      | some j ↦ elim (find_queue j.queue_id s) [
        | none ↦ none
        | some q ↦ some (record { job = j; queue = q })
      ]
    ]

-- `GetJob`; `none` is pgx.ErrNoRows.
unfoldable pub get_job : String → String → Store → Option Job
get_job id workspace_id s = find (λ j. same j.id id && same j.workspace_id workspace_id) s.jobs

-- The parameters of `CreateReplayJob`; `none` is a NULL.
pub record CreateReplayJob : Type 0 where
  pub id : String
  pub new_id : String
  pub actor_type : Option String
  pub actor_id : Option String
  pub override_payload : Option String
  pub override_priority : Option ℤ

abbrev pub payload_or : Option String → String → String
payload_or none old = old
payload_or (some new) old = new

-- The row that `CreateReplayJob` inserts, with the defaults of the columns that it does not name.
abbrev pub replayed_job : CreateReplayJob → ℤ → Job → Job
replayed_job c now j = record {
  id = c.new_id;
  workspace_id = j.workspace_id;
  queue_id = j.queue_id;
  runtime_override = none;
  worker_id_override = none;
  worker_labels_override = none;
  payload = payload_or c.override_payload j.payload;
  priority = coalesce_or c.override_priority j.priority;
  max_attempts = j.max_attempts;
  attempt = pos 0;
  retry_backoff = j.retry_backoff;
  state = pending;
  scheduled_at = now;
  expires_at = none;
  next_attempt_at = none;
  reference = j.reference;
  idempotency_key = none;
  replayed_from_job_id = some j.id;
  cancel_reason = none;
  waiting_reason = none;
  actor_type = c.actor_type;
  actor_id = c.actor_id;
  effective_config = none;
  tags = j.tags;
  worker_id = none;
  duration_ms = none;
  created_at = now;
  execution_handle = none;
  stdout_offset = pos 0;
  stderr_offset = pos 0;
}

abbrev insert_job : Job → Store → Option (Job × Store)
insert_job j s =
    if any (λ x. same x.id j.id) s.jobs
    then none
    else some (j, record s { jobs = s.jobs ++ j ∷ [] })

-- `CreateReplayJob`, with the new row; `none` is pgx.ErrNoRows, or a key that is taken. The
-- workspace is not a parameter.
unfoldable pub create_replay_job : CreateReplayJob → ℤ → Store → Option (Job × Store)
create_replay_job c now s = elim (find_job c.id s) [
  | none ↦ none
  | some j ↦ insert_job (replayed_job c now j) s
]
