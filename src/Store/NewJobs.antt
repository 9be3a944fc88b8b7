-- ===== src/Store/NewJobs.antt =====
-- internal/db/jobs.sql.go: `CreateJob` and `CheckIdempotencyKey`.
use croncontrol.Prelude.{
  ℤ, pos, Bool, false, Option, none, some, List, [], ◌∷◌, ◌++◌, String, if◌then◌else◌, ◌&&◌, ◌||◌,
  same, find, any,
}
use croncontrol.JobState
use croncontrol.Store.Tables.{Bytes, Runtime, Store, Job}
use croncontrol.Store.Jobs.{find_queue}

-- The parameters of `CreateJob`; `none` is a NULL.
pub record CreateJob : Type 0 where
  pub id : String
  pub workspace_id : String
  pub queue_id : String
  pub payload : String
  pub priority : ℤ
  pub max_attempts : Option ℤ
  pub retry_backoff : Option Bytes
  pub scheduled_at : Option ℤ
  pub expires_at : Option ℤ
  pub reference : Option String
  pub idempotency_key : Option String
  pub runtime_override : Option Runtime
  pub worker_id_override : Option String
  pub worker_labels_override : Option String
  pub actor_type : Option String
  pub actor_id : Option String
  pub tags : List String

-- The row that is inserted, with the defaults of the columns that are not named.
abbrev pub created_job : CreateJob → ℤ → ℤ → Job
created_job c scheduled_at now = record {
  id = c.id;
  workspace_id = c.workspace_id;
  queue_id = c.queue_id;
  runtime_override = c.runtime_override;
  worker_id_override = c.worker_id_override;
  worker_labels_override = c.worker_labels_override;
  payload = c.payload;
  priority = c.priority;
  max_attempts = c.max_attempts;
  attempt = pos 0;
  retry_backoff = c.retry_backoff;
  state = JobState.State.pending;
  scheduled_at = scheduled_at;
  expires_at = c.expires_at;
  next_attempt_at = none;
  reference = c.reference;
  idempotency_key = c.idempotency_key;
  replayed_from_job_id = none;
  cancel_reason = none;
  waiting_reason = none;
  actor_type = c.actor_type;
  actor_id = c.actor_id;
  effective_config = none;
  tags = c.tags;
  worker_id = none;
  duration_ms = none;
  created_at = now;
  execution_handle = none;
  stdout_offset = pos 0;
  stderr_offset = pos 0;
}

abbrev pub same_key : Option String → Option String → Bool
same_key (some a) (some b) = same a b
same_key a b = false

-- Whether a row has a key in common with the new one: the primary key, or the unique index
-- `idx_jobs_idempotency`.
abbrev pub collides_with : CreateJob → Job → Bool
collides_with c j =
    same j.id c.id
    || same j.workspace_id c.workspace_id && same_key j.idempotency_key c.idempotency_key

abbrev insert_new : CreateJob → ℤ → ℤ → Store → Option (Job × Store)
insert_new c scheduled_at now s =
    if any (collides_with c) s.jobs then none else elim (find_queue c.queue_id s) [
      | none ↦ none
      | some q ↦ some (
        created_job c scheduled_at now,
        record s { jobs = s.jobs ++ created_job c scheduled_at now ∷ [] },
      )
    ]

-- `CreateJob`, with the new row; `none` is a violated constraint: a key that is taken, a queue that
-- does not exist, or a NULL in `scheduled_at`, which migrations/00001_initial_setup.sql declares
-- NOT NULL.
unfoldable pub create_job : CreateJob → ℤ → Store → Option (Job × Store)
create_job c now s = elim c.scheduled_at [ none ↦ none | some t ↦ insert_new c t now s ]

abbrev pub id_of : Option Job → Option String
id_of none = none
id_of (some j) = some j.id

-- `CheckIdempotencyKey`; `none` is pgx.ErrNoRows.
unfoldable pub check_idempotency_key : String → String → Store → Option String
check_idempotency_key workspace_id key s =
    id_of
      (find (λ j. same j.workspace_id workspace_id && same_key j.idempotency_key (some key)) s.jobs)
