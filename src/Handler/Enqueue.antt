-- ===== src/Handler/Enqueue.antt =====
-- internal/handler/service.go: `EnqueueJob` and `BatchEnqueueJobs`, from the decoded request on. The
-- payload is its JSON text.
pub mod Refused
use croncontrol.Prelude.{
  ℕ, suc, ℤ, Bool, true, false, not, Option, none, some, List, [], ◌∷◌, ◌++◌, String, if◌then◌else◌,
  same,
}
use croncontrol.Store.{Store, Job, CreateJob, create_job, check_idempotency_key}
use croncontrol.World.{Env, World, M, ◌>>=◌, ◌>>◌, pure, exec, exec_row, fetch_row, now, fresh}
use croncontrol.Handler.{Actor}

-- A job of a request.
pub record EnqueueRequest : Type 0 where
  pub queue_id : String
  pub payload : String
  pub priority : ℤ
  pub reference : Option String
  pub idempotency_key : Option String

-- What is written to the client.
pub data EnqueueResponse : Type 0 where
  -- 201.
  job_enqueued : Job → EnqueueResponse
  batch_enqueued : List Job → EnqueueResponse
  -- 409, with the identifier of the job that has the key.
  idempotency_conflict : String → EnqueueResponse
  -- The same, 400 and 500, for the job of a batch with this index.
  conflict_at : ℕ → String → EnqueueResponse
  failed_at : ℕ → EnqueueResponse
  -- 400, for a batch without jobs.
  jobs_required : EnqueueResponse
  -- 500.
  enqueue_failed : EnqueueResponse

-- The parameters that the handlers build.
abbrev pub enqueue_params : Actor → String → String → EnqueueRequest → CreateJob
enqueue_params actor id workspace_id request = record {
  id = id;
  workspace_id = workspace_id;
  queue_id = request.queue_id;
  payload = request.payload;
  priority = request.priority;
  max_attempts = none;
  retry_backoff = none;
  scheduled_at = none;
  expires_at = none;
  reference = request.reference;
  idempotency_key = request.idempotency_key;
  runtime_override = none;
  worker_id_override = none;
  worker_labels_override = none;
  actor_type = some actor.kind;
  actor_id = some actor.id;
  tags = [];
}

module _ (env : Env) where
  -- The job that has the key of the request; `none` also where the query fails, or gives the empty
  -- text.
  unfoldable pub find_conflict : String → EnqueueRequest → M (Option String)
  find_conflict workspace_id request = elim request.idempotency_key [
    | none ↦ pure none
    | some key ↦ do
      existing ← fetch_row env (check_idempotency_key workspace_id key)
      elim existing [ none ↦ pure none | some id ↦ pure (if same id "" then none else some id) ]
  ]

  -- `CreateJob` for a request; `none` is an error.
  unfoldable pub insert_request : Actor → String → EnqueueRequest → M (Option Job)
  insert_request actor workspace_id request = do
    id ← fresh env "job_"
    t ← now env
    exec_row env (create_job (enqueue_params actor id workspace_id request) t)

  unfoldable pub add_job : Actor → String → EnqueueRequest → M EnqueueResponse
  add_job actor workspace_id request = do
    job ← insert_request actor workspace_id request
    elim job [ none ↦ pure enqueue_failed | some j ↦ pure (job_enqueued j) ]

  -- `EnqueueJob`.
  unfoldable pub enqueue_job : Actor → String → EnqueueRequest → M EnqueueResponse
  enqueue_job actor workspace_id request = do
    existing ← find_conflict workspace_id request
    elim existing [
      | some id ↦ pure (idempotency_conflict id)
      | none ↦ add_job actor workspace_id request
    ]

  -- The deferred `Rollback`: the transaction's changes are undone.
  unfoldable pub roll_back : {A : Type 0} → Store → A → M A
  roll_back before answer w = (answer, record w { store = before })

  -- `Commit`, whose failure undoes the changes.
  unfoldable pub commit_batch : Store → List Job → M EnqueueResponse
  commit_batch before created = do
    ok ← exec env (λ s. some s)
    if ok then pure (batch_enqueued created) else roll_back before enqueue_failed

  -- The loop of `BatchEnqueueJobs`, at an index, with the jobs that were created.
  unfoldable pub enqueue_all :
      Actor → String → Store → ℕ → List Job → List EnqueueRequest → M EnqueueResponse
  enqueue_all actor workspace_id before i created [] = commit_batch before created
  enqueue_all actor workspace_id before i created (request ∷ requests) =
      find_conflict workspace_id request >>= λ existing. elim existing [
        | some id ↦ roll_back before (conflict_at i id)
        | none ↦ insert_request actor workspace_id request >>= λ job. elim job [
          | none ↦ roll_back before (failed_at i)
          | some j ↦ enqueue_all actor workspace_id before (suc i) (created ++ j ∷ []) requests
        ]
      ]

  -- The transaction of `BatchEnqueueJobs`.
  unfoldable pub run_batch : Actor → String → List EnqueueRequest → M EnqueueResponse
  run_batch actor workspace_id requests w =
      (exec env (λ s. some s) >>= λ begun.
      if begun then enqueue_all actor workspace_id w.store 0 [] requests else pure enqueue_failed)
        w

  -- `BatchEnqueueJobs`.
  unfoldable pub batch_enqueue_jobs : Actor → String → List EnqueueRequest → M EnqueueResponse
  batch_enqueue_jobs actor workspace_id [] = pure jobs_required
  batch_enqueue_jobs actor workspace_id (request ∷ requests) =
      run_batch actor workspace_id (request ∷ requests)
