-- ===== src/Handler/Workers.antt =====
-- internal/handler/service.go: `CreateWorker`, `UpdateWorker`, `EnrollWorker`, `DeleteWorker`,
-- `WorkerHeartbeat` and `WorkerResult`, from the decoded request on, where a dispatcher is set.
use croncontrol.Prelude.{
  ℤ, pos, ◌+ℤ◌, ltb_ℤ, Bool, true, false, Option, none, some, String, if◌then◌else◌, ◌&&◌, same,
  find, any, update_where,
}
use Prim.Native.String.{◌++◌}
use croncontrol.Store.{
  Store, Worker, CreateWorker, create_worker, get_worker, set_worker_enrollment_token,
  get_worker_by_enrollment_token, update_worker_credential_hash, delete_worker,
}
use croncontrol.World.{Env, M, ◌>>=◌, ◌>>◌, pure, exec, fetch_row, now, fresh}
use croncontrol.Executor.Terminal.{attempt_exec}
use croncontrol.Worker.Enrollment.{EnrollmentResult, hour}
use croncontrol.Worker.Status.{process_heartbeat}
use croncontrol.Worker.Results.{TaskResult, process_result}

-- What is written to the client.
pub data WorkerResponse : Type 0 where
  -- 201, with the enrollment token.
  worker_created : String → String → WorkerResponse
  -- 200.
  worker_loaded : Worker → WorkerResponse
  worker_enrolled : EnrollmentResult → WorkerResponse
  accepted : WorkerResponse
  -- 204, 400, 401, 404, 409 and 500.
  no_content bad_request unauthorized worker_not_found conflict server_error : WorkerResponse

-- The requests; `none` is a member that is missing, and labels are their JSON text.
pub record WorkerRequest : Type 0 where
  pub name : Option String
  pub max_concurrency : Option ℤ
  pub enabled : Option Bool
  pub labels : Option String

-- The member, unless it is missing or empty.
abbrev pub name_or : String → Option String → String
name_or old none = old
name_or old (some name) = if same name "" then old else name

-- The member, unless it is missing or not positive.
abbrev pub positive_or : ℤ → Option ℤ → ℤ
positive_or old none = old
positive_or old (some n) = if ltb_ℤ (pos 0) n then n else old

abbrev pub member_or : {A : Type 0} → A → Option A → A
member_or old none = old
member_or old (some a) = a

-- The row that the statement of `UpdateWorker` leaves.
abbrev pub updated_worker : WorkerRequest → Worker → Worker
updated_worker request w = record w {
  name = name_or w.name request.name;
  max_concurrency = positive_or w.max_concurrency request.max_concurrency;
  enabled = member_or w.enabled request.enabled;
  labels = member_or w.labels request.labels;
}

-- The statement of `UpdateWorker`, with the values of the row that was read; `none` is a name that
-- another worker of the workspace has.
unfoldable pub update_worker_row : WorkerRequest → Worker → Store → Option Store
update_worker_row request old s =
    let new = updated_worker request old in
    let is_row = λ (w : Worker). same w.id old.id && same w.workspace_id old.workspace_id in
    if any
      (λ w.
        (if is_row w then false else true)
        && same w.workspace_id old.workspace_id
        && same w.name new.name)
      s.workers
    then none
    else some (record s {
      workers =
          update_where is_row
            (λ w. record w {
              name = new.name;
              max_concurrency = new.max_concurrency;
              enabled = new.enabled;
              labels = new.labels;
            })
            s.workers;
    })

module _ (env : Env) where
  -- The parameters that `CreateWorker` builds.
  abbrev pub worker_params : String → String → String → WorkerRequest → CreateWorker
  worker_params id placeholder workspace_id request = record {
    id = id;
    workspace_id = workspace_id;
    name = name_or "" request.name;
    credential_hash = env.hash_credential ("placeholder_" ++ placeholder);
    labels = request.labels;
    max_concurrency = positive_or (pos 5) request.max_concurrency;
  }

  give_token : String → String → M WorkerResponse
  give_token id token = do
    t ← now env
    attempt_exec env (set_worker_enrollment_token id (env.hash_credential token) (t +ℤ hour))
    pure (worker_created id token)

  insert_worker_row : String → WorkerRequest → M WorkerResponse
  unfolding give_token
  insert_worker_row workspace_id request = do
    key ← fresh env "cc_live_"
    placeholder ← fresh env "wrk_"
    id ← fresh env "wrk_"
    ok ← exec env (create_worker (worker_params id placeholder workspace_id request))
    if ok then give_token id ("enroll_" ++ key) else pure conflict

  -- `CreateWorker`.
  unfoldable pub add_worker_request : String → WorkerRequest → M WorkerResponse
  unfolding insert_worker_row
  add_worker_request workspace_id request =
      if same (name_or "" request.name) ""
      then pure bad_request
      else insert_worker_row workspace_id request

  reload : String → String → M WorkerResponse
  reload id workspace_id = do
    row ← fetch_row env (get_worker id workspace_id)
    elim row [ none ↦ pure server_error | some w ↦ pure (worker_loaded w) ]

  write_worker : Worker → WorkerRequest → M WorkerResponse
  unfolding reload
  write_worker old request = do
    ok ← exec env (update_worker_row request old)
    if ok then reload old.id old.workspace_id else pure server_error

  -- `UpdateWorker`.
  unfoldable pub change_worker_request : String → String → WorkerRequest → M WorkerResponse
  unfolding write_worker
  change_worker_request id workspace_id request = do
    row ← fetch_row env (get_worker id workspace_id)
    elim row [ none ↦ pure worker_not_found | some old ↦ write_worker old request ]

  issue : Worker → M WorkerResponse
  issue w = do
    key ← fresh env "cc_live_"
    let credential = "wrk_cred_" ++ key
    ok ← exec env (update_worker_credential_hash w.id (env.hash_credential credential))
    pure (
        if ok
        then worker_enrolled (record { worker_id = w.id; credential = credential })
        else server_error)

  find_by_token : String → M WorkerResponse
  unfolding issue
  find_by_token token = do
    t ← now env
    row ← fetch_row env (get_worker_by_enrollment_token t (env.hash_credential token))
    elim row [ none ↦ pure unauthorized | some w ↦ issue w ]

  -- `EnrollWorker`.
  unfoldable pub enroll_worker : String → M WorkerResponse
  unfolding find_by_token
  enroll_worker token = if same token "" then pure bad_request else find_by_token token

  -- `DeleteWorker`.
  unfoldable pub delete_worker_request : String → String → M WorkerResponse
  delete_worker_request id workspace_id = do
    ok ← exec env (delete_worker id workspace_id)
    pure (if ok then no_content else worker_not_found)

  abbrev by_credential : String → Store → Option Worker
  by_credential credential s =
      find (λ w. same w.credential_hash (env.hash_credential credential) && w.enabled) s.workers

  -- `authenticateWorkerRequest`, for the text behind `Bearer `; the empty text stands for a header
  -- without one. `none` is an error.
  unfoldable pub authenticate_worker_request : String → M (Option Worker)
  authenticate_worker_request credential =
      if same credential "" then pure none else fetch_row env (by_credential credential)

  -- `WorkerHeartbeat`.
  unfoldable pub worker_heartbeat : String → Option String → String → M WorkerResponse
  worker_heartbeat credential capabilities version = do
    found ← authenticate_worker_request credential
    elim found [
      | none ↦ pure unauthorized
      | some w ↦ do
        ok ← process_heartbeat env w.id capabilities version
        pure (if ok then accepted else server_error)
    ]

  settle_result : TaskResult → M WorkerResponse
  settle_result result = do
    ok ← process_result env result
    pure (if ok then accepted else server_error)

  -- `WorkerResult`; the worker is not read.
  unfoldable pub worker_result : String → TaskResult → M WorkerResponse
  unfolding settle_result
  worker_result credential result = do
    found ← authenticate_worker_request credential
    elim found [
      | none ↦ pure unauthorized
      | some w ↦ if same result.task_id "" then pure bad_request else settle_result result
    ]
