-- ===== src/Worker/Enrollment.antt =====
-- internal/worker/enrollment.go: a worker is created with a token, which it exchanges for a
-- credential.
use croncontrol.Prelude.{ℤ, pos, ◌+ℤ◌, Option, none, some, String, if◌then◌else◌}
use Prim.Native.String.{◌++◌}
use croncontrol.Store.{
  Worker, CreateWorker, create_worker, set_worker_enrollment_token, get_worker_by_enrollment_token,
  update_worker_credential_hash,
}
use croncontrol.World.{Env, M, ◌>>=◌, pure, exec, fetch_row, now, fresh, tick}

pub record EnrollmentResult : Type 0 where
  pub worker_id : String
  pub credential : String

-- One hour, in nanoseconds.
abbrev pub hour : ℤ
hour = pos 3600000000000

module _ (env : Env) where
  -- `generateToken`; `none` is an error.
  unfoldable pub generate_token : M (Option String)
  generate_token w = (env.random_token w.step, tick w)

  abbrev pub placeholder : String → String → String → ℤ → CreateWorker
  placeholder id workspace_id name max_concurrency = record {
    id = id;
    workspace_id = workspace_id;
    name = name;
    credential_hash = env.hash_credential ("placeholder_" ++ id);
    labels = none;
    max_concurrency = max_concurrency;
  }

  unfoldable pub store_token : String → String → M (Option (String × String))
  store_token id token = do
    t ← now env
    ok ← exec env (set_worker_enrollment_token id (env.hash_credential token) (t +ℤ hour))
    pure (if ok then some (id, token) else none)

  unfoldable pub add_worker : String → String → ℤ → String → M (Option (String × String))
  unfolding store_token
  add_worker workspace_id name max_concurrency token = do
    id ← fresh env "wrk_"
    ok ← exec env (create_worker (placeholder id workspace_id name max_concurrency))
    if ok then store_token id token else pure none

  -- `Enrollment.CreateWorker`: the identifier of the worker and the token, or `none` for an error.
  unfoldable pub register_worker : String → String → ℤ → M (Option (String × String))
  unfolding add_worker
  register_worker workspace_id name max_concurrency = do
    token ← generate_token
    elim token [ none ↦ pure none | some t ↦ add_worker workspace_id name max_concurrency t ]

  -- The credential replaces the token.
  unfoldable pub exchange : Worker → String → M (Option EnrollmentResult)
  exchange worker credential = do
    ok ← exec env (update_worker_credential_hash worker.id (env.hash_credential credential))
    pure (if ok then some (record { worker_id = worker.id; credential = credential }) else none)

  unfoldable pub issue_credential : Worker → M (Option EnrollmentResult)
  issue_credential worker = do
    credential ← generate_token
    elim credential [ none ↦ pure none | some c ↦ exchange worker ("wrk_cred_" ++ c) ]

  -- `Enroll`; `none` is an error. The database reads its clock in the query.
  unfoldable pub enroll : String → M (Option EnrollmentResult)
  unfolding issue_credential
  enroll token = do
    t ← now env
    found ← fetch_row env (get_worker_by_enrollment_token t (env.hash_credential token))
    elim found [ none ↦ pure none | some worker ↦ issue_credential worker ]
