-- ===== src/Store/Workers.antt =====
-- internal/db/workers.sql.go: the queries on workers.
use croncontrol.Prelude.{
  ℕ, ltb, ℤ, pos, ◌+ℤ◌, ◌-ℤ◌, ltb_ℤ, Bool, true, false, Option, none, some, List, [], ◌∷◌, ◌++◌,
  String, if◌then◌else◌, ◌&&◌, ◌||◌, same, find, any, keep, count, take, update_where,
}
use croncontrol.RunState
use croncontrol.Store.Tables.{Store, Worker, WorkerStatus}

-- Whether a column has a value.
abbrev pub is_value : String → Option String → Bool
is_value x none = false
is_value x (some y) = same x y

-- The parameters of `CreateWorker`; `none` is a NULL.
pub record CreateWorker : Type 0 where
  pub id : String
  pub workspace_id : String
  pub name : String
  pub credential_hash : String
  pub labels : Option String
  pub max_concurrency : ℤ

-- Whether a row has a key in common with the new one.
abbrev pub collides : CreateWorker → Worker → Bool
collides c w =
    same w.id c.id
    || same w.credential_hash c.credential_hash
    || same w.workspace_id c.workspace_id && same w.name c.name

abbrev pub new_worker : CreateWorker → String → Worker
new_worker c labels = record {
  id = c.id;
  workspace_id = c.workspace_id;
  name = c.name;
  credential_hash = c.credential_hash;
  labels = labels;
  capabilities = "{}";
  max_concurrency = c.max_concurrency;
  version = none;
  enabled = true;
  status = WorkerStatus.offline;
  last_heartbeat_at = none;
  consecutive_failures = pos 0;
  consecutive_healthy = pos 0;
  enrollment_token_hash = none;
  enrollment_token_expires_at = none;
}

-- `CreateWorker`; `none` is a violated constraint: a key that is taken, or a NULL in `labels`, which
-- migrations/00001_initial_setup.sql declares NOT NULL.
unfoldable pub create_worker : CreateWorker → Store → Option Store
create_worker c s = elim c.labels [
  | none ↦ none
  | some labels ↦
      if any (collides c) s.workers
      then none
      else some (record s { workers = s.workers ++ new_worker c labels ∷ [] })
]

-- `UPDATE workers SET … WHERE id = $1`, for a change `f` of the row.
unfoldable pub update_worker : String → (Worker → Worker) → Store → Store
update_worker id f s = record s { workers = update_where (λ w. same w.id id) f s.workers }

-- `GetWorker`; `none` is pgx.ErrNoRows.
unfoldable pub get_worker : String → String → Store → Option Worker
get_worker id workspace_id s =
    find (λ w. same w.id id && same w.workspace_id workspace_id) s.workers

abbrev pub is_after : ℤ → Option ℤ → Bool
is_after now none = false
is_after now (some t) = ltb_ℤ now t

-- The condition of `GetWorkerByEnrollmentToken`, at the database's clock.
abbrev pub has_token : ℤ → String → Worker → Bool
has_token now hash w =
    is_value hash w.enrollment_token_hash && is_after now w.enrollment_token_expires_at

-- `GetWorkerByEnrollmentToken`; `none` is pgx.ErrNoRows.
unfoldable pub get_worker_by_enrollment_token : ℤ → String → Store → Option Worker
get_worker_by_enrollment_token now hash s = find (has_token now hash) s.workers

-- `SetWorkerEnrollmentToken`.
unfoldable pub set_worker_enrollment_token : String → String → ℤ → Store → Option Store
set_worker_enrollment_token id hash expires_at s = some (
    update_worker id
      (λ w. record w {
        enrollment_token_hash = some hash;
        enrollment_token_expires_at = some expires_at;
      })
      s)

-- The row that `UpdateWorkerCredentialHash` leaves.
abbrev pub with_credential : String → Worker → Worker
with_credential hash w = record w {
  credential_hash = hash;
  enrollment_token_hash = none;
  enrollment_token_expires_at = none;
}

abbrev pub is_other_credential : String → String → Worker → Bool
is_other_credential id hash w =
    same w.credential_hash hash && (if same w.id id then false else true)

-- `UpdateWorkerCredentialHash`; `none` is a hash that another worker has.
unfoldable pub update_worker_credential_hash : String → String → Store → Option Store
update_worker_credential_hash id hash s =
    if any (is_other_credential id hash) s.workers
    then none
    else some (update_worker id (with_credential hash) s)

-- `IncrementWorkerFailures`.
unfoldable pub increment_worker_failures : String → Store → Option Store
increment_worker_failures id s = some (
    update_worker id
      (λ w. record w {
        consecutive_failures = w.consecutive_failures +ℤ pos 1;
        consecutive_healthy = pos 0;
      })
      s)

-- `SetWorkerStatus`.
unfoldable pub set_worker_status : String → WorkerStatus → Store → Option Store
set_worker_status id status s = some (update_worker id (λ w. record w { status = status }) s)

-- `COALESCE` of a parameter and a column that is not NULL.
abbrev pub text_or : Option String → String → String
text_or none old = old
text_or (some new) old = new

abbrev pub beaten : ℤ → Option String → String → Worker → Worker
beaten now capabilities version w = record w {
  last_heartbeat_at = some now;
  status = WorkerStatus.online;
  capabilities = text_or capabilities w.capabilities;
  version = some version;
  consecutive_failures = pos 0;
  consecutive_healthy = w.consecutive_healthy +ℤ pos 1;
}

-- `UpdateWorkerHeartbeat`, for a version that is given.
unfoldable pub update_worker_heartbeat : String → ℤ → Option String → String → Store → Option Store
update_worker_heartbeat id now capabilities version s =
    some (update_worker id (beaten now capabilities version) s)

abbrev pub is_online : WorkerStatus → Bool
is_online WorkerStatus.online = true
is_online _ = false

-- 60 seconds, in nanoseconds.
abbrev pub stale_after : ℤ
stale_after = pos 60000000000

abbrev pub is_before : ℤ → Option ℤ → Bool
is_before t none = false
is_before t (some at) = ltb_ℤ at t

-- The condition of `ListStaleWorkers`.
abbrev pub is_stale : ℤ → Worker → Bool
is_stale now w =
    w.enabled && is_online w.status && is_before (now -ℤ stale_after) w.last_heartbeat_at

-- `ListStaleWorkers`.
unfoldable pub list_stale_workers : ℤ → Store → List Worker
list_stale_workers now s = keep (is_stale now) s.workers

-- The number by which `ListOnlineWorkers` orders.
unfoldable pub running_of_worker : Store → Worker → ℕ
running_of_worker s w =
    count (λ r. is_value w.id r.worker_id && RunState.is_state r.state RunState.State.running)
      s.runs

unfoldable pub insert_worker : Store → Worker → List Worker → List Worker
insert_worker s w [] = w ∷ []
insert_worker s w (v ∷ vs) =
    let later = v ∷ insert_worker s w vs in
    if ltb (running_of_worker s v) (running_of_worker s w) then later else w ∷ v ∷ vs

unfoldable pub order_workers : Store → List Worker → List Worker
order_workers s [] = []
order_workers s (w ∷ ws) = insert_worker s w (order_workers s ws)

abbrev pub is_available : String → Worker → Bool
is_available workspace_id w = same w.workspace_id workspace_id && w.enabled && is_online w.status

-- `ListOnlineWorkers`.
unfoldable pub list_online_workers : String → ℕ → Store → List Worker
list_online_workers workspace_id limit s =
    take limit (order_workers s (keep (is_available workspace_id) s.workers))

-- `DeleteWorker`; `none` stands for no row that is deleted.
unfoldable pub delete_worker : String → String → Store → Option Store
delete_worker id workspace_id s =
    let is_kept =
      λ (w : Worker). if same w.id id && same w.workspace_id workspace_id then false else true in
    if any (λ w. same w.id id && same w.workspace_id workspace_id) s.workers
    then some (record s { workers = keep is_kept s.workers })
    else none
