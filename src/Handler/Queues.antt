-- ===== src/Handler/Queues.antt =====
-- internal/handler/service.go: `CreateQueue`, `UpdateQueue` and `GetQueue`, from the decoded request
-- on.
use croncontrol.Prelude.{
  ℤ, pos, quot, Bool, true, Option, none, some, List, [], ◌∷◌, String, if◌then◌else◌, ◌||◌, same,
}
use croncontrol.Store.{Bytes, Interval, Runtime, Queue, create_queue, get_queue, update_queue}
use croncontrol.World.{Env, M, ◌>>=◌, pure, exec_row, fetch_row, fresh}

-- The members of a request that the handlers read; `none` is a member that is missing or of another
-- type, configurations and labels are their JSON text, and numbers are those that the
-- conversion to `int32` gives. Of a member that may be null, `some none` is null; tags
-- that are null are read like no tags.
pub record QueueRequest : Type 0 where
  pub name : Option String
  pub execution_method : Option String
  pub runtime : Option String
  pub method_config : Option String
  pub concurrency : Option ℤ
  pub max_attempts : Option ℤ
  pub retry_backoff : Option Bytes
  -- The text of a duration, as `time.ParseDuration` reads it.
  pub job_timeout : Option Bytes
  pub max_response_size : Option ℤ
  pub ssh_credential_id : Option (Option String)
  pub ssm_profile_id : Option (Option String)
  pub k8s_cluster_id : Option (Option String)
  pub worker_id : Option (Option String)
  pub worker_labels : Option (Option String)
  pub tags : Option (List String)
  pub enabled : Option Bool

-- What is written to the client.
pub data QueueResponse : Type 0 where
  -- 201 and 200.
  queue_created queue_loaded : Queue → QueueResponse
  -- 400, 404, 409 and 500.
  invalid_queue queue_not_found queue_conflict queue_failed : QueueResponse

-- A text that the column `runtime` allows.
unfoldable pub read_runtime : String → Option Runtime
read_runtime text =
    if same text "direct"
    then some Runtime.direct
    else if same text "worker"
    then some Runtime.worker
    else none

-- `getStr`, `getInt32`, `getBool`, `getNullableString`, `getJSONBytes` and `getStringArray`: the
-- member, or else the old value.
abbrev pub get_member : {A : Type 0} → A → Option A → A
get_member def none = def
get_member def (some v) = v

abbrev pub text_or_direct : Option String → String
text_or_direct none = "direct"
text_or_direct (some v) = if same v "" then "direct" else v

abbrev or_braces : Option String → String
or_braces none = "{}"
or_braces (some config) = if same config "null" then "{}" else config

abbrev nullable : Option String → Option (Option String) → Option String
nullable def none = def
nullable def (some v) = v

-- `1m,5m,15m,1h`.
abbrev pub default_backoff : Bytes
default_backoff =
    b'1' ∷ b'm' ∷ b',' ∷ b'5' ∷ b'm' ∷ b',' ∷ b'1' ∷ b'5' ∷ b'm' ∷ b',' ∷ b'1' ∷ b'h' ∷ []

abbrev pub five_minutes : Interval
five_minutes = record { microseconds = pos 300000000; days = pos 0; months = pos 0 }

-- The row of `CreateQueue`; members that it does not read have their defaults.
abbrev pub new_queue : String → String → Runtime → QueueRequest → Queue
new_queue id workspace_id runtime r = record {
  id = id;
  workspace_id = workspace_id;
  name = get_member "" r.name;
  execution_method = get_member "" r.execution_method;
  runtime = runtime;
  method_config = or_braces r.method_config;
  concurrency = get_member (pos 1) r.concurrency;
  max_attempts = get_member (pos 3) r.max_attempts;
  retry_backoff = get_member default_backoff r.retry_backoff;
  job_timeout = five_minutes;
  max_response_size = pos 5242880;
  ssh_credential_id = none;
  ssm_profile_id = none;
  k8s_cluster_id = none;
  worker_id = nullable none r.worker_id;
  worker_labels = nullable none r.worker_labels;
  tags = get_member [] r.tags;
  enabled = true;
}

module _ (env : Env) where
  -- The timeout of a request that parses, or else the old one.
  unfoldable pub new_timeout : Interval → Option Bytes → Interval
  new_timeout old none = old
  new_timeout old (some text) = elim (env.parse_duration text) [
    | none ↦ old
    | some d ↦ record { microseconds = quot d 1000; days = pos 0; months = pos 0 }
  ]

  -- The row of `UpdateQueue`.
  unfoldable pub changed_queue : Runtime → QueueRequest → Queue → Queue
  changed_queue runtime r q = record {
    id = q.id;
    workspace_id = q.workspace_id;
    name = get_member q.name r.name;
    execution_method = get_member q.execution_method r.execution_method;
    runtime = runtime;
    method_config = get_member q.method_config r.method_config;
    concurrency = get_member q.concurrency r.concurrency;
    max_attempts = get_member q.max_attempts r.max_attempts;
    retry_backoff = get_member q.retry_backoff r.retry_backoff;
    job_timeout = new_timeout q.job_timeout r.job_timeout;
    max_response_size = get_member q.max_response_size r.max_response_size;
    ssh_credential_id = nullable q.ssh_credential_id r.ssh_credential_id;
    ssm_profile_id = nullable q.ssm_profile_id r.ssm_profile_id;
    k8s_cluster_id = nullable q.k8s_cluster_id r.k8s_cluster_id;
    worker_id = nullable q.worker_id r.worker_id;
    worker_labels = nullable q.worker_labels r.worker_labels;
    tags = get_member q.tags r.tags;
    enabled = get_member q.enabled r.enabled;
  }

  -- The answer to a statement that returns the row.
  abbrev answer_row : (Queue → QueueResponse) → QueueResponse → Option Queue → M QueueResponse
  answer_row ok err none = pure err
  answer_row ok err (some q) = pure (ok q)

  -- The insertion; a runtime that the table does not allow is a violated constraint.
  unfoldable pub insert_queue_row : String → QueueRequest → M QueueResponse
  insert_queue_row workspace_id r = do
    id ← fresh env "que_"
    elim (read_runtime (text_or_direct r.runtime)) [
      | none ↦ pure queue_conflict
      | some runtime ↦
          exec_row env (create_queue (new_queue id workspace_id runtime r))
          >>= answer_row queue_created queue_conflict
    ]

  -- `CreateQueue`.
  unfoldable pub create_queue_request : String → QueueRequest → M QueueResponse
  unfolding insert_queue_row
  create_queue_request workspace_id r =
      if same (get_member "" r.name) "" || same (get_member "" r.execution_method) ""
      then pure invalid_queue
      else insert_queue_row workspace_id r

  abbrev runtime_of : Queue → Option String → Option Runtime
  runtime_of q none = some q.runtime
  runtime_of q (some text) = read_runtime text

  write_queue : QueueRequest → Queue → M QueueResponse
  write_queue r q = elim (runtime_of q r.runtime) [
    | none ↦ pure queue_failed
    | some runtime ↦
        exec_row env (update_queue (changed_queue runtime r q))
        >>= answer_row queue_loaded queue_failed
  ]

  -- `UpdateQueue`.
  unfoldable pub update_queue_request : String → String → QueueRequest → M QueueResponse
  unfolding write_queue
  update_queue_request id workspace_id r = do
    row ← fetch_row env (get_queue id workspace_id)
    elim row [ none ↦ pure queue_not_found | some q ↦ write_queue r q ]

  -- `GetQueue`.
  unfoldable pub get_queue_request : String → String → M QueueResponse
  get_queue_request id workspace_id = do
    row ← fetch_row env (get_queue id workspace_id)
    answer_row queue_loaded queue_not_found row
