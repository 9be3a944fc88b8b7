-- ===== src/Tests/Samples.antt =====
-- The values that the tests share.
use croncontrol.Prelude.{ℕ, Bool, pos, false, true, none, some, List, [], ◌∷◌}
use croncontrol.RunState.{State}
use croncontrol.Store.{
  Origin, ScheduleType, OnOverlap, Runtime, MissPolicy, DependencyType, TimeoutAction,
  WorkspaceState, Interval, Run, Process, Store,
}
use croncontrol.World.{World, Env}
use croncontrol.Executor.Method.{Handle, Result, PollResult, Method, RemoteState}
use croncontrol.Executor.Terminal.{Hooks}
use croncontrol.Dependency.{evaluate}

-- A pending run that is due at time 5.
abbrev pub pending_run : Run
pending_run = record {
  id = "run_1";
  workspace_id = "wsp_1";
  process_id = "prc_1";
  scheduled_at = pos 5;
  state = State.pending;
  origin = Origin.from_cron;
  attempt = pos 0;
  max_attempts = pos 3;
  next_attempt_at = none;
  started_at = none;
  finished_at = none;
  duration_ms = none;
  exit_code = none;
  last_heartbeat_at = none;
  queue_reason = none;
  waiting_reason = none;
  actor_type = some "system";
  actor_id = none;
  killed_by_actor_type = none;
  killed_by_actor_id = none;
  triggered_by_run_id = none;
  effective_config = none;
  worker_id = none;
  tags = [];
  execution_handle = none;
  stdout_offset = pos 0;
  stderr_offset = pos 0;
}

-- Two other runs of the process, which are active.
abbrev pub running_run : Run
running_run = record pending_run {
  id = "run_2";
  scheduled_at = pos 3;
  state = State.running;
  started_at = some (pos 4);
  attempt = pos 1;
}

abbrev pub retrying_run : Run
retrying_run = record pending_run {
  id = "run_3";
  scheduled_at = pos 2;
  state = State.retrying;
  next_attempt_at = some (pos 900);
}

abbrev pub completed_run : Run
completed_run = record pending_run { id = "run_4"; scheduled_at = pos 1; state = State.completed }

abbrev pub second : Interval
second = record { microseconds = pos 1000000; days = pos 0; months = pos 0 }

-- A cron process that skips overlapping runs, and recovers two missed runs at most.
abbrev pub cron_process : Process
cron_process = record {
  id = "prc_1";
  workspace_id = "wsp_1";
  schedule_type = ScheduleType.cron;
  schedule = some "* * * * *";
  delay_duration = none;
  timezone = none;
  miss_policy = some MissPolicy.execute_missed;
  max_recovery_slots = pos 2;
  allow_parallel = false;
  on_overlap = OnOverlap.skip;
  execution_method = "http";
  runtime = Runtime.direct;
  worker_id = none;
  worker_labels = none;
  method_config = "{}";
  max_attempts = pos 3;
  retry_backoff = some (b'5' ∷ b's' ∷ []);
  execution_timeout = some second;
  heartbeat_timeout = none;
  timeout_action = TimeoutAction.alert;
  depends_on_process_id = none;
  dependency_type = none;
  tags = [];
  enabled = true;
}

-- A process that runs after the first one.
abbrev pub dependent_process : Process
dependent_process = record cron_process {
  id = "prc_2";
  schedule_type = ScheduleType.on_demand;
  schedule = none;
  depends_on_process_id = some "prc_1";
  dependency_type = some DependencyType.after;
}

abbrev pub store_of : List Run → Store
store_of runs = record {
  runs = runs;
  run_attempts = [];
  run_output = [];
  processes = cron_process ∷ dependent_process ∷ [];
  workspaces = record { id = "wsp_1"; state = WorkspaceState.active } ∷ [];
  jobs = [];
  job_attempts = [];
  queues = [];
  workers = [];
}

abbrev pub world_of : List Run → World
world_of runs = record {
  store = store_of runs;
  running = [];
  signals = [];
  task_queues = [];
  step = 0;
  panicked = false;
}

-- A database that fails at the calls that are given; the clock counts the actions.
abbrev pub env_failing : (ℕ → Bool) → Env
env_failing fails = record {
  db_fails = fails;
  clock = λ n. pos n;
  new_id = λ n prefix. prefix;
  others = λ n s. s;
  parse_duration = λ text. some (pos 5000000000);
  encode_handle = λ h. some h.details;
  decode_handle = λ text. some (record { method_name = "ssh"; run_id = "run_2"; details = text });
  encode_snapshot = λ name config runtime. config;
  encode_job_snapshot = λ name config. config;
  decode_object = λ text. none;
  decode_value = λ text. some text;
  decode_strings = λ text. some (text ∷ []);
  encode_object = λ fields. "{}";
  error_text = λ n. "failed";
  hash_credential = λ text. text;
  random_token = λ n. some "secret";
  registry = [];
  has_log_backend = true;
}

abbrev pub reliable_env : Env
reliable_env = env_failing (λ n. false)

-- No callback is set.
abbrev pub no_hooks : Hooks
no_hooks = record { on_run_terminal = none; worker_dispatch = none }

-- The dependency resolver is the callback, as in main.go.
abbrev pub wired_hooks : Hooks
wired_hooks = record {
  on_run_terminal = some (λ run proc. evaluate reliable_env run);
  worker_dispatch = none;
}

-- A command that exits with 1.
abbrev pub failing_result : Result
failing_result = record {
  exit_code = some (pos 1);
  response_code = none;
  stdout = b'a' ∷ [];
  stderr = [];
  response_body = [];
  error = none;
}

abbrev pub blocking_handle : Handle
blocking_handle = record { method_name = "http"; run_id = "run_1"; details = "" }

abbrev pub running_poll : PollResult
running_poll = record {
  state = RemoteState.remote_running;
  exit_code = none;
  stdout_chunk = b'a' ∷ b'b' ∷ [];
  stderr_chunk = [];
  response_body_chunk = [];
  cursor = record { stdout_offset = pos 0; stderr_offset = pos 0 };
  error = none;
}

-- A method that blocks and fails.
abbrev pub failing_method : Method
failing_method = record {
  start = λ n params. (record { handle = blocking_handle; result = some failing_result }, none);
  poll = λ n handle cursor. (none, running_poll);
  kill = λ n handle. none;
  supports_kill = true;
}
