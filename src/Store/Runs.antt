-- ===== src/Store/Runs.antt =====
-- internal/db/runs.sql.go: the queries on runs. An update returns the new store, and a query that
-- a constraint of the table can refuse returns `none` then.
use croncontrol.Prelude.{
  ℕ, ℤ, Bool, Option, none, some, List, [], ◌∷◌, ◌++◌, String, if◌then◌else◌, ◌==◌, ◌&&◌, ◌||◌,
  same, find, any, update_where, eqb_ℤ, pos,
}
use croncontrol.RunState.{State}
use croncontrol.Store.Tables.{Message, Origin, Run, Store}

-- The columns that `UpdateRunState` sets; `none` is a NULL parameter.
pub record UpdateRunState : Type 0 where
  pub state : State
  pub started_at : Option ℤ
  pub finished_at : Option ℤ
  pub duration_ms : Option ℤ
  pub exit_code : Option ℤ
  pub attempt : Option ℤ
  pub next_attempt_at : Option ℤ
  pub queue_reason : Option Message
  pub waiting_reason : Option Message
  pub killed_by_actor_type : Option String
  pub killed_by_actor_id : Option String
  pub worker_id : Option String

-- The parameters that a Go literal with only `State` gives.
abbrev pub to_state : State → UpdateRunState
to_state s = record {
  state = s;
  started_at = none;
  finished_at = none;
  duration_ms = none;
  exit_code = none;
  attempt = none;
  next_attempt_at = none;
  queue_reason = none;
  waiting_reason = none;
  killed_by_actor_type = none;
  killed_by_actor_id = none;
  worker_id = none;
}

-- `COALESCE(new, old)`.
abbrev pub coalesce : {A : Type 0} → Option A → Option A → Option A
coalesce none old = old
coalesce (some a) old = some a

abbrev pub coalesce_or : {A : Type 0} → Option A → A → A
coalesce_or none old = old
coalesce_or (some a) old = a

-- The new row. `next_attempt_at` and the two reasons are set also to NULL.
unfoldable pub apply_update : UpdateRunState → Run → Run
apply_update u r = record r {
  state = u.state;
  started_at = coalesce u.started_at r.started_at;
  finished_at = coalesce u.finished_at r.finished_at;
  duration_ms = coalesce u.duration_ms r.duration_ms;
  exit_code = coalesce u.exit_code r.exit_code;
  attempt = coalesce_or u.attempt r.attempt;
  next_attempt_at = u.next_attempt_at;
  queue_reason = u.queue_reason;
  waiting_reason = u.waiting_reason;
  killed_by_actor_type = coalesce u.killed_by_actor_type r.killed_by_actor_type;
  killed_by_actor_id = coalesce u.killed_by_actor_id r.killed_by_actor_id;
  worker_id = coalesce u.worker_id r.worker_id;
}

-- `UPDATE runs SET … WHERE id = $1`, for a change `f` of the row.
unfoldable pub update_run : String → (Run → Run) → Store → Store
update_run id f s = record s { runs = update_where (λ r. same r.id id) f s.runs }

-- The row with a primary key.
unfoldable pub find_run : String → Store → Option Run
find_run id s = find (λ r. same r.id id) s.runs

-- `UpdateRunState`.
unfoldable pub update_run_state : String → UpdateRunState → Store → Option Store
unfolding update_run apply_update
update_run_state id u s = some (update_run id (apply_update u) s)

-- `SnapshotRunConfig`.
unfoldable pub snapshot_run_config : String → String → Store → Option Store
unfolding update_run
snapshot_run_config id config s =
    some (update_run id (λ r. record r { effective_config = some config }) s)

-- `SaveRunExecutionHandle`.
unfoldable pub save_run_execution_handle : String → String → Store → Option Store
unfolding update_run
save_run_execution_handle id handle s = some (
    update_run id
      (λ r. record r {
        execution_handle = some handle;
        stdout_offset = pos 0;
        stderr_offset = pos 0;
      })
      s)

-- `ClearRunExecutionHandle`.
unfoldable pub clear_run_execution_handle : String → Store → Option Store
unfolding update_run
clear_run_execution_handle id s = some (
    update_run id
      (λ r. record r { execution_handle = none; stdout_offset = pos 0; stderr_offset = pos 0 }) s)

-- `UpdateRunOffsets`.
unfoldable pub update_run_offsets : String → ℤ → ℤ → Store → Option Store
unfolding update_run
update_run_offsets id stdout_offset stderr_offset s = some (
    update_run id (λ r. record r { stdout_offset = stdout_offset; stderr_offset = stderr_offset })
      s)

-- The columns that `CreateRun` inserts and the modelled callers set.
pub record CreateRun : Type 0 where
  pub id : String
  pub workspace_id : String
  pub process_id : String
  pub scheduled_at : ℤ
  pub state : State
  pub origin : Origin
  pub max_attempts : ℤ
  pub actor_type : Option String
  pub actor_id : Option String
  pub triggered_by_run_id : Option String
  pub tags : List String

-- The inserted row: the other columns take the defaults of the table.
unfoldable pub new_run : CreateRun → Run
new_run c = record {
  id = c.id;
  workspace_id = c.workspace_id;
  process_id = c.process_id;
  scheduled_at = c.scheduled_at;
  state = c.state;
  origin = c.origin;
  attempt = pos 0;
  max_attempts = c.max_attempts;
  next_attempt_at = none;
  started_at = none;
  finished_at = none;
  duration_ms = none;
  exit_code = none;
  last_heartbeat_at = none;
  queue_reason = none;
  waiting_reason = none;
  actor_type = c.actor_type;
  actor_id = c.actor_id;
  killed_by_actor_type = none;
  killed_by_actor_id = none;
  triggered_by_run_id = c.triggered_by_run_id;
  effective_config = none;
  worker_id = none;
  tags = c.tags;
  execution_handle = none;
  stdout_offset = pos 0;
  stderr_offset = pos 0;
}

-- The place of an origin among the words of its constraint, by which two are compared.
abbrev pub origin_index : Origin → ℕ
origin_index Origin.from_cron = 0
origin_index Origin.from_fixed_delay = 1
origin_index Origin.from_manual = 2
origin_index Origin.from_one_time = 3
origin_index Origin.from_recovery = 4
origin_index Origin.from_dependency = 5
origin_index Origin.from_replay = 6

abbrev pub same_origin : Origin → Origin → Bool
same_origin a b = origin_index a == origin_index b

-- A row of `process_id` at this time and of this origin.
unfoldable pub is_slot : String → ℤ → Origin → Run → Bool
is_slot process_id scheduled_at origin r =
    same r.process_id process_id && eqb_ℤ r.scheduled_at scheduled_at && same_origin r.origin origin

-- `RunExists`.
unfoldable pub run_exists : String → ℤ → Origin → Store → Bool
unfolding is_slot
run_exists process_id scheduled_at origin s = any (is_slot process_id scheduled_at origin) s.runs

-- `CreateRun`: refused by the primary key, or by UNIQUE (process_id, scheduled_at, origin).
unfoldable pub create_run : CreateRun → Store → Option Store
unfolding run_exists new_run
create_run c s =
    if any (λ r. same r.id c.id) s.runs || run_exists c.process_id c.scheduled_at c.origin s
    then none
    else some (record s { runs = s.runs ++ new_run c ∷ [] })

-- `GetRun`; `none` is pgx.ErrNoRows.
unfoldable pub get_run : String → String → Store → Option Run
get_run id workspace_id s = find (λ r. same r.id id && same r.workspace_id workspace_id) s.runs
