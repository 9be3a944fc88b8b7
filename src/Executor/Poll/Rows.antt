-- ===== src/Executor/Poll/Rows.antt =====
-- `ListActiveAsyncRuns` of internal/db/runs.sql.go, and `listActiveAsyncRuns` of
-- internal/executor/async_runs.go, which turns its rows into rows to poll.
use croncontrol.Prelude.{
  ℤ, Bool, true, false, Option, none, some, List, [], ◌∷◌, ltb_ℤ, String, if◌then◌else◌, ◌&&◌, ◌||◌,
  same, find,
}
use croncontrol.RunState.{State, is_state}
use croncontrol.Store.{Run, RunAttempt, Store}

-- A row of the query.
pub record ActiveAsyncRun : Type 0 where
  pub run : Run
  pub attempt_id : String
  pub execution_handle : String
  pub execution_method : String

-- `asyncRunPollRow`.
pub record AsyncRunPollRow : Type 0 where
  pub id : String
  pub workspace_id : String
  pub process_id : String
  pub attempt : ℤ
  pub state : State
  pub started_at : ℤ
  pub attempt_id : String
  pub execution_handle : String
  pub stdout_offset : ℤ
  pub stderr_offset : ℤ
  pub execution_method : String

abbrev is_none : Option ℤ → Bool
is_none none = true
is_none (some t) = false

abbrev open_attempt : String → RunAttempt → Bool
open_attempt run_id a = same a.run_id run_id && is_none a.finished_at

abbrev higher : RunAttempt → Option RunAttempt → RunAttempt
higher a none = a
higher a (some b) = if ltb_ℤ a.attempt_number b.attempt_number then b else a

-- The unfinished attempt of a run with the highest number.
latest_attempt : String → List RunAttempt → Option RunAttempt
latest_attempt run_id [] = none
latest_attempt run_id (a ∷ as_) =
    let rest = latest_attempt run_id as_ in
    if open_attempt run_id a then some (higher a rest) else rest

abbrev attempt_id_of : Option RunAttempt → String
attempt_id_of none = ""
attempt_id_of (some a) = a.id

abbrev polled_state : State → Bool
polled_state s = is_state s State.running || is_state s State.kill_requested

-- The row of a run, if it passes the WHERE clause and joins with a process.
active_row : Store → Run → Option ActiveAsyncRun
unfolding latest_attempt
active_row s r =
    if polled_state r.state
    then elim r.execution_handle [
      | none ↦ none
      | some h ↦ elim (find (λ p. same p.id r.process_id) s.processes) [
        | none ↦ none
        | some p ↦ some (record {
          run = r;
          attempt_id = attempt_id_of (latest_attempt r.id s.run_attempts);
          execution_handle = h;
          execution_method = p.execution_method;
        })
      ]
    ]
    else none

abbrev add : {A : Type 0} → Option A → List A → List A
add none rest = rest
add (some a) rest = a ∷ rest

rows_of : Store → List Run → List ActiveAsyncRun
unfolding active_row
rows_of s [] = []
rows_of s (r ∷ rs) = add (active_row s r) (rows_of s rs)

-- `ListActiveAsyncRuns`.
unfoldable pub list_active_async_runs : Store → List ActiveAsyncRun
unfolding rows_of
list_active_async_runs s = rows_of s s.runs

-- `none` is a row without `started_at`, which is skipped.
abbrev pub poll_row : ActiveAsyncRun → Option AsyncRunPollRow
poll_row a = elim a.run.started_at [
  | none ↦ none
  | some t ↦ some (record {
    id = a.run.id;
    workspace_id = a.run.workspace_id;
    process_id = a.run.process_id;
    attempt = a.run.attempt;
    state = a.run.state;
    started_at = t;
    attempt_id = a.attempt_id;
    execution_handle = a.execution_handle;
    stdout_offset = a.run.stdout_offset;
    stderr_offset = a.run.stderr_offset;
    execution_method = a.execution_method;
  })
]

-- The loop of `listActiveAsyncRuns`.
unfoldable pub poll_row_list : List ActiveAsyncRun → List AsyncRunPollRow
poll_row_list [] = []
poll_row_list (a ∷ rest) = add (poll_row a) (poll_row_list rest)
