-- ===== src/Store/Lists.antt =====
-- internal/db/runs.sql.go: the queries that list and count runs.
use croncontrol.Prelude.{
  ℕ, ℤ, Bool, false, Option, none, some, List, [], ◌∷◌, String, if◌then◌else◌, ◌&&◌, ◌||◌, same,
  keep, count, take, update_where, leb_ℤ, ltb_ℤ,
}
use croncontrol.RunState.{State, is_state}
use croncontrol.Store.Tables.{Run, Store}
use croncontrol.Store.Processes.{in_active_workspace}

-- Inserts before the first row with a larger key.
unfoldable pub insert_by : (Run → ℤ) → Run → List Run → List Run
insert_by key r [] = r ∷ []
insert_by key r (x ∷ xs) =
    let later = x ∷ insert_by key r xs in if ltb_ℤ (key r) (key x) then r ∷ x ∷ xs else later

-- `ORDER BY key`; rows with one key keep their order, which the database leaves open.
unfoldable pub order_by : (Run → ℤ) → List Run → List Run
unfolding insert_by
order_by key [] = []
order_by key (r ∷ rs) = insert_by key r (order_by key rs)

abbrev pub due : ℤ → Option ℤ → Bool
due now none = false
due now (some t) = leb_ℤ t now

abbrev pub or_zero : Option ℤ → ℤ
or_zero none = ℤ.pos 0
or_zero (some t) = t

-- The WHERE clause of `ClaimPendingRuns`, at the database's clock.
unfoldable pub is_claimable : ℤ → Store → Run → Bool
unfolding in_active_workspace
is_claimable now s r =
    (is_state r.state State.pending || is_state r.state State.queued)
    && leb_ℤ r.scheduled_at now
    && in_active_workspace r.workspace_id s

-- `ClaimPendingRuns`: the rows are locked until the transaction ends, and not changed.
unfoldable pub claim_pending_runs : ℤ → ℕ → Store → List Run
unfolding is_claimable order_by
claim_pending_runs now limit s =
    take limit (order_by (λ r. r.scheduled_at) (keep (is_claimable now s) s.runs))

-- The WHERE clause of `ClaimRetryingRuns`.
unfoldable pub is_retryable : ℤ → Store → Run → Bool
unfolding in_active_workspace
is_retryable now s r =
    is_state r.state State.retrying
    && due now r.next_attempt_at
    && in_active_workspace r.workspace_id s

-- `ClaimRetryingRuns`.
unfoldable pub claim_retrying_runs : ℤ → ℕ → Store → List Run
unfolding is_retryable order_by
claim_retrying_runs now limit s =
    take limit (order_by (λ r. or_zero r.next_attempt_at) (keep (is_retryable now s) s.runs))

-- `state IN ('running', 'retrying', 'waiting_for_worker')`.
unfoldable pub counts_as_active : State → Bool
counts_as_active s =
    is_state s State.running || is_state s State.retrying || is_state s State.waiting_for_worker

-- `CountActiveByProcess`.
unfoldable pub count_active_by_process : String → Store → ℕ
unfolding counts_as_active
count_active_by_process process_id s =
    count (λ r. same r.process_id process_id && counts_as_active r.state) s.runs

-- `ListRunningRuns`, without the columns that it joins from the process. The join drops no row, since
-- `process_id` is a foreign key.
unfoldable pub list_running_runs : Store → List Run
list_running_runs s = keep (λ r. is_state r.state State.running) s.runs

-- `ListKillRequestedRuns`.
unfoldable pub list_kill_requested_runs : Store → List Run
list_kill_requested_runs s = keep (λ r. is_state r.state State.kill_requested) s.runs

-- The later of two rows, by the time for which they are scheduled.
abbrev pub later_run : Run → Option Run → Run
later_run r none = r
later_run r (some x) = if ltb_ℤ r.scheduled_at x.scheduled_at then x else r

latest : List Run → Option Run
latest [] = none
latest (r ∷ rs) = some (later_run r (latest rs))

-- `GetLastRunByProcess`; `none` is pgx.ErrNoRows.
unfoldable pub get_last_run_by_process : String → Store → Option Run
unfolding latest
get_last_run_by_process process_id s = latest (keep (λ r. same r.process_id process_id) s.runs)

-- `BulkCancelRuns`, `BulkPauseRuns` and `BulkResumeRuns` set a state where they find one.
abbrev pub bulk_update : State → State → String → String → Store → Store
bulk_update from to process_id workspace_id s = record s {
  runs =
      update_where
        (λ r.
          same r.process_id process_id && same r.workspace_id workspace_id && is_state r.state from)
        (λ r. record r { state = to }) s.runs;
}

unfoldable pub bulk_cancel_runs : String → String → Store → Option Store
bulk_cancel_runs process_id workspace_id s =
    some (bulk_update State.pending State.cancelled process_id workspace_id s)

unfoldable pub bulk_pause_runs : String → String → Store → Option Store
bulk_pause_runs process_id workspace_id s =
    some (bulk_update State.pending State.paused process_id workspace_id s)

unfoldable pub bulk_resume_runs : String → String → Store → Option Store
bulk_resume_runs process_id workspace_id s =
    some (bulk_update State.paused State.pending process_id workspace_id s)
