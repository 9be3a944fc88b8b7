-- ===== src/Worker/Status.antt =====
-- internal/worker/dispatcher.go: heartbeats, and the check for workers whose heartbeat is late.
use croncontrol.Prelude.{
  ℤ, pos, ◌+ℤ◌, leb_ℤ, Bool, Option, none, some, List, [], ◌∷◌, String, if◌then◌else◌, ◌&&◌,
  update_where,
}
use croncontrol.RunState.{State, is_state}
use croncontrol.Store.{
  Store, Run, Worker, WorkerStatus, is_value, list_stale_workers, increment_worker_failures,
  set_worker_status, update_worker_heartbeat,
}
use croncontrol.World.{Env, M, ◌>>=◌, ◌>>◌, done, exec, fetch, now}
use croncontrol.Executor.Terminal.{attempt_exec}

-- A run that waits for the worker.
abbrev pub waits_for : String → Run → Bool
waits_for worker_id r = is_value worker_id r.worker_id && is_state r.state State.waiting_for_worker

abbrev pub unassigned : Run → Run
unassigned r = record r { state = State.pending; worker_id = none; waiting_reason = none }

-- The statement of `reassignWorkerRuns`.
unfoldable pub reassign_worker_runs : String → Store → Option Store
reassign_worker_runs worker_id s =
    some (record s { runs = update_where (waits_for worker_id) unassigned s.runs })

-- `newStatus`, for the failures that were read.
unfoldable pub new_status : ℤ → WorkerStatus
new_status consecutive_failures =
    if leb_ℤ (pos 5) (consecutive_failures +ℤ pos 1)
    then WorkerStatus.unhealthy
    else WorkerStatus.offline

module _ (env : Env) where
  -- `ProcessHeartbeat`; the answer says that there is no error. `none` stands for capabilities that
  -- are not given.
  unfoldable pub process_heartbeat : String → Option String → String → M Bool
  process_heartbeat worker_id capabilities version = do
    t ← now env
    exec env (update_worker_heartbeat worker_id t capabilities version)

  unfoldable pub mark_stale : Worker → M (Unit {0})
  mark_stale w = do
    attempt_exec env (increment_worker_failures w.id)
    attempt_exec env (set_worker_status w.id (new_status w.consecutive_failures))
    attempt_exec env (reassign_worker_runs w.id)

  unfoldable pub mark_all_stale : List Worker → M (Unit {0})
  mark_all_stale [] = done
  mark_all_stale (w ∷ ws) = mark_stale w >> mark_all_stale ws

  -- `checkStaleWorkers`; the database reads its clock in the query.
  unfoldable pub check_stale_workers : M (Unit {0})
  check_stale_workers = do
    t ← now env
    stale ← fetch env (list_stale_workers t)
    elim stale [ none ↦ done | some ws ↦ mark_all_stale ws ]
