-- ===== src/Executor/Dispatch.antt =====
-- internal/executor/orchestrator.go: `dispatch`, which starts a claimed run, and `tick`, which claims
-- runs.
pub mod Overlap
pub mod Attempt
pub mod Beside
use croncontrol.Prelude.{
  ℤ, pos, negsuc, ◌+ℤ◌, eqb_ℤ, int32, ltb, Bool, false, not, Option, none, some, List, [], ◌∷◌,
  ◌++◌, String, if◌then◌else◌, ◌&&◌, same,
}
use croncontrol.RunState.{State, is_state}
use croncontrol.Store.{
  Message, Run, Process, OnOverlap, Runtime, to_state, update_run_state, snapshot_run_config,
  save_run_execution_handle, get_run, get_process, create_run_attempt, count_active_by_process,
  claim_pending_runs, claim_retrying_runs, list_kill_requested_runs, find_run, is_cron,
}
use croncontrol.World.{
  Env, M, ◌>>=◌, ◌>>◌, done, pure, send, Signal, exec, fetch, fetch_row, now, fresh, call,
}
use croncontrol.Executor.Method.{Handle, StartResult, Method, Result, is_success, get}
use croncontrol.Executor.Terminal.{
  Hooks, handle_terminal, attempt_exec, update_state, update_state_failed,
}
use croncontrol.Executor.Finalize.{duration_ms, or_else, exit_code32, finalize_run_result}

-- The map `running`.
abbrev without : String → List (String × Handle) → List (String × Handle)
without id [] = []
without id ((k, h) ∷ rest) = let kept = without id rest in if same k id then kept else (k, h) ∷ kept

unfoldable pub store_running : String → Handle → M (Unit {0})
store_running id h w = (tt, record w { running = (id, h) ∷ without id w.running })

unfoldable pub delete_running : String → M (Unit {0})
delete_running id w = (tt, record w { running = without id w.running })

-- The handle of a method that gives none.
abbrev pub handle_or : String → String → Handle → Handle
handle_or execution_method run_id h =
    if same h.method_name ""
    then record { method_name = execution_method; run_id = run_id; details = "" }
    else h

module _ (env : Env) where
  -- `saveRunExecutionHandle`; the answer says that there is no error.
  unfoldable pub save_handle : String → Handle → M Bool
  save_handle run_id handle = elim (env.encode_handle handle) [
    | none ↦ pure false
    | some text ↦ exec env (save_run_execution_handle run_id text)
  ]

  -- The end of a run that was killed while its method blocked.
  finish_killed_run : Hooks → Run → Process → ℤ → ℤ → Result → M (Unit {0})
  finish_killed_run hooks run proc finished started result = do
    attempt_exec env (
        update_run_state run.id (record (to_state State.killed) {
          finished_at = some finished;
          duration_ms = some (duration_ms finished started);
          exit_code = some (or_else (pos 137) (exit_code32 result));
        }))
    handle_terminal env hooks run proc State.killed

  abbrev pub was_killed : Option Run → Bool
  was_killed none = false
  was_killed (some r) = is_state r.state State.kill_requested

  -- From the result of a blocking method on.
  unfoldable pub settle_start :
      Hooks → Run → Process → Method → String → ℤ → ℤ → Result → M (Unit {0})
  unfolding finish_killed_run
  settle_start hooks run proc method attempt_id attempt started result = do
    finished ← now env
    current ← fetch_row env (get_run run.id run.workspace_id)
    if was_killed current && method.supports_kill && not (is_success result)
        then finish_killed_run hooks run proc finished started result
        else finalize_run_result env hooks run.id run.workspace_id attempt_id attempt started proc
            result

  -- A handle that has to be polled later.
  accept_async : String → Handle → M (Unit {0})
  accept_async run_id handle = do
    ok ← save_handle run_id handle
    if ok then done else update_state_failed env run_id (negsuc 0)

  -- From the answer of `Start` on.
  unfoldable pub after_start :
      Hooks → Run → Process → Method → String → ℤ → ℤ → StartResult × Option String → M (Unit {0})
  unfolding accept_async
  after_start hooks run proc method attempt_id attempt started (answer, some err) = do
    finished ← now env
    attempt_exec env (
        update_run_state run.id (record (to_state State.failed) {
          finished_at = some finished;
          waiting_reason = some (Message.prefixed "start failed: " err);
        }))
  after_start hooks run proc method attempt_id attempt started (answer, none) = do
    store_running run.id (handle_or proc.execution_method run.id answer.handle)
    elim answer.result [
      | none ↦ accept_async run.id (handle_or proc.execution_method run.id answer.handle)
      | some result ↦ settle_start hooks run proc method attempt_id attempt started result
    ]
    delete_running run.id

  -- From the transition to `running` on, for the number of the attempt.
  unfoldable pub start_attempt : Hooks → Run → Process → Method → ℤ → M (Unit {0})
  start_attempt hooks run proc method attempt = do
    started ← now env
    attempt_exec env (
        update_run_state run.id
          (record (to_state State.running) { started_at = some started; attempt = some attempt }))
    if eqb_ℤ attempt (pos 1)
        then attempt_exec env (
            snapshot_run_config run.id
              (env.encode_snapshot proc.execution_method proc.method_config proc.runtime))
        else done
    attempt_id ← fresh env "rat_"
    attempt_exec env (create_run_attempt attempt_id run.id attempt started)
    answer ← call env (λ n. method.start n (record {
      run_id = run.id;
      workspace_id = run.workspace_id;
      method_config = proc.method_config;
    }))
    after_start hooks run proc method attempt_id attempt started answer

  unfoldable pub start_run : Hooks → Run → Process → Method → M (Unit {0})
  start_run hooks run proc method =
      start_attempt hooks run proc method (int32 (run.attempt +ℤ pos 1))

  -- The worker runtime, with and without a dispatcher.
  unfoldable pub dispatch_to_worker : Hooks → Run → Process → M (Unit {0})
  dispatch_to_worker hooks run proc = elim hooks.worker_dispatch [
    | none ↦ attempt_exec env (
        update_run_state run.id (record (to_state State.waiting_for_worker) {
          waiting_reason = some (Message.plain "Waiting for available worker");
        }))
    | some dispatch_worker ↦ do
      err ← dispatch_worker run proc
      elim err [
        | none ↦ done
        | some text ↦ attempt_exec env (
            update_run_state run.id (record (to_state State.waiting_for_worker) {
              waiting_reason = some (Message.prefixed "Worker dispatch failed: " text);
            }))
      ]
  ]

  -- The part of `dispatch` behind the overlap check.
  unfoldable pub route : Hooks → Run → Process → M (Unit {0})
  route hooks run proc = elim proc.runtime [
    | Runtime.worker ↦ dispatch_to_worker hooks run proc
    | Runtime.direct ↦ elim (get proc.execution_method env.registry) [
      | none ↦ update_state_failed env run.id (negsuc 0)
      | some method ↦ start_run hooks run proc method
    ]
  ]

  -- The run is not started: another one is active.
  unfoldable pub overlap : Hooks → Run → Process → M (Unit {0})
  overlap hooks run proc = elim proc.on_overlap [
    | OnOverlap.skip ↦
        update_state env run.id State.skipped >> handle_terminal env hooks run proc State.skipped
    | OnOverlap.queue ↦ update_state env run.id State.queued
  ]

  -- The overlap check, and what follows.
  unfoldable pub check_overlap : Hooks → Run → Process → M (Unit {0})
  check_overlap hooks run proc = do
    active ← fetch env (count_active_by_process proc.id)
    elim active [
      | none ↦ done
      | some n ↦ if ltb 1 n then overlap hooks run proc else route hooks run proc
    ]

  -- `dispatch`.
  unfoldable pub dispatch : Hooks → Run → M (Unit {0})
  dispatch hooks run = do
    found ← fetch_row env (get_process run.process_id run.workspace_id)
    elim found [
      | none ↦ done
      | some proc ↦
          if is_cron proc.schedule_type && not proc.allow_parallel
          then check_overlap hooks run proc
          else route hooks run proc
    ]

  unfoldable pub dispatch_all : Hooks → List Run → M (Unit {0})
  dispatch_all hooks [] = done
  dispatch_all hooks (r ∷ rs) = dispatch hooks r >> dispatch_all hooks rs

  -- A step of the transaction of `tick`, which may fail.
  abbrev begin_or_commit : M Bool
  begin_or_commit = exec env (λ s. some s)

  -- The end of the transaction of `tick`: the goroutines in the order of the claimed rows.
  commit_claim : Hooks → List Run → M (Unit {0})
  commit_claim hooks runs = do
    committed ← begin_or_commit
    if committed then dispatch_all hooks runs else done

  -- The second query of `tick`.
  claim_retrying : Hooks → ℤ → List Run → M (Unit {0})
  claim_retrying hooks t runs = do
    retrying ← fetch env (claim_retrying_runs t 10)
    elim retrying [ none ↦ done | some more ↦ commit_claim hooks (runs ++ more) ]

  -- The first query of `tick`; the database's clock stands still in the transaction.
  claim_pending : Hooks → M (Unit {0})
  claim_pending hooks = do
    t ← now env
    pending ← fetch env (claim_pending_runs t 10)
    elim pending [ none ↦ done | some runs ↦ claim_retrying hooks t runs ]

  -- `tick`.
  unfoldable pub tick_runs : Hooks → M (Unit {0})
  unfolding claim_pending claim_retrying commit_claim
  tick_runs hooks = do begun ← begin_or_commit; if begun then claim_pending hooks else done
