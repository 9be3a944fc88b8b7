-- ===== src/Executor/Dispatch/Attempt.antt =====
-- internal/executor/orchestrator.go, `dispatch`: a whole attempt of a run whose method blocks, from
-- the transition to `running` to the end of the attempt, where the database does not fail.
use croncontrol.Prelude.{
  ℕ, suc, ◌≤◌, ◌≡◌, refl, ℤ, pos, eqb_ℤ, ltb_ℤ, int32-suc, true, false, Option, none, some, String,
  if◌then◌else◌, Bool-cases, inl, inr, arith, subst, sym,
}
use croncontrol.RunState.{State, is_state}
use croncontrol.Store.{
  Store, Run, Process, to_state, apply_update, snapshot_run_config, create_run_attempt, find_run,
  get_run,
}
use croncontrol.Store.Laws.{Row, get_run-find_run}
use croncontrol.World.{World, Env, ◌>>=◌, done, now, fresh, call, tick}
use croncontrol.World.Hoare.{Hoare, Keeps, IsReliable, fetch_row_reliable}
use croncontrol.Executor.Method.{Handle, StartParams, Result, Method, is_success}
use croncontrol.Executor.Backoff.{parse_backoff_list}
use croncontrol.Executor.Backoff.Delay.{retry_time}
use croncontrol.Executor.Terminal.{Hooks, attempt_exec}
use croncontrol.Executor.Terminal.Frame.{IsFrame}
use croncontrol.Executor.Finalize.Frame.{other_table-Keeps}
use croncontrol.Executor.Finalize.{duration_ms}
use croncontrol.Executor.Finalize.Outcome.{
  change_reliable, update_reliable, completed_row, failed_row, retried_row, finalize_run_result_lem,
}
use croncontrol.Executor.Dispatch.{
  store_running, delete_running, settle_start, after_start, start_attempt, start_run,
}

-- The row of a run while its attempt runs: the first attempt also keeps the configuration.
abbrev pub started_row : Env → Process → ℤ → ℤ → Run → Run
started_row env proc t attempt r =
    let running =
      apply_update (record (to_state State.running) { started_at = some t; attempt = some attempt })
        r in
    record running {
      effective_config =
          if eqb_ℤ attempt (pos 1)
          then some (env.encode_snapshot proc.execution_method proc.method_config proc.runtime)
          else running.effective_config;
    }

-- The parameters of the call.
abbrev pub start_params : Run → Process → StartParams
start_params run proc = record {
  run_id = run.id;
  workspace_id = run.workspace_id;
  method_config = proc.method_config;
}

-- What the attempt `k + 1` makes of the row `r`, which is running.
abbrev pub Settled : Env → Process → Result → ℕ → ℤ → ℤ → Run → Option Run → Type 0
Settled env proc result k t d r after =
    (is_success result ≡ true → after ≡ some (completed_row t d result r))
    × (is_success result ≡ false
        → ltb_ℤ (pos (suc k)) proc.max_attempts ≡ true
        → after
          ≡ some (
              retried_row (pos (suc k))
                (retry_time t k (parse_backoff_list env.parse_duration proc.retry_backoff)) d r))
    × (is_success result ≡ false
        → ltb_ℤ (pos (suc k)) proc.max_attempts ≡ false
        → after ≡ some (failed_row t d result r))

module _ (env : Env) (reliable : IsReliable env) (hooks : Hooks) (run : Run) (proc : Process)
    (frame : (x : Run) → IsFrame env run.id x hooks) where
  snapshot_reliable :
      (attempt : ℤ) (r : Run)
      → Hoare
          (Row run.id r)
          (if eqb_ℤ attempt (pos 1)
            then attempt_exec env (
                snapshot_run_config run.id
                  (env.encode_snapshot proc.execution_method proc.method_config proc.runtime))
            else done)
          (Row run.id (record r {
            effective_config =
                if eqb_ℤ attempt (pos 1)
                then some
                    (env.encode_snapshot proc.execution_method proc.method_config proc.runtime)
                else r.effective_config;
          }))
  unfolding snapshot_run_config
  snapshot_reliable attempt r w p = elim (Bool-cases (eqb_ℤ attempt (pos 1))) [
    | inl e ↦ rw e (change_reliable env reliable run.id _ r (λ x. refl) w p)
    | inr e ↦ rw e p
  ]

  attempt-Keeps :
      (id : String) (attempt t : ℤ) (r : Run)
      → Keeps (Row run.id r) (attempt_exec env (create_run_attempt id run.id attempt t))
  unfolding create_run_attempt find_run
  attempt-Keeps id attempt t r = other_table-Keeps env run.id r _ (λ s s' e. ground arith)

  -- The end of an attempt that was not killed.
  settle_start_lem :
      (method : Method) (attempt_id : String) (k : ℕ) (started : ℤ) (result : Result) (r : Run)
      (w : World)
      → find_run run.id w.store ≡ some r
      → r.workspace_id ≡ run.workspace_id
      → is_state r.state State.kill_requested ≡ false
      → let t = env.clock (suc (suc w.step)) in
        Settled env proc result k t (duration_ms t started) r (
          find_run run.id
            (settle_start env hooks run proc method attempt_id
              (pos (suc k))
              started
              result
              w).1.store)
  unfolding settle_start now
  settle_start_lem method attempt_id k started result r w found ws alive =
      rw (fetch_row_reliable env (get_run run.id run.workspace_id) (tick w) reliable, ◌>>=◌)
        (rw (get_run-find_run run.id run.workspace_id w.store r found ws, alive)
          (finalize_run_result_lem env reliable run.id hooks frame run.workspace_id attempt_id k
            started proc result r (tick (tick w)) found))

  -- From the answer of a method that has run to its end.
  after_start_lem :
      (method : Method) (attempt_id : String) (k : ℕ) (started : ℤ) (handle : Handle)
      (result : Result) (r : Run) (w : World)
      → find_run run.id w.store ≡ some r
      → r.workspace_id ≡ run.workspace_id
      → is_state r.state State.kill_requested ≡ false
      → let t = env.clock (suc (suc w.step)) in
        Settled env proc result k t (duration_ms t started) r (
          find_run run.id
            (after_start env hooks run proc method attempt_id
              (pos (suc k))
              started
              (record { handle = handle; result = some result }, none)
              w).1.store)
  unfolding after_start store_running delete_running
  after_start_lem method attempt_id k started handle result r w found ws alive =
      settle_start_lem method attempt_id k started result r _ found ws alive

  -- The attempt from the transition to `running` on.
  start_attempt_lem :
      (method : Method) (k : ℕ) (handle : Handle) (result : Result) (w : World)
      → ((n : ℕ) (s : Store) (x : Run)
          → find_run run.id s ≡ some x
          → find_run run.id (env.others n s) ≡ some x)
      → ((n : ℕ)
          → method.start n (start_params run proc)
            ≡ (record { handle = handle; result = some result }, none))
      → find_run run.id w.store ≡ some run
      → (t0 : ℤ) × (t : ℤ) × Settled env proc result k t
          (duration_ms t t0)
          (started_row env proc t0 (pos (suc k)) run)
          (find_run run.id (start_attempt env hooks run proc method (pos (suc k)) w).1.store)
  unfolding start_attempt now fresh call apply_update
  start_attempt_lem method k handle result w others answers found =
      rw (answers, start_attempt)
        (
          env.clock w.step,
          _,
          after_start_lem method _ k (env.clock w.step) handle result
              (started_row env proc (env.clock w.step) (pos (suc k)) run) _
              (others _ _ _ (
                attempt-Keeps _ _ _ _ _ (
                  snapshot_reliable (pos (suc k)) _ _
                    (update_reliable env reliable run.id _ run (tick w) found))))
              refl refl,
        )

-- Attempt `k + 1` of a claimed run with a method that runs to its end and answers `result` to the
-- configuration that the process has now, where the database does not fail, and the callback and
-- the other handlers leave the row of the run alone. There are times `t0`, at which it starts, and
-- `t`, at which it ends, such that the row of the run afterwards is the claimed one with
-- `started_at` `t0` and attempt `k + 1`, and with the configuration if `k` is 0, settled at `t`:
-- completed after a success; retrying, due after the delay of this attempt, after a failure below
-- the limit of attempts; failed at the limit.
pub start_run_lem :
    (env : Env) (hooks : Hooks) (run : Run) (proc : Process) (method : Method) (k : ℕ)
    (handle : Handle) (result : Result) (w : World)
    → IsReliable env
    → ((x : Run) → IsFrame env run.id x hooks)
    → ((n : ℕ) (s : Store) (x : Run)
        → find_run run.id s ≡ some x
        → find_run run.id (env.others n s) ≡ some x)
    → ((n : ℕ)
        → method.start n (start_params run proc)
          ≡ (record { handle = handle; result = some result }, none))
    → run.attempt ≡ pos k
    → suc k ≤ 2147483647
    → find_run run.id w.store ≡ some run
    → (t0 : ℤ) × (t : ℤ) × Settled env proc result k t
        (duration_ms t t0)
        (started_row env proc t0 (pos (suc k)) run)
        (find_run run.id (start_run env hooks run proc method w).1.store)
unfolding start_run
start_run_lem env hooks run proc method k handle result w reliable frame others answers e small
      found =
    subst
      (λ a.
        (t0 : ℤ) × (t : ℤ) × Settled env proc result k t (duration_ms t t0)
          (started_row env proc t0 (pos (suc k)) run)
          (find_run run.id (start_attempt env hooks run proc method a w).1.store))
      (sym (int32-suc run.attempt k e small))
      (start_attempt_lem env reliable hooks run proc frame method k handle result w others answers
        found)
