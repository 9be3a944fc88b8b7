-- ===== src/Executor/Finalize/Frame.antt =====
-- internal/executor/async_runs.go, `finalizeRunResult`: the rows of other runs.
use croncontrol.Prelude.{
  ◌≡◌, refl, ◌≢◌, ◌∙◌, ℤ, Option, some, [], ◌∷◌, String, ltb_ℤ, same, Bool-cases, inl, inr,
  Option-cases, arith,
}
use croncontrol.RunState.{State}
use croncontrol.Store.{
  Store, Bytes, Message, Stream, Run, Process, update_run_state, UpdateRunState, apply_update,
  clear_run_execution_handle, finish_run_attempt, append_run_output, find_run, get_run,
}
use croncontrol.Store.Laws.{Row}
use croncontrol.World.{World, Env, done, now, fresh, fetch_row, send, panic, tick, Signal}
use croncontrol.World.Hoare.{Keeps, exec-Keeps, on_some-Keeps, if-Keeps}
use croncontrol.Executor.Method.{Result, is_success}
use croncontrol.Executor.Backoff.{calculate_backoff, parse_backoff_list}
use croncontrol.Executor.Terminal.{Hooks, attempt_exec, handle_terminal}
use croncontrol.Executor.Terminal.Frame.{change-Keeps, IsFrame, handle_terminal-Keeps}
use croncontrol.Executor.Finalize.{
  append_text, finish_attempt, after_terminal, complete_run, retry_run, fail_run, settle_run,
  record_result, finalize_run_result,
}

-- A statement on other tables.
pub other_table-Keeps :
    (env : Env) (j : String) (r : Run) (f : Store → Option Store)
    → ((s s' : Store) → f s ≡ some s' → find_run j s' ≡ find_run j s)
    → Keeps (Row j r) (attempt_exec env f)
other_table-Keeps env j r f h = exec-Keeps env (Row j r) f (λ s s' e p. h s s' e ∙ p)

module _ (env : Env) (j : String) (r : Run) where
  pub append_text-Keeps :
      (run_id : String) (stream : Stream) (text : Bytes)
      → Keeps (Row j r) (append_text env run_id stream text)
  unfolding append_text fresh send append_run_output find_run
  append_text-Keeps run_id stream [] w p = p
  append_text-Keeps run_id stream (c ∷ cs) w p =
      let kept =
        other_table-Keeps env j r
          (append_run_output (env.new_id w.step "out_") run_id stream (c ∷ cs))
          (λ s s' e. ground arith) (tick w) p in
      if-Keeps (Row j r) env.has_log_backend (send (Signal.output_logged run_id stream (c ∷ cs)))
        done (λ w p. p) (λ w p. p) _ kept

  pub finish_attempt-Keeps :
      (id : String) (t d : ℤ) (code : Option ℤ) (m : Option Message)
      → Keeps (Row j r) (finish_attempt env id t d code m)
  unfolding finish_attempt finish_run_attempt find_run
  finish_attempt-Keeps id t d code m w p = elim (Bool-cases (same id "")) [
    | inl e ↦ rw e p
    | inr e ↦
        rw e (
          other_table-Keeps env j r (finish_run_attempt id t d code m) (λ s s' e. ground arith) w p)
  ]

  pub after_terminal-Keeps :
      (hooks : Hooks) (run_id workspace_id : String) (proc : Process) (state : State)
      → IsFrame env j r hooks
      → Keeps (Row j r) (after_terminal env hooks run_id workspace_id proc state)
  unfolding after_terminal fetch_row
  after_terminal-Keeps hooks run_id workspace_id proc state frame w p =
      on_some-Keeps (Row j r) (fetch_row env (get_run run_id workspace_id) w).0
        (λ run. handle_terminal env hooks run proc state)
        (λ run. handle_terminal-Keeps env j r hooks run proc state frame) (tick w) p

module _ (env : Env) (j : String) (r : Run) (run_id : String) (other : j ≢ run_id) where
  update_run_state-Keeps :
      (u : UpdateRunState) → Keeps (Row j r) (attempt_exec env (update_run_state run_id u))
  unfolding update_run_state
  update_run_state-Keeps u = change-Keeps env j r run_id (apply_update u) (λ x. refl) other

  record_result-Keeps :
      (attempt_id : String) (t d : ℤ) (result : Result)
      → Keeps (Row j r) (record_result env run_id attempt_id t d result)
  unfolding record_result clear_run_execution_handle
  record_result-Keeps attempt_id t d result w p =
      change-Keeps env j r run_id _ (λ x. refl) other _
        (append_text-Keeps env j r run_id Stream.stdout result.response_body _ (
          append_text-Keeps env j r run_id Stream.stderr result.stderr _ (
            append_text-Keeps env j r run_id Stream.stdout result.stdout _
              (finish_attempt-Keeps env j r attempt_id t d _ _ w p))))

  settle_run-Keeps :
      (hooks : Hooks) (workspace_id : String) (attempt : ℤ) (proc : Process) (t d : ℤ)
      (result : Result)
      → IsFrame env j r hooks
      → Keeps (Row j r) (settle_run env hooks run_id workspace_id attempt proc t d result)
  unfolding settle_run complete_run retry_run fail_run send panic
  settle_run-Keeps hooks workspace_id attempt proc t d result frame =
      if-Keeps (Row j r) (is_success result) _ _
        (λ w p.
          after_terminal-Keeps env j r hooks run_id workspace_id proc State.completed frame _
            (update_run_state-Keeps _ w p))
        (if-Keeps (Row j r) (ltb_ℤ attempt proc.max_attempts) _ _ retry (λ w p.
          after_terminal-Keeps env j r hooks run_id workspace_id proc State.failed frame _
            (update_run_state-Keeps _ w p)))
    where
      retry : Keeps (Row j r) (retry_run env run_id attempt proc t d)
      retry w p =
          elim (Option-cases (
            calculate_backoff t attempt
              (parse_backoff_list env.parse_duration proc.retry_backoff))) [
                | inl e ↦ rw (e, retry_run) p
                | inr (next_at, e) ↦ rw (e, retry_run) (update_run_state-Keeps _ w p)
              ]

-- Ending an attempt of one run leaves the row of every other run as it is, whatever calls of the
-- database fail, if the callback on terminal runs leaves it so.
pub finalize_run_result_frame :
    (env : Env) (hooks : Hooks) (run_id workspace_id attempt_id : String) (attempt started_at : ℤ)
    (proc : Process) (result : Result) (j : String) (r : Run) (w : World)
    → j ≢ run_id
    → IsFrame env j r hooks
    → find_run j w.store ≡ some r
    → find_run j
        (finalize_run_result env hooks run_id workspace_id attempt_id attempt started_at proc result
          w).1.store
      ≡ some r
unfolding finalize_run_result now
finalize_run_result_frame env hooks run_id workspace_id attempt_id attempt started_at proc result j
      r w other frame p =
    settle_run-Keeps env j r run_id other hooks workspace_id attempt proc _ _ result frame _
      (record_result-Keeps env j r run_id other attempt_id _ _ result (tick w) p)
