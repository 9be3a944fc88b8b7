-- ===== src/Executor/Poll/Killed.antt =====
-- internal/executor/async_runs.go: the row of a run whose remote execution has ended, where the
-- database does not fail.
use croncontrol.Prelude.{
  ℕ, suc, ◌≡◌, ◌≢◌, refl, ap, ◌∙◌, ℤ, pos, negsuc, eqb_ℤ, ltb_ℤ, true, false, none, some, String,
  Option-cases, inl, inr, arith,
}
use croncontrol.RunState.{State, is_state}
use croncontrol.Store.{Run, Process, apply_update, find_run, clear_run_execution_handle}
use croncontrol.World.{World, Env, now, tick}
use croncontrol.World.Hoare.{IsReliable}
use croncontrol.Executor.Method.{Result, is_success}
use croncontrol.Executor.Backoff.{parse_backoff_list}
use croncontrol.Executor.Backoff.Delay.{retry_time}
use croncontrol.Executor.Terminal.{Hooks}
use croncontrol.Executor.Terminal.Frame.{IsFrame}
use croncontrol.Executor.Finalize.{duration_ms, exit_code32, or_else}
use croncontrol.Executor.Finalize.Frame.{finish_attempt-Keeps, after_terminal-Keeps}
use croncontrol.Executor.Finalize.Outcome.{
  cleared, ended, completed_row, retried_row, failed_row, change_reliable, update_reliable,
  finalize_run_result_lem,
}
use croncontrol.Executor.Dispatch.Attempt.{Settled}
use croncontrol.Executor.Poll.{
  AsyncRunPollRow, finish_killed, finalize_run_killed, finalize_row, error_or,
}

-- The row of a run that was killed on request.
abbrev pub killed_row : ℤ → ℤ → Result → Run → Run
killed_row finished duration result r =
    ended State.killed (some finished) duration (some (or_else (pos 137) (exit_code32 result))) r

-- A result without an answer of a server, with an error in place of a missing one, is a success
-- exactly where the exit code is 0.
error_or_succeeds :
    (text : String) (result : Result)
    → result.exit_code ≡ some (pos 0)
    → is_success (error_or text result) ≡ true
unfolding is_success
error_or_succeeds text result e = elim (Option-cases result.error) [
  | inl n ↦ rw (n, e) refl
  | inr (x, n) ↦ rw (n, e) refl
]

nonzero : (c : ℤ) → c ≢ pos 0 → eqb_ℤ c (pos 0) ≡ false
nonzero c ne = ground (arith, ne)

error_or_fails :
    (text : String) (result : Result)
    → result.exit_code ≢ some (pos 0)
    → result.response_code ≡ none
    → is_success (error_or text result) ≡ false
unfolding is_success
error_or_fails text result ne none_given = elim (Option-cases result.error) [
  | inl n ↦ elim (Option-cases result.exit_code) [
    | inl e ↦ rw (n, e, none_given) refl
    | inr (c, e) ↦ rw (n, e) (nonzero c (λ q. ne (e ∙ ap some q)))
  ]
  | inr (x, n) ↦ elim (Option-cases result.exit_code) [
    | inl e ↦ rw (n, e, none_given) refl
    | inr (c, e) ↦ rw (n, e) (nonzero c (λ q. ne (e ∙ ap some q)))
  ]
]

exit_code32-error_or :
    (text : String) (result : Result) → exit_code32 (error_or text result) ≡ exit_code32 result
exit_code32-error_or text result = elim (Option-cases result.error) [
  | inl n ↦ rw n refl
  | inr (x, n) ↦ rw n refl
]

module _ (env : Env) (hooks : Hooks) (row : AsyncRunPollRow) (proc : Process) (result : Result)
    (r : Run) (w : World) (reliable : IsReliable env)
    (frame : (x : Run) → IsFrame env row.id x hooks)
    (found : find_run row.id w.store ≡ some r) where
  killed_on_request :
      find_run row.id (finish_killed env hooks row proc result w).1.store
      ≡ some
          (killed_row (env.clock w.step) (duration_ms (env.clock w.step) row.started_at) result r)
  unfolding finish_killed now clear_run_execution_handle apply_update
  killed_on_request =
      after_terminal-Keeps env row.id _ hooks row.id row.workspace_id proc State.killed (frame _) _
        (update_reliable env reliable row.id _ (cleared r) _ (
          change_reliable env reliable row.id cleared r (λ x. refl) _
            (finish_attempt-Keeps env row.id r row.attempt_id _ _ _ _ (tick w) found)))

  -- The end of an attempt that was killed otherwise.
  ends :
      (k : ℕ)
      → row.attempt ≡ pos (suc k)
      → let t = env.clock w.step in
        Settled env proc
          (error_or "process was killed" result)
          k
          t
          (duration_ms t row.started_at)
          r
          (find_run row.id
            (finalize_row env hooks row proc (error_or "process was killed" result) w).1.store)
  ends k at = rw at (
      finalize_run_result_lem env reliable row.id hooks frame row.workspace_id row.attempt_id k
        row.started_at proc (error_or "process was killed" result) r w found)

  -- A remote execution of attempt `k + 1` that is reported as killed, without a response code,
  -- where the database does not fail and the callback leaves the row alone; `t` is the time that
  -- the clock reads. If the run was in the state `kill_requested` when its row was read, it is
  -- killed, with the time of the end, the duration, and exit code 137 where the method gives none.
  -- In any other state, and whatever error the method gives, the exit code 0 leaves it completed;
  -- any other exit code, or none, leaves it retrying below the limit of attempts, due after the
  -- delay of this attempt, and failed at the limit.
  pub finalize_run_killed_lem :
      (k : ℕ)
      → row.attempt ≡ pos (suc k)
      → result.response_code ≡ none
      → let t = env.clock w.step in
        let d = duration_ms t row.started_at in
        let after = find_run row.id (finalize_run_killed env hooks row proc result w).1.store in
        (is_state row.state State.kill_requested ≡ true → after ≡ some (killed_row t d result r))
        × (is_state row.state State.kill_requested ≡ false
            → (result.exit_code ≡ some (pos 0) → after ≡ some (completed_row t d result r))
              × (result.exit_code ≢ some (pos 0)
                  → ltb_ℤ (pos (suc k)) proc.max_attempts ≡ true
                  → after
                    ≡ some (
                        retried_row
                          (pos (suc k))
                          (retry_time t k
                            (parse_backoff_list env.parse_duration proc.retry_backoff))
                          d
                          r))
              × (result.exit_code ≢ some (pos 0)
                  → ltb_ℤ (pos (suc k)) proc.max_attempts ≡ false
                  → after ≡ some (failed_row t d result r)))
  unfolding finalize_run_killed
  finalize_run_killed_lem k at no_answer = (
    λ e. rw (e, finalize_run_killed) killed_on_request,
    λ e.
        rw (e, finalize_run_killed)
          (
            λ zero.
                (ends k at).0 (error_or_succeeds text result zero)
                ∙ ap (λ c. some (ended State.completed (some t) d c r))
                    (exit_code32-error_or text result),
            λ other below. (ends k at).1 (error_or_fails text result other no_answer) below,
            λ other limit.
                (ends k at).2 (error_or_fails text result other no_answer) limit
                ∙ ap (λ c. some (ended State.failed (some t) d (some (or_else (negsuc 0) c)) r))
                    (exit_code32-error_or text result),
          ),
  )
    where
      text : String
      text = "process was killed"

      t : ℤ
      t = env.clock w.step

      d : ℤ
      d = duration_ms t row.started_at
