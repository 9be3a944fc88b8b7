-- ===== src/Executor/Finalize.antt =====
-- internal/executor/async_runs.go: `finalizeRunResult`, which ends an attempt of a run.
pub mod Frame
pub mod Outcome
use croncontrol.Prelude.{
  ℤ, negsuc, ◌-ℤ◌, ltb_ℤ, quot, int32, Option, none, some, [], ◌∷◌, ◌++◌, String, if◌then◌else◌,
  same, ltb, length, take,
}
use mathlib.Core.Option
use croncontrol.RunState.{State}
use croncontrol.Store.{
  Bytes, Message, Stream, Process, to_state, update_run_state, clear_run_execution_handle, get_run,
  finish_run_attempt, append_run_output,
}
use croncontrol.World.{Env, M, ◌>>=◌, ◌>>◌, done, panic, send, Signal, fetch_row, now, fresh}
use croncontrol.Executor.Method.{Result, is_success}
use croncontrol.Executor.Backoff.{calculate_backoff, parse_backoff_list}
use croncontrol.Executor.Terminal.{Hooks, handle_terminal, attempt_exec}

-- At most 200 bytes of a text, and `...` where it is cut.
unfoldable pub cut : Bytes → Bytes
cut s = if ltb 200 (length s) then take 200 s ++ b'.' ∷ b'.' ∷ b'.' ∷ [] else s

abbrev unless_empty : Bytes → Option Bytes
unless_empty [] = none
unless_empty (c ∷ cs) = some (cut (c ∷ cs))

-- `errMsg`, where there is no error.
abbrev failure_message : Result → Message
failure_message r = elim r.response_code [
  | some code ↦ Message.http_status code (unless_empty r.response_body)
  | none ↦ elim r.exit_code [
    | some code ↦ Message.exit_status code (unless_empty r.stderr)
    | none ↦ Message.plain "execution failed (unknown reason)"
  ]
]

unfoldable pub error_message : Result → Option Message
error_message r = elim r.error [
  | some text ↦ some (Message.plain text)
  | none ↦ if is_success r then none else some (failure_message r)
]

-- `durationMs`.
abbrev pub duration_ms : ℤ → ℤ → ℤ
duration_ms finished started = quot (finished -ℤ started) 1000000

-- The exit code as the table keeps it.
abbrev pub exit_code32 : Result → Option ℤ
exit_code32 r = Option.map int32 r.exit_code

abbrev pub or_else : ℤ → Option ℤ → ℤ
or_else d none = d
or_else d (some a) = a

module _ (env : Env) where
  -- One text of a result: a row of output, and a write of the logging backend.
  unfoldable pub append_text : String → Stream → Bytes → M (Unit {0})
  append_text run_id stream [] = done
  append_text run_id stream (c ∷ cs) = do
    id ← fresh env "out_"
    attempt_exec env (append_run_output id run_id stream (c ∷ cs))
    if env.has_log_backend then send (Signal.output_logged run_id stream (c ∷ cs)) else done

  -- `FinishRunAttempt`, if there is an attempt.
  unfoldable pub finish_attempt : String → ℤ → ℤ → Option ℤ → Option Message → M (Unit {0})
  finish_attempt attempt_id finished duration exit_code message =
      if same attempt_id ""
      then done
      else attempt_exec env (finish_run_attempt attempt_id finished duration exit_code message)

  -- The run is read again, and `handleTerminal` is called if that succeeds.
  unfoldable pub after_terminal : Hooks → String → String → Process → State → M (Unit {0})
  after_terminal hooks run_id workspace_id proc state = do
    row ← fetch_row env (get_run run_id workspace_id)
    elim row [ none ↦ done | some run ↦ handle_terminal env hooks run proc state ]

  complete_run : Hooks → String → String → Process → ℤ → ℤ → Result → M (Unit {0})
  complete_run hooks run_id workspace_id proc finished duration result = do
    attempt_exec env (
        update_run_state run_id (record (to_state State.completed) {
          finished_at = some finished;
          duration_ms = some duration;
          exit_code = exit_code32 result;
        }))
    send Signal.run_completed
    after_terminal hooks run_id workspace_id proc State.completed

  retry_run : String → ℤ → Process → ℤ → ℤ → M (Unit {0})
  retry_run run_id attempt proc finished duration =
      elim (calculate_backoff finished attempt
        (parse_backoff_list env.parse_duration proc.retry_backoff)) [
          | none ↦ panic
          | some next_at ↦ attempt_exec env (
              update_run_state run_id (record (to_state State.retrying) {
                attempt = some attempt;
                next_attempt_at = some next_at;
                duration_ms = some duration;
              }))
        ]

  fail_run : Hooks → String → String → Process → ℤ → ℤ → Result → M (Unit {0})
  fail_run hooks run_id workspace_id proc finished duration result = do
    attempt_exec env (
        update_run_state run_id (record (to_state State.failed) {
          finished_at = some finished;
          duration_ms = some duration;
          exit_code = some (or_else (negsuc 0) (exit_code32 result));
        }))
    send Signal.run_failed
    after_terminal hooks run_id workspace_id proc State.failed

  -- The three ends of `finalizeRunResult`.
  settle_run : Hooks → String → String → ℤ → Process → ℤ → ℤ → Result → M (Unit {0})
  settle_run hooks run_id workspace_id attempt proc finished duration result =
      if is_success result
      then complete_run hooks run_id workspace_id proc finished duration result
      else if ltb_ℤ attempt proc.max_attempts
      then retry_run run_id attempt proc finished duration
      else fail_run hooks run_id workspace_id proc finished duration result

  -- What `finalizeRunResult` writes before it settles the run.
  record_result : String → String → ℤ → ℤ → Result → M (Unit {0})
  record_result run_id attempt_id finished duration result = do
    finish_attempt attempt_id finished duration (exit_code32 result) (error_message result)
    append_text run_id Stream.stdout result.stdout
    append_text run_id Stream.stderr result.stderr
    append_text run_id Stream.stdout result.response_body
    attempt_exec env (clear_run_execution_handle run_id)

  -- `finalizeRunResult`.
  unfoldable pub finalize_run_result :
      Hooks → String → String → String → ℤ → ℤ → Process → Result → M (Unit {0})
  unfolding settle_run complete_run retry_run fail_run record_result
  finalize_run_result hooks run_id workspace_id attempt_id attempt started_at proc result = do
    finished ← now env
    record_result run_id attempt_id finished (duration_ms finished started_at) result
    settle_run hooks run_id workspace_id attempt proc finished (duration_ms finished started_at)
        result
