-- ===== src/Executor/Poll.antt =====
-- internal/executor/async_runs.go: polling of the runs that a method executes on its own.
mod Rows
pub mod Killed
pub mod Chunks
unfoldable pub use Rows.*
use croncontrol.Prelude.{
  ℕ, ◌+◌, ℤ, pos, ◌+ℤ◌, eqb_ℤ, int32, Bool, true, false, not, Option, none, some, List, [], ◌∷◌,
  String, if◌then◌else◌, ◌&&◌, ◌||◌, same, length,
}
use mathlib.Core.Option
use croncontrol.RunState.{State, is_state}
use croncontrol.Store.{
  Bytes, Message, Stream, Process, to_state, update_run_state, update_run_offsets,
  clear_run_execution_handle, get_run, get_process, append_run_output,
}
use croncontrol.World.{
  Env, M, ◌>>=◌, ◌>>◌, done, pure, send, Signal, exec, fetch, fetch_row, now, fresh, call,
}
use croncontrol.Executor.Method
use croncontrol.Executor.Method.{Handle, Method, Result, PollCursor, PollResult, RemoteState, get}
use croncontrol.Executor.Terminal.{Hooks, handle_terminal, attempt_exec}
use croncontrol.Executor.Finalize.{
  duration_ms, exit_code32, or_else, finish_attempt, after_terminal, finalize_run_result,
}

abbrev pub is_empty : Bytes → Bool
is_empty [] = true
is_empty (c ∷ cs) = false

-- The offset after a poll: the cursor's, or, where that is 0 and there is a chunk, the old one moved
-- by the length of the chunk.
unfoldable pub next_offset : ℤ → ℤ → Bytes → ℤ
next_offset cursor old chunk =
    if eqb_ℤ cursor (pos 0) && not (is_empty chunk) then old +ℤ pos (length chunk) else cursor

-- `poll.State == "" || poll.State == RemoteRunning`.
abbrev pub is_unfinished : RemoteState → Bool
is_unfinished RemoteState.unset = true
is_unfinished RemoteState.remote_running = true
is_unfinished _ = false

-- The result that a poll amounts to.
abbrev pub poll_result : PollResult → Result
poll_result p = record {
  exit_code = p.exit_code;
  response_code = none;
  stdout = p.stdout_chunk;
  stderr = p.stderr_chunk;
  response_body = p.response_body_chunk;
  error = p.error;
}

-- An error in place of a missing one.
abbrev pub error_or : String → Result → Result
error_or text r = elim r.error [ some e ↦ r | none ↦ record r { error = some text } ]

-- `remote execution failed`, if the poll gives neither an error nor an exit code.
abbrev pub mark_failed : Result → Result
mark_failed r = elim r.exit_code [ some c ↦ r | none ↦ error_or "remote execution failed" r ]

abbrev pub error_text : Option String → Option Message
error_text e = Option.map Message.plain e

-- The default of the method's name.
abbrev pub named : String → Handle → Handle
named execution_method h =
    if same h.method_name "" then record h { method_name = execution_method } else h

module _ (env : Env) where
  -- One chunk of a poll. The answer says that nothing failed; the logging backend gets the chunk
  -- only then.
  append_chunk : String → Stream → Bytes → M Bool
  append_chunk run_id stream [] = pure true
  append_chunk run_id stream (c ∷ cs) = do
    id ← fresh env "out_"
    ok ← exec env (append_run_output id run_id stream (c ∷ cs))
    if ok && env.has_log_backend
        then (send (Signal.output_logged run_id stream (c ∷ cs)) >> pure ok)
        else pure ok

  unfoldable pub finish_killed : Hooks → AsyncRunPollRow → Process → Result → M (Unit {0})
  finish_killed hooks row proc result = do
    finished ← now env
    finish_attempt env row.attempt_id finished (duration_ms finished row.started_at)
        (exit_code32 result) (error_text result.error)
    attempt_exec env (clear_run_execution_handle row.id)
    attempt_exec env (
        update_run_state row.id (record (to_state State.killed) {
          finished_at = some finished;
          duration_ms = some (duration_ms finished row.started_at);
          exit_code = some (or_else (pos 137) (exit_code32 result));
        }))
    after_terminal env hooks row.id row.workspace_id proc State.killed

  -- `finalizeRunResult`, for a row.
  abbrev pub finalize_row : Hooks → AsyncRunPollRow → Process → Result → M (Unit {0})
  finalize_row hooks row proc result =
      finalize_run_result env hooks row.id row.workspace_id row.attempt_id row.attempt
        row.started_at proc result

  -- `finalizeRunKilled`.
  unfoldable pub finalize_run_killed : Hooks → AsyncRunPollRow → Process → Result → M (Unit {0})
  finalize_run_killed hooks row proc result =
      if is_state row.state State.kill_requested
      then finish_killed hooks row proc result
      else finalize_row hooks row proc (error_or "process was killed" result)

  -- The `switch` on the state that the poll reports.
  unfoldable pub finish_poll : Hooks → AsyncRunPollRow → Process → PollResult → M (Unit {0})
  finish_poll hooks row proc p = elim p.state [
    | RemoteState.remote_killed ↦ finalize_run_killed hooks row proc (poll_result p)
    | RemoteState.remote_completed ↦ finalize_row hooks row proc (poll_result p)
    | RemoteState.remote_failed ↦ finalize_row hooks row proc (mark_failed (poll_result p))
    | _ ↦ done
  ]

  -- The chunks of a poll, and the offsets unless a chunk failed.
  unfoldable pub store_chunks : AsyncRunPollRow → PollResult → M (Unit {0})
  unfolding append_chunk
  store_chunks row p = do
    let stdout_offset = next_offset p.cursor.stdout_offset row.stdout_offset p.stdout_chunk
    let stderr_offset = next_offset p.cursor.stderr_offset row.stderr_offset p.stderr_chunk
    ok_stdout ← append_chunk row.id Stream.stdout p.stdout_chunk
    ok_stderr ← append_chunk row.id Stream.stderr p.stderr_chunk
    ok_body ← append_chunk row.id Stream.stdout p.response_body_chunk
    if ok_stdout
          && ok_stderr
          && ok_body
          && (not (eqb_ℤ stdout_offset row.stdout_offset)
              || not (eqb_ℤ stderr_offset row.stderr_offset))
        then attempt_exec env (update_run_offsets row.id stdout_offset stderr_offset)
        else done

  -- `pollAsyncRun`, from the answer of the method on.
  unfoldable pub settle_poll : Hooks → AsyncRunPollRow → PollResult → M (Unit {0})
  settle_poll hooks row p = do
    store_chunks row p
    if is_unfinished p.state then done else do
      found ← fetch_row env (get_process row.process_id row.workspace_id)
      elim found [ none ↦ done | some proc ↦ finish_poll hooks row proc p ]

  poll_with : Hooks → AsyncRunPollRow → Handle → Method → M (Unit {0})
  poll_with hooks row handle method = do
    answer ← call env (λ n.
        method.poll n handle
          (record { stdout_offset = row.stdout_offset; stderr_offset = row.stderr_offset }))
    elim answer.0 [ none ↦ settle_poll hooks row answer.1 | some e ↦ done ]

  -- `pollAsyncRun`.
  unfoldable pub poll_async_run : Hooks → AsyncRunPollRow → M (Unit {0})
  unfolding poll_with
  poll_async_run hooks row = elim (env.decode_handle row.execution_handle) [
    | none ↦ done
    | some h ↦ elim (get (named row.execution_method h).method_name env.registry) [
      | none ↦ done
      | some method ↦ poll_with hooks row (named row.execution_method h) method
    ]
  ]

  unfoldable pub poll_rows : Hooks → List AsyncRunPollRow → M (Unit {0})
  poll_rows hooks [] = done
  poll_rows hooks (row ∷ rows) = poll_async_run hooks row >> poll_rows hooks rows

  -- `processAsyncRuns`: the goroutines in the order of the rows.
  unfoldable pub process_async_runs : Hooks → M (Unit {0})
  process_async_runs hooks = do
    rows ← fetch env list_active_async_runs
    elim rows [ none ↦ done | some rs ↦ poll_rows hooks (poll_row_list rs) ]
