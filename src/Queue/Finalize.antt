-- ===== src/Queue/Finalize.antt =====
-- `finalizeJobResult` of internal/queue/async_jobs.go, and `failJob`, `calculateBackoff` and
-- `getBackoffListFromString` of internal/queue/processor.go: the end of an attempt of a job.
use croncontrol.Prelude.{
  ℤ, pos, negsuc, ◌+ℤ◌, ◌-ℤ◌, leb_ℤ, ltb_ℤ, int32, Bool, true, false, Option, none, some, List, [],
  ◌∷◌, String, if◌then◌else◌, ◌&&◌, same, ltb, length, take,
}
use mathlib.Core.Option
use croncontrol.JobState.{State, is_state}
use croncontrol.Store.{
  Bytes, to_job_state, update_job_state, clear_job_execution_handle, finish_job_attempt,
}
use croncontrol.World.{Env, M, ◌>>=◌, ◌>>◌, done, panic, send, Signal, now}
use croncontrol.Executor.Method.{Result, is_success}
use croncontrol.Executor.Backoff.{minute, at_index, split_commas, trim_space}
use croncontrol.Executor.Finalize.{duration_ms}
use croncontrol.Executor.Terminal.{attempt_exec}

-- `calculateBackoff`; `none` is a panic.
unfoldable pub calculate_job_backoff : ℤ → ℤ → List ℤ → Option ℤ
calculate_job_backoff from attempt [] = some (from +ℤ minute)
calculate_job_backoff from attempt (d ∷ ds) =
    let len = length (d ∷ ds) in
    let idx = attempt -ℤ pos 1 in
    Option.map (λ b. from +ℤ b)
      (at_index (d ∷ ds) (if leb_ℤ (pos len) idx then pos len -ℤ pos 1 else idx))

-- The loop of `getBackoffListFromString`.
unfoldable pub parse_job_parts : (Bytes → Option ℤ) → List Bytes → List ℤ
parse_job_parts parse_duration [] = []
parse_job_parts parse_duration (p ∷ ps) =
    let result = parse_job_parts parse_duration ps in
    elim (parse_duration (trim_space p)) [ none ↦ result | some d ↦ d ∷ result ]

-- `getBackoffListFromString`.
unfoldable pub get_backoff_list_from_string : (Bytes → Option ℤ) → Bytes → List ℤ
get_backoff_list_from_string parse_duration text =
    parse_job_parts parse_duration (split_commas text)

-- The body that is kept, and whether it was cut.
unfoldable pub truncate : ℤ → Bytes → Bytes × Bool
truncate (pos max) body =
    if ltb 0 max && ltb max (length body) then (take max body, true) else (body, false)
truncate (negsuc n) body = (body, false)

abbrev pub text_or_empty : Option String → String
text_or_empty none = ""
text_or_empty (some e) = e

module _ (env : Env) where
  -- `failJob`.
  unfoldable pub fail_job : String → ℤ → M (Unit {0})
  fail_job job_id duration =
      attempt_exec env (
        update_job_state job_id
          (record (to_job_state State.failed) { duration_ms = some duration }))

  -- `FinishJobAttempt`, if there is an attempt.
  unfoldable pub finish_attempt_of_job : String → ℤ → ℤ → ℤ → Result → M (Unit {0})
  finish_attempt_of_job attempt_id finished duration max_response_size result =
      let (body, cut) = truncate max_response_size result.response_body in
      if same attempt_id ""
      then done
      else attempt_exec env (
          finish_job_attempt attempt_id (record {
            finished_at = finished;
            duration_ms = duration;
            response_code = Option.map int32 result.response_code;
            truncated = cut;
            response_body = body;
            original_size = none;
            error_message = result.error;
          }))

  -- `WriteJobAttempt`, if there is a logging backend.
  unfoldable pub log_attempt : String → ℤ → ℤ → ℤ → ℤ → ℤ → Result → M (Unit {0})
  log_attempt job_id attempt started_at finished duration max_response_size result =
      if env.has_log_backend
      then send (
          Signal.job_attempt_logged job_id (record {
            attempt_number = attempt;
            started_at = started_at;
            finished_at = finished;
            duration_ms = duration;
            response_code = Option.map int32 result.response_code;
            response_body = (truncate max_response_size result.response_body).0;
            error_message = text_or_empty result.error;
          }))
      else done

  -- What `finalizeJobResult` writes before it settles the job.
  unfoldable pub record_job_result : String → String → ℤ → ℤ → ℤ → ℤ → ℤ → Result → M (Unit {0})
  record_job_result job_id attempt_id attempt started_at finished duration max_response_size
        result =
      do
        finish_attempt_of_job attempt_id finished duration max_response_size result
        log_attempt job_id attempt started_at finished duration max_response_size result
        attempt_exec env (clear_job_execution_handle job_id)

  -- A job that is tried again.
  unfoldable pub retry_job : String → ℤ → Bytes → ℤ → M (Unit {0})
  retry_job job_id attempt retry_backoff finished =
      elim (calculate_job_backoff finished attempt
        (get_backoff_list_from_string env.parse_duration retry_backoff)) [
          | none ↦ panic
          | some next_at ↦ attempt_exec env (
              update_job_state job_id (record (to_job_state State.retrying) {
                attempt = some attempt;
                next_attempt_at = some next_at;
              }))
        ]

  -- The job ends in a state, with a duration.
  unfoldable pub end_job : String → State → ℤ → M (Unit {0})
  end_job job_id state duration =
      attempt_exec env
        (update_job_state job_id (record (to_job_state state) { duration_ms = some duration }))

  -- The end of an attempt that is not taken for killed.
  unfoldable pub settle_job : String → ℤ → ℤ → Bytes → ℤ → ℤ → Result → M (Unit {0})
  settle_job job_id attempt max_attempts retry_backoff finished duration result =
      if is_success result
      then end_job job_id State.completed duration
      else if ltb_ℤ attempt max_attempts
      then retry_job job_id attempt retry_backoff finished
      else fail_job job_id duration

  -- `finalizeJobResult`.
  unfoldable pub finalize_job_result :
      String → String → ℤ → State → ℤ → ℤ → Bytes → ℤ → Result → Bool → M (Unit {0})
  finalize_job_result job_id attempt_id attempt current_state started_at max_attempts retry_backoff
        max_response_size result was_killed =
      do
        finished ← now env
        record_job_result job_id attempt_id attempt started_at finished
            (duration_ms finished started_at) max_response_size result
        if was_killed && is_state current_state State.kill_requested
            then end_job job_id State.killed (duration_ms finished started_at)
            else settle_job job_id attempt max_attempts retry_backoff finished
                (duration_ms finished started_at) result
