-- ===== src/Worker/Results.antt =====
-- internal/worker/dispatcher.go: `ProcessResult`, and `finishJobAttempt`, `calculateBackoff` and
-- `parseBackoffList`, which it calls.
use croncontrol.Prelude.{
  ℤ, pos, ◌+ℤ◌, ◌-ℤ◌, eqb_ℤ, leb_ℤ, ltb_ℤ, int32, ltb, Bool, true, false, not, Option, none, some,
  List, [], ◌∷◌, String, if◌then◌else◌, ◌&&◌, same, length,
}
use mathlib.Core.Option
use text.Mathlib.Text.{starts_with}
use Prim.Native.String.{len}
use croncontrol.RunState
use croncontrol.JobState
use croncontrol.Store.{
  Bytes, Run, Job, ClaimedJob, to_state, update_run_state, to_job_state, update_job_state,
  finish_job_attempt, find_run, find_job, get_job_with_queue,
}
use croncontrol.World.{Env, M, ◌>>=◌, ◌>>◌, pure, exec, fetch_row, now, panic}
use croncontrol.Executor.Backoff.{minute, at_index, split_commas, trim_space}
use croncontrol.Queue.Finalize.{truncate}

-- `TaskResult`; the streams are not read.
pub record TaskResult : Type 0 where
  pub task_id : String
  pub attempt_id : String
  pub exit_code : Option ℤ
  pub response_code : Option ℤ
  pub response_body : Bytes
  pub duration_ms : ℤ
  pub error : String

abbrev pub code_succeeds : Option ℤ → Bool
code_succeeds none = false
code_succeeds (some code) = leb_ℤ (pos 200) code && ltb_ℤ code (pos 300)

-- `isSuccess`.
unfoldable pub is_success_of : TaskResult → Bool
is_success_of r =
    (elim r.exit_code [ some code ↦ eqb_ℤ code (pos 0) | none ↦ code_succeeds r.response_code ])
    && same r.error ""

-- `len(taskID) > 4 && taskID[:4] == prefix`.
unfoldable pub is_task_of : String → String → Bool
is_task_of prefix task_id = ltb 4 (len task_id) && starts_with task_id prefix

-- `calculateBackoff`; `none` is a panic.
unfoldable pub calculate_worker_backoff : ℤ → ℤ → List ℤ → Option ℤ
calculate_worker_backoff from attempt [] = some (from +ℤ minute)
calculate_worker_backoff from attempt (d ∷ ds) =
    let len = length (d ∷ ds) in
    let idx = attempt -ℤ pos 1 in
    Option.map (λ b. from +ℤ b)
      (at_index (d ∷ ds) (if leb_ℤ (pos len) idx then pos len -ℤ pos 1 else idx))

unfoldable pub parse_worker_parts : (Bytes → Option ℤ) → List Bytes → List ℤ
parse_worker_parts parse_duration [] = []
parse_worker_parts parse_duration (p ∷ ps) =
    let result = parse_worker_parts parse_duration ps in
    elim (parse_duration (trim_space p)) [ none ↦ result | some d ↦ d ∷ result ]

-- `parseBackoffList`.
unfoldable pub parse_worker_backoff_list : (Bytes → Option ℤ) → Bytes → Option Bytes → List ℤ
parse_worker_backoff_list parse_duration default_backoff none =
    parse_worker_parts parse_duration (split_commas default_backoff)
parse_worker_backoff_list parse_duration default_backoff (some text) =
    parse_worker_parts parse_duration (split_commas text)

-- The state in which a run ends.
unfoldable pub run_outcome : Bool → Option Run → RunState.State
run_outcome true row = RunState.State.completed
run_outcome false none = RunState.State.failed
run_outcome false (some r) =
    if RunState.is_state r.state RunState.State.kill_requested
    then RunState.State.killed
    else RunState.State.failed

abbrev pub text_option : String → Option String
text_option e = if same e "" then none else some e

abbrev pub or_default : ℤ → Option ℤ → ℤ
or_default d none = d
or_default d (some n) = n

module _ (env : Env) where
  -- The branch for a run; the answer says that there is no error. An error of the query leaves the
  -- state empty.
  unfoldable pub process_run_result : TaskResult → M Bool
  process_run_result result = do
    row ← fetch_row env (find_run result.task_id)
    t ← now env
    exec env (
        update_run_state result.task_id
          (record (to_state (run_outcome (is_success_of result) row)) {
            finished_at = some t;
            duration_ms = some result.duration_ms;
            exit_code = Option.map int32 result.exit_code;
          }))

  -- `finishJobAttempt`.
  unfoldable pub finish_job_attempt_of : ClaimedJob → TaskResult → M Bool
  finish_job_attempt_of c result = do
    t ← now env
    let (body, cut) = truncate c.queue.max_response_size result.response_body
    exec env (
        finish_job_attempt result.attempt_id (record {
          finished_at = t;
          duration_ms = result.duration_ms;
          response_code = Option.map int32 result.response_code;
          truncated = cut;
          response_body = body;
          original_size = some (pos (length result.response_body));
          error_message = text_option result.error;
        }))

  -- The job ends in a state.
  unfoldable pub end_task : TaskResult → JobState.State → M Bool
  end_task result state = exec env (
      update_job_state result.task_id
        (record (to_job_state state) { duration_ms = some result.duration_ms }))

  unfoldable pub retry_at : TaskResult → ℤ → Option ℤ → M Bool
  retry_at result next_attempt none = panic >> pure false
  retry_at result next_attempt (some next_at) = exec env (
      update_job_state result.task_id (record (to_job_state JobState.State.retrying) {
        attempt = some next_attempt;
        next_attempt_at = some next_at;
        duration_ms = some result.duration_ms;
      }))

  -- The job is tried again, with the number of the next attempt.
  unfoldable pub retry_task : ClaimedJob → TaskResult → M Bool
  unfolding retry_at
  retry_task c result = do
    t ← now env
    let next_attempt = int32 (c.job.attempt +ℤ pos 1)
    retry_at result next_attempt (
        calculate_worker_backoff t next_attempt
          (parse_worker_backoff_list env.parse_duration c.queue.retry_backoff c.job.retry_backoff))

  -- Behind the end of the attempt.
  unfoldable pub settle_task : Job → ClaimedJob → TaskResult → M Bool
  settle_task current c result =
      if JobState.is_state current.state JobState.State.kill_requested && not (is_success_of result)
      then end_task result JobState.State.killed
      else if is_success_of result
      then end_task result JobState.State.completed
      else if ltb_ℤ c.job.attempt (or_default c.queue.max_attempts c.job.max_attempts)
      then retry_task c result
      else end_task result JobState.State.failed

  unfoldable pub finish_and_settle : Job → ClaimedJob → TaskResult → M Bool
  finish_and_settle current c result =
      if same result.attempt_id "" then settle_task current c result else do
        ok ← finish_job_attempt_of c result
        if ok then settle_task current c result else pure false

  unfoldable pub load_and_settle : TaskResult → Job → M Bool
  unfolding finish_and_settle
  load_and_settle result current = do
    loaded ← fetch_row env (get_job_with_queue result.task_id current.workspace_id)
    elim loaded [ none ↦ pure false | some c ↦ finish_and_settle current c result ]

  -- The branch for a job.
  unfoldable pub process_job_result : TaskResult → M Bool
  unfolding load_and_settle
  process_job_result result = do
    row ← fetch_row env (find_job result.task_id)
    elim row [ none ↦ pure false | some current ↦ load_and_settle result current ]

  -- `ProcessResult`.
  unfoldable pub process_result : TaskResult → M Bool
  process_result result =
      if is_task_of "run_" result.task_id
      then process_run_result result
      else if is_task_of "job_" result.task_id
      then process_job_result result
      else pure true
