-- ===== src/Queue/Outcome.antt =====
-- internal/queue/async_jobs.go, `finalizeJobResult`: the row of the job afterwards, where the
-- database does not fail.
use croncontrol.Prelude.{
  ℕ, suc, ◌≡◌, refl, ap, ◌∙◌, ℤ, pos, ltb_ℤ, Bool, true, false, ◌&&◌, Option, none, some, List, [],
  ◌∷◌, String, Bool-cases, inl, inr, same, arith,
}
use croncontrol.JobState.{State, is_state}
use croncontrol.Store.{
  Bytes, Job, UpdateJobState, apply_job_update, update_job, update_job_state,
  clear_job_execution_handle, finish_job_attempt, update_attempt, find_job,
}
use croncontrol.Store.JobLaws.{JobRow, KeepsJobId, find_job-update_job}
use croncontrol.World.{World, Env, now, tick, send}
use croncontrol.World.Hoare.{Hoare, Keeps, IsReliable, exec_reliable, exec-Keeps}
use croncontrol.Executor.Method.{Result, is_success}
use croncontrol.Executor.Backoff.{calculate_backoff, backoff_index, parse_parts, parse_backoff_list}
use croncontrol.Executor.Backoff.Delay.{retry_time, calculate_backoff-suc}
use croncontrol.Executor.Finalize.{duration_ms}
use croncontrol.Executor.Terminal.{attempt_exec}
use croncontrol.Queue.Finalize.{
  calculate_job_backoff, parse_job_parts, get_backoff_list_from_string, fail_job,
  finish_attempt_of_job, log_attempt, record_job_result, retry_job, end_job, settle_job,
  finalize_job_result,
}

-- The copy of the delays agrees with the executor's.
pub calculate_job_backoff-calculate_backoff :
    (from attempt : ℤ) (ds : List ℤ)
    → calculate_job_backoff from attempt ds ≡ calculate_backoff from attempt ds
unfolding calculate_job_backoff calculate_backoff backoff_index
calculate_job_backoff-calculate_backoff from attempt [] = refl
calculate_job_backoff-calculate_backoff from attempt (d ∷ ds) = ground arith

parse_job_parts-parse_parts :
    (parse_duration : Bytes → Option ℤ) (parts : List Bytes)
    → parse_job_parts parse_duration parts ≡ parse_parts parse_duration parts
unfolding parse_job_parts parse_parts
parse_job_parts-parse_parts parse_duration [] = refl
parse_job_parts-parse_parts parse_duration (p ∷ ps) =
    ground (arith, parse_job_parts-parse_parts parse_duration ps)

pub get_backoff_list-parse_backoff_list :
    (parse_duration : Bytes → Option ℤ) (text : Bytes)
    → get_backoff_list_from_string parse_duration text
      ≡ parse_backoff_list parse_duration (some text)
unfolding get_backoff_list_from_string parse_backoff_list
get_backoff_list-parse_backoff_list parse_duration text =
    parse_job_parts-parse_parts parse_duration _

calculate_job_backoff-suc :
    (parse_duration : Bytes → Option ℤ) (t : ℤ) (k : ℕ) (text : Bytes)
    → calculate_job_backoff t (pos (suc k)) (get_backoff_list_from_string parse_duration text)
      ≡ some (retry_time t k (parse_backoff_list parse_duration (some text)))
calculate_job_backoff-suc parse_duration t k text =
    calculate_job_backoff-calculate_backoff t (pos (suc k)) _
    ∙ ap (calculate_backoff t (pos (suc k)))
        (get_backoff_list-parse_backoff_list parse_duration text)
    ∙ calculate_backoff-suc t k (parse_backoff_list parse_duration (some text))

-- The row with its execution handle cleared.
abbrev pub cleared_job : Job → Job
cleared_job j = record j { execution_handle = none; stdout_offset = pos 0; stderr_offset = pos 0 }

-- The row that an attempt ends in.
abbrev pub ended_job : State → Option ℤ → Job → Job
ended_job state duration j = record (cleared_job j) {
  state = state;
  next_attempt_at = none;
  cancel_reason = none;
  waiting_reason = none;
  worker_id = none;
  duration_ms = duration;
}

abbrev pub retried_job : ℤ → ℤ → Job → Job
retried_job attempt next_at j = record (ended_job State.retrying none j) {
  attempt = attempt;
  next_attempt_at = some next_at;
}

module _ (env : Env) (reliable : IsReliable env) (job_id : String) where
  pub change_job_reliable :
      (f : Job → Job) (j : Job)
      → KeepsJobId f
      → Hoare
          (JobRow job_id j)
          (attempt_exec env (λ s. some (update_job job_id f s)))
          (JobRow job_id (f j))
  change_job_reliable f j k w p =
      rw
        (exec_reliable env (λ s. some (update_job job_id f s)) w (update_job job_id f w.store)
          reliable refl)
        (find_job-update_job job_id f w.store j k p)

  pub update_job_reliable :
      (u : UpdateJobState) (j : Job)
      → Hoare
          (JobRow job_id j)
          (attempt_exec env (update_job_state job_id u))
          (JobRow job_id (apply_job_update u j))
  unfolding update_job_state apply_job_update
  update_job_reliable u j = change_job_reliable (apply_job_update u) j (λ x. refl)

  finish_attempt_of_job-Keeps :
      (attempt_id : String) (t d max : ℤ) (result : Result) (j : Job)
      → Keeps (JobRow job_id j) (finish_attempt_of_job env attempt_id t d max result)
  unfolding finish_attempt_of_job finish_job_attempt find_job update_attempt
  finish_attempt_of_job-Keeps attempt_id t d max result j w p =
      elim (Bool-cases (same attempt_id "")) [
        | inl e ↦ rw e p
        | inr e ↦ rw e (
            exec-Keeps env (JobRow job_id j) (finish_job_attempt attempt_id _)
              (λ s s' q h. ground arith) w p)
      ]

  log_attempt-Keeps :
      (attempt started t d max : ℤ) (result : Result) (j : Job)
      → Keeps (JobRow job_id j) (log_attempt env job_id attempt started t d max result)
  unfolding log_attempt send
  log_attempt-Keeps attempt started t d max result j w p = elim (Bool-cases env.has_log_backend) [
    | inl e ↦ rw e p
    | inr e ↦ rw e p
  ]

  record_job_result_reliable :
      (attempt_id : String) (attempt started t d max : ℤ) (result : Result) (j : Job)
      → Hoare
          (JobRow job_id j)
          (record_job_result env job_id attempt_id attempt started t d max result)
          (JobRow job_id (cleared_job j))
  unfolding record_job_result clear_job_execution_handle
  record_job_result_reliable attempt_id attempt started t d max result j w p =
      change_job_reliable cleared_job j (λ x. refl) _
        (log_attempt-Keeps attempt started t d max result j _
          (finish_attempt_of_job-Keeps attempt_id t d max result j w p))

  end_job_reliable :
      (state : State) (d : ℤ) (j : Job)
      → Hoare
          (JobRow job_id (cleared_job j))
          (end_job env job_id state d)
          (JobRow job_id (ended_job state (some d) j))
  unfolding end_job apply_job_update
  end_job_reliable state d j = update_job_reliable _ (cleared_job j)

  fail_job_reliable :
      (d : ℤ) (j : Job)
      → Hoare
          (JobRow job_id (cleared_job j))
          (fail_job env job_id d)
          (JobRow job_id (ended_job State.failed (some d) j))
  unfolding fail_job apply_job_update
  fail_job_reliable d j = update_job_reliable _ (cleared_job j)

  retry_job_reliable :
      (k : ℕ) (text : Bytes) (t : ℤ) (j : Job)
      → Hoare (JobRow job_id (cleared_job j)) (retry_job env job_id (pos (suc k)) text t) (
          JobRow job_id (
            retried_job
              (pos (suc k))
              (retry_time t k (parse_backoff_list env.parse_duration (some text)))
              j))
  unfolding retry_job apply_job_update
  retry_job_reliable k text t j w p =
      rw (calculate_job_backoff-suc env.parse_duration t k text, retry_job)
        (update_job_reliable _ (cleared_job j) w p)

  -- The end of attempt `k + 1` of a job that is in the table, for a database that does not fail.
  -- With `t` the time that the clock reads: an attempt that was killed on request leaves the job
  -- killed; any other attempt, one that was reported as killed without a request included, leaves
  -- it completed after a success, retrying after a failure below the limit of attempts, due again
  -- after the delay of this attempt, and failed after a failure at the limit. The row has the
  -- duration unless the job retries; the execution handle, the worker and both reasons are cleared,
  -- both offsets are 0, and nothing else in the row changes.
  pub finalize_job_result_lem :
      (attempt_id : String) (k : ℕ) (current_state : State) (started_at max : ℤ) (text : Bytes)
      (max_size : ℤ) (result : Result) (was_killed : Bool) (j : Job) (w : World)
      → find_job job_id w.store ≡ some j
      → let t = env.clock w.step in
        let d = duration_ms t started_at in
        let on_request = was_killed && is_state current_state State.kill_requested in
        let after =
          find_job job_id
            (finalize_job_result env job_id attempt_id
              (pos (suc k))
              current_state
              started_at
              max
              text
              max_size
              result
              was_killed
              w).1.store in
        (on_request ≡ true → after ≡ some (ended_job State.killed (some d) j))
        × (on_request ≡ false
            → is_success result ≡ true
            → after ≡ some (ended_job State.completed (some d) j))
        × (on_request ≡ false
            → is_success result ≡ false
            → ltb_ℤ (pos (suc k)) max ≡ true
            → after
              ≡ some (
                  retried_job
                    (pos (suc k))
                    (retry_time t k (parse_backoff_list env.parse_duration (some text)))
                    j))
        × (on_request ≡ false
            → is_success result ≡ false
            → ltb_ℤ (pos (suc k)) max ≡ false
            → after ≡ some (ended_job State.failed (some d) j))
  unfolding finalize_job_result settle_job now
  finalize_job_result_lem attempt_id k current_state started_at max text max_size result was_killed
        j w p =
      (
        λ e. rw e (end_job_reliable State.killed _ j _ recorded),
        λ e e'. rw (e, e', settle_job) (end_job_reliable State.completed _ j _ recorded),
        λ e e' f. rw (e, e', f, settle_job) (retry_job_reliable k text _ j _ recorded),
        λ e e' f. rw (e, e', f, settle_job) (fail_job_reliable _ j _ recorded),
      )
    where
      recorded :
          JobRow job_id
            (cleared_job j)
            (record_job_result env job_id attempt_id
              (pos (suc k))
              started_at
              (env.clock w.step)
              (duration_ms (env.clock w.step) started_at)
              max_size
              result
              (tick w)).1.store
      recorded =
          record_job_result_reliable attempt_id (pos (suc k)) started_at _ _ max_size result j
            (tick w) p
