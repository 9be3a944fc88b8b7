-- ===== src/Queue/Agreement.antt =====
-- internal/queue/async_jobs.go against internal/executor/async_runs.go: the two ways to end an
-- attempt.
use croncontrol.Prelude.{
  ℕ, suc, ◌≡◌, refl, ap, ℤ, pos, ltb_ℤ, false, Option, some, String, Bool-cases, inl, inr,
}
use mathlib.Core.Option
use croncontrol.RunState
use croncontrol.JobState.{State}
use croncontrol.JobState.Embedding.{embed}
use croncontrol.Store.{Bytes, Run, Process, Job, find_run, find_job}
use croncontrol.World.{World, Env}
use croncontrol.World.Hoare.{IsReliable}
use croncontrol.Executor.Method.{Result, is_success}
use croncontrol.Executor.Terminal.{Hooks}
use croncontrol.Executor.Terminal.Frame.{IsFrame}
use croncontrol.Executor.Finalize.{finalize_run_result}
use croncontrol.Executor.Finalize.Outcome.{finalize_run_result_lem}
use croncontrol.Queue.Finalize.{finalize_job_result}
use croncontrol.Queue.Outcome.{finalize_job_result_lem}

-- What a run and a job show of the end of an attempt: the state, and when the next attempt is due.
abbrev pub run_end : Run → RunState.State × Option ℤ
run_end r = (r.state, r.next_attempt_at)

abbrev pub job_end : Job → RunState.State × Option ℤ
job_end j = (embed j.state, j.next_attempt_at)

-- The run and the job end alike.
abbrev pub EndsAlike : Option Job → Option Run → Type 0
EndsAlike j r = Option.map job_end j ≡ Option.map run_end r

alike :
    (j' : Option Job) (r' : Option Run) (j : Job) (r : Run)
    → j' ≡ some j
    → r' ≡ some r
    → job_end j ≡ run_end r
    → EndsAlike j' r'
alike j' r' j r p q e = rw (p, q) (ap some e)

-- A job and a run with the same limit of attempts and the same delays, whose attempt `k + 1` started
-- at the same time and gives the same result, end in the same state and are due again at the same
-- time, for a job that is not killed, a database that does not fail, and a callback that leaves the
-- row of the run alone.
pub finalize_job_result_agrees :
    (env : Env) (hooks : Hooks) (k : ℕ) (started_at max_size : ℤ) (text : Bytes) (proc : Process)
    (result : Result) (current_state : State) (run_id job_id ws run_attempt job_attempt : String)
    (r : Run) (j : Job) (w : World)
    → IsReliable env
    → ((r : Run) → IsFrame env run_id r hooks)
    → find_run run_id w.store ≡ some r
    → find_job job_id w.store ≡ some j
    → proc.retry_backoff ≡ some text
    → EndsAlike
        (find_job job_id
          (finalize_job_result env job_id job_attempt
            (pos (suc k))
            current_state
            started_at
            proc.max_attempts
            text
            max_size
            result
            false
            w).1.store)
        (find_run run_id
          (finalize_run_result env hooks run_id ws run_attempt
            (pos (suc k))
            started_at
            proc
            result
            w).1.store)
finalize_job_result_agrees env hooks k started_at max_size text proc result current_state run_id
      job_id ws run_attempt job_attempt r j w reliable frame p q e =
    let runs =
      finalize_run_result_lem env reliable run_id hooks frame ws run_attempt k started_at proc
        result r w p in
    let jobs =
      finalize_job_result_lem env reliable job_id job_attempt k current_state started_at
        proc.max_attempts text max_size result false j w q in
    elim (Bool-cases (is_success result)) [
      | inl s ↦ alike _ _ _ _ (jobs.1 refl s) (runs.0 s) refl
      | inr f ↦ elim (Bool-cases (ltb_ℤ (pos (suc k)) proc.max_attempts)) [
        | inl l ↦ alike _ _ _ _ (jobs.2 refl f l) (runs.1 f l) (rw e refl)
        | inr l ↦ alike _ _ _ _ (jobs.3 refl f l) (runs.2 f l) refl
      ]
    ]
