-- ===== src/Handler/Kills.antt =====
-- internal/handler/service.go, `CancelJob` and `WorkerControlPoll`: what becomes of the kill of a job.
use croncontrol.Prelude.{
  ◌≡◌, refl, sym, subst, false, none, some, List, [], ◌∷◌, map, String, ◌&&◌, same, same_iff, any,
  keep, update_where, arith,
}
use croncontrol.JobState.{is_state, running, kill_requested}
use croncontrol.Store.{
  Job, to_job_state, apply_job_update, update_job, update_job_state, get_job, is_value,
}
use croncontrol.World.{World, Env, ◌>>=◌, tick}
use croncontrol.World.Hoare.{IsReliable, fetch_row_reliable, exec_reliable}
use croncontrol.Handler.Jobs.{job_status, cancel_job_in, request_job_cancel, killed_jobs}

-- The change that `CancelJob` makes to the row of a running job.
abbrev kill_row : Job → Job
kill_row j = record j {
  state = kill_requested;
  next_attempt_at = none;
  cancel_reason = some "manual";
  waiting_reason = none;
  worker_id = none;
  duration_ms = none;
}

-- A row that is changed belongs to no worker.
killed-none :
    (id worker_id : String) (active : List String) (jobs : List Job)
    → any (same id) (
        map
          (λ j. j.id)
          (keep
            (λ j.
              is_value worker_id j.worker_id
              && is_state j.state kill_requested
              && any (same j.id) active)
            (update_where (λ j. same j.id id) kill_row jobs)))
      ≡ false
killed-none id worker_id active [] = refl
killed-none id worker_id active (j ∷ jobs) =
    ground (arith, killed-none id worker_id active jobs, same_iff j.id id, same_iff id j.id)

-- The answer to the kill, and the store that it leaves.
request_job_cancel-running :
    (env : Env) (job_id workspace_id : String) (j : Job) (w : World)
    → IsReliable env
    → get_job job_id workspace_id w.store ≡ some j
    → j.state ≡ running
    → let (answer, after) = request_job_cancel env job_id workspace_id w in
      (answer ≡ job_status kill_requested) × (after.store ≡ update_job job_id kill_row w.store)
unfolding request_job_cancel cancel_job_in apply_job_update update_job_state
request_job_cancel-running env job_id workspace_id j w reliable found state =
    let u = record (to_job_state kill_requested) { cancel_reason = some "manual" } in
    rw (fetch_row_reliable env (get_job job_id workspace_id) w reliable, found, ◌>>=◌)
      (subst
        (λ st.
          let (answer, after) = cancel_job_in env job_id st (tick w) in
          (answer ≡ job_status kill_requested) × (after.store ≡ update_job job_id kill_row w.store))
        (sym state)
        (rw
          (exec_reliable env (update_job_state job_id u) (tick w)
            (update_job job_id kill_row w.store) reliable refl)
          (refl, refl)))

-- Cancelling a running job of the workspace answers that its kill is requested, but no worker is ever
-- told so: in the store that the handler leaves, no worker's list of jobs to kill has the job,
-- whichever tasks it says are active. (For a database that does not fail.)
pub killed_job_undelivered :
    (env : Env) (job_id workspace_id worker_id : String) (active : List String) (j : Job)
    (w : World)
    → IsReliable env
    → get_job job_id workspace_id w.store ≡ some j
    → j.state ≡ running
    → let (answer, after) = request_job_cancel env job_id workspace_id w in
      (answer ≡ job_status kill_requested)
      × (any (same job_id) (killed_jobs worker_id active after.store) ≡ false)
unfolding killed_jobs update_job
killed_job_undelivered env job_id workspace_id worker_id active j w reliable found state =
    let (answered, left) =
      request_job_cancel-running env job_id workspace_id j w reliable found state in
    (
      answered,
      subst (λ s. any (same job_id) (killed_jobs worker_id active s) ≡ false) (sym left)
          (killed-none job_id worker_id active w.store.jobs),
    )
