-- ===== src/Handler/Enqueue/Refused.antt =====
-- internal/handler/service.go, `EnqueueJob` and `BatchEnqueueJobs`: what they leave.
use croncontrol.Prelude.{
  ℕ, suc, ◌≡◌, refl, subst, none, some, List, [], ◌∷◌, String, inl, inr, Option-cases, Bool-cases,
}
use croncontrol.Store.{Store, Job, create_job, check_idempotency_key}
use croncontrol.World.{World, Env, ◌>>=◌, exec_row, fresh, now}
use croncontrol.World.Hoare.{fetch_row-cases, exec-cases}
use croncontrol.Handler.{Actor}
use croncontrol.Handler.Enqueue.{
  EnqueueRequest, EnqueueResponse, job_enqueued, batch_enqueued, find_conflict, insert_request,
  add_job, enqueue_job, roll_back, enqueue_all, run_batch, batch_enqueue_jobs,
}

-- An answer that no job was created.
abbrev pub IsRefusal : EnqueueResponse → Type 0
IsRefusal (job_enqueued j) = ⊥
IsRefusal (batch_enqueued js) = ⊥
IsRefusal _ = Unit

-- A refusal, in the given store.
abbrev pub RefusedIn : Store → EnqueueResponse × World → Type 0
RefusedIn s (answer, w) = IsRefusal answer × (w.store ≡ s)

module _ (env : Env) (actor : Actor) (workspace_id : String) where
  -- The insertion fails, and changes nothing.
  insert_request_lem :
      (request : EnqueueRequest) (w : World)
      → ((insert_request env actor workspace_id request w).0 ≡ none)
        × ((insert_request env actor workspace_id request w).1.store ≡ w.store)
  unfolding insert_request fresh now exec_row create_job
  insert_request_lem request w = elim (Bool-cases (env.db_fails (suc (suc w.step)))) [
    | inl e ↦ rw e (refl, refl)
    | inr e ↦ rw e (refl, refl)
  ]

  -- The check changes nothing.
  find_conflict-store :
      (request : EnqueueRequest) (w : World)
      → (find_conflict env workspace_id request w).1.store ≡ w.store
  unfolding find_conflict
  find_conflict-store request w = elim (Option-cases request.idempotency_key) [
    | inl e ↦ rw (e, find_conflict) refl
    | inr (key, e) ↦ elim (fetch_row-cases env (check_idempotency_key workspace_id key) w) [
      | inl q ↦ rw (e, find_conflict, q, ◌>>=◌) refl
      | inr (id, q) ↦ rw (e, find_conflict, q, ◌>>=◌) refl
    ]
  ]

  -- A job that is not in conflict is refused as well.
  add_job-RefusedIn :
      (request : EnqueueRequest) (w : World)
      → RefusedIn w.store (add_job env actor workspace_id request w)
  unfolding add_job
  add_job-RefusedIn request w =
      let (e, same_store) = insert_request_lem request w in rw (e, ◌>>=◌) (tt, same_store)

  enqueue_job-RefusedIn :
      (request : EnqueueRequest) (w : World)
      → RefusedIn w.store (enqueue_job env actor workspace_id request w)
  unfolding enqueue_job
  enqueue_job-RefusedIn request w =
      elim (Option-cases (find_conflict env workspace_id request w).0) [
        | inl e ↦
            rw (e, ◌>>=◌)
              (subst
                (λ s. RefusedIn s (
                  add_job env actor workspace_id request
                    (find_conflict env workspace_id request w).1))
                (find_conflict-store request w)
                (add_job-RefusedIn request (find_conflict env workspace_id request w).1))
        | inr (id, e) ↦ rw (e, ◌>>=◌) (tt, find_conflict-store request w)
      ]

  -- A batch ends at its first job.
  enqueue_all-RefusedIn :
      (before : Store) (i : ℕ) (created : List Job) (request : EnqueueRequest)
      (requests : List EnqueueRequest) (w : World)
      → RefusedIn before
          (enqueue_all env actor workspace_id before i created (request ∷ requests) w)
  unfolding enqueue_all roll_back
  enqueue_all-RefusedIn before i created request requests w =
      elim (Option-cases (find_conflict env workspace_id request w).0) [
        | inl e ↦
            rw
              (
                e,
                ◌>>=◌,
                (insert_request_lem request (find_conflict env workspace_id request w).1).0,
              )
              (tt, refl)
        | inr (id, e) ↦ rw (e, ◌>>=◌) (tt, refl)
      ]

  batch_enqueue_jobs-RefusedIn :
      (requests : List EnqueueRequest) (w : World)
      → RefusedIn w.store (batch_enqueue_jobs env actor workspace_id requests w)
  unfolding batch_enqueue_jobs run_batch
  batch_enqueue_jobs-RefusedIn [] w = (tt, refl)
  batch_enqueue_jobs-RefusedIn (request ∷ requests) w = elim (exec-cases env (λ s. some s) w) [
    | inl e ↦ rw (e, ◌>>=◌) (tt, refl)
    | inr (s, q, e) ↦ rw (e, ◌>>=◌) (enqueue_all-RefusedIn w.store 0 [] request requests _)
  ]

-- No request creates a job, neither one for a job nor one for a batch: whatever is asked for, and
-- whatever calls of the database fail, the answer is a refusal, and the tables are as before. (The
-- handlers leave the time of a job NULL, and the table does not allow that.)
pub enqueue_refused :
    (env : Env) (actor : Actor) (workspace_id : String) (request : EnqueueRequest)
    (requests : List EnqueueRequest) (w : World)
    → RefusedIn w.store (enqueue_job env actor workspace_id request w)
      × RefusedIn w.store (batch_enqueue_jobs env actor workspace_id requests w)
enqueue_refused env actor workspace_id request requests w = (
  enqueue_job-RefusedIn env actor workspace_id request w,
  batch_enqueue_jobs-RefusedIn env actor workspace_id requests w,
)
