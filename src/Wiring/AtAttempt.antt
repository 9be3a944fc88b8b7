-- ===== src/Wiring/AtAttempt.antt =====
-- A job at an attempt, on its way from the callback of main.go to a worker (`WorkerPoll` of
-- internal/handler/service.go).
use croncontrol.Prelude.{
  ℕ, suc, ◌≤◌, ◌≡◌, refl, ◌∙◌, subst, ℤ, pos, eqb_ℤ, int32-suc, false, Option, none, some, String,
  if◌then◌else◌, same, unless_lem, any, inl, inr,
}
use croncontrol.JobState.{running, is_state, kill_requested}
use croncontrol.Store.{
  Store, Job, Queue, ClaimedJob, to_job_state, apply_job_update, update_job, update_job_state,
  snapshot_job_config, create_job_attempt, find_job, find_queue, get_job,
}
use croncontrol.Store.JobLaws.{KeepsJobId, find_job-update_job}
use croncontrol.World.{World, Env, Task, ◌>>=◌, ◌>>◌, pure, done, exec, now, fresh, tick}
use croncontrol.World.Hoare.{
  Hoare, Keeps, IsReliable, exec_reliable, exec-Keeps, bind, fetch_row-cases, if-Keeps,
}
use croncontrol.Executor.Terminal.{attempt_exec}
use croncontrol.Worker.Dispatcher.{selected}
use croncontrol.Handler.Jobs.{deliver, start_job_task}
use croncontrol.Wiring.{job_assigned, assign_job, write_job, snapshot_job}

-- The job is in the table, at attempt `k`, with its limit and its queue, and no kill is requested.
abbrev pub IsAt : String → String → Queue → Option ℤ → ℕ → Store → Type 0
IsAt id queue_id q max k s =
    (x : Job) × (find_job id s ≡ some x)
    × (find_queue queue_id s ≡ some q)
    × (x.queue_id ≡ queue_id)
    × (x.max_attempts ≡ max)
    × (x.attempt ≡ pos k)
    × (is_state x.state kill_requested ≡ false)

-- A change that keeps the routing of a job, and brings it from attempt `k` to attempt `l`.
abbrev Moves : ℕ → ℕ → (Job → Job) → Type 0
Moves k l f =
    KeepsJobId f
    × ((x : Job) → (f x).queue_id ≡ x.queue_id)
    × ((x : Job) → (f x).max_attempts ≡ x.max_attempts)
    × ((x : Job) → x.attempt ≡ pos k → (f x).attempt ≡ pos l)
    × ((x : Job)
        → is_state x.state kill_requested ≡ false
        → is_state (f x).state kill_requested ≡ false)

module _ (id queue_id : String) (q : Queue) (max : Option ℤ) where
  update_job-IsAt :
      (k l : ℕ) (f : Job → Job) (s : Store)
      → Moves k l f
      → IsAt id queue_id q max k s
      → IsAt id queue_id q max l (update_job id f s)
  unfolding find_queue update_job
  update_job-IsAt k l f s (keeps, same_queue, same_max, to, stays) (x, found, queue, e, m, a, n) = (
    f x,
    find_job-update_job id f s x keeps found,
    queue,
    same_queue x ∙ e,
    same_max x ∙ m,
    to x a,
    stays x n,
  )

  module _ (env : Env) (reliable : IsReliable env) (c : ClaimedJob) (config worker_id : String)
      (k : ℕ) where
    write_job-IsAt :
        c.job.id ≡ id
        → (w : World) → IsAt id queue_id q max k w.store
        → IsAt id queue_id q max
            (suc k)
            (write_job env c (job_assigned worker_id (pos (suc k))) w).1.store
    unfolding write_job update_job_state apply_job_update
    write_job-IsAt named w p =
        let f = apply_job_update (job_assigned worker_id (pos (suc k))) in
        rw
          (
            named,
            exec_reliable env (λ s. some (update_job id f s)) w (update_job id f w.store) reliable
                refl,
            ◌>>=◌,
          )
          (update_job-IsAt k (suc k) f w.store
            (λ x. refl, λ x. refl, λ x. refl, λ x h. refl, λ x h. refl) p)

    snapshot_job-IsAt :
        (n : ℤ) → c.job.id ≡ id → Keeps (IsAt id queue_id q max k) (snapshot_job env c n config)
    unfolding snapshot_job snapshot_job_config
    snapshot_job-IsAt n named w p =
        let f : Job → Job = λ j. record j {
          effective_config = some (env.encode_job_snapshot c.queue.execution_method config);
        } in
        rw named (
          if-Keeps (IsAt id queue_id q max k) (eqb_ℤ n (pos 1)) _ done
            (λ w p.
              rw
                (exec_reliable env (λ s. some (update_job id f s)) w (update_job id f w.store)
                  reliable refl)
                (update_job-IsAt k k f w.store (λ x. refl, λ x. refl, λ x. refl, λ x h. h, λ x h. h)
                  p))
            (λ w p. p) w p)

    pub assign_job-IsAt :
        c.job.id ≡ id
        → c.job.attempt ≡ pos k
        → suc k ≤ 2147483647
        → same worker_id "" ≡ false
        → Hoare
            (IsAt id queue_id q max k)
            (assign_job env c config (selected worker_id))
            (IsAt id queue_id q max (suc k))
    unfolding assign_job
    assign_job-IsAt named at small given w p =
        rw (given, int32-suc c.job.attempt k at small)
          (write_job-IsAt named (snapshot_job env c (pos (suc k)) config w).1
            (snapshot_job-IsAt (pos (suc k)) named w p))

  module _ (env : Env) (reliable : IsReliable env) (worker_id : String) (k : ℕ) where
    create_job_attempt-IsAt :
        (a b : String) (n t : ℤ) (request : String) (s s' : Store)
        → create_job_attempt a b n t request s ≡ some s'
        → IsAt id queue_id q max k s
        → IsAt id queue_id q max k s'
    unfolding create_job_attempt find_queue find_job
    create_job_attempt-IsAt a b n t request s s' e p =
        subst (IsAt id queue_id q max k)
          (unless_lem (any (λ x. same x.id a) s.job_attempts) _ _ e).1 p

    -- The job is set to running, at the same attempt.
    set_running-IsAt :
        (answer : Option Task)
        → Keeps (IsAt id queue_id q max k) (
            attempt_exec env
              (update_job_state id (record (to_job_state running) { worker_id = some worker_id }))
            >> pure answer)
    unfolding update_job_state apply_job_update
    set_running-IsAt answer w p =
        let f = apply_job_update (record (to_job_state running) { worker_id = some worker_id }) in
        rw
          (exec_reliable env (λ s. some (update_job id f s)) w (update_job id f w.store) reliable
            refl)
          (update_job-IsAt k k f w.store (λ x. refl, λ x. refl, λ x. refl, λ x h. h, λ x h. refl) p)

    start_job_task-IsAt :
        (task : Task) (job : Job)
        → task.id ≡ id
        → Keeps (IsAt id queue_id q max k) (start_job_task env worker_id task job)
    unfolding start_job_task now fresh
    start_job_task-IsAt task job named w p =
        let here = IsAt id queue_id q max k in
        let attempt_id = env.new_id (suc w.step) "jat_" in
        let answer = some (record task { id = id; attempt_id = attempt_id }) in
        let set =
          attempt_exec env
            (update_job_state id (record (to_job_state running) { worker_id = some worker_id }))
          >> pure answer in
        rw named (
          bind here here here
            (exec env
              (create_job_attempt attempt_id id job.attempt (env.clock w.step) task.method_config))
            (λ ok. if ok then set else pure none)
            (exec-Keeps env here _ (
              create_job_attempt-IsAt attempt_id id job.attempt (env.clock w.step)
                task.method_config))
            (λ ok. if-Keeps here ok set (pure none) (set_running-IsAt answer) (λ w p. p))
            (record w { step = suc (suc w.step) }) p)

    pub deliver-IsAt :
        (workspace_id : String) (task : Task)
        → task.id ≡ id
        → task.kind ≡ "job"
        → Keeps (IsAt id queue_id q max k) (deliver env worker_id workspace_id task)
    unfolding deliver same
    deliver-IsAt workspace_id task named kind w p =
        rw kind (elim (fetch_row-cases env (get_job task.id workspace_id) w) [
          | inl e ↦ rw (e, ◌>>=◌) p
          | inr (job, e) ↦ rw (e, ◌>>=◌) (start_job_task-IsAt task job named (tick w) p)
        ])
