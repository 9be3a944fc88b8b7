-- ===== src/Wiring/Round.antt =====
-- One round of a job through a worker: the callback of main.go assigns it, the worker polls for it
-- (`WorkerPoll` of internal/handler/service.go), and its result comes back (`ProcessResult` of
-- internal/worker/dispatcher.go).
use croncontrol.Prelude.{
  ℕ, suc, ◌≤◌, ◌≡◌, refl, ap, sym, ◌∙◌, subst, ℤ, pos, ltb_ℤ, Bool, true, false, Option, some, List,
  [], ◌∷◌, ◌&&◌, String, same, find, same_self, Bool-cases, inl, inr, arith,
}
use croncontrol.JobState.{retrying}
use croncontrol.Store.{Store, Job, Queue, ClaimedJob, find_job, find_queue, get_job_with_queue}
use croncontrol.World.{World, Env}
use croncontrol.World.Hoare.{IsReliable}
use croncontrol.Worker.Dispatcher.{selected}
use croncontrol.Worker.Results.{TaskResult, is_success_of, or_default, process_job_result}
use croncontrol.Worker.Outcome.{delays_text, retried_task, settle_step, process_job_result_lem}
use croncontrol.Executor.Backoff.{parse_backoff_list}
use croncontrol.Executor.Backoff.Delay.{retry_time}
use croncontrol.Handler.Jobs.{deliver}
use croncontrol.Wiring.{job_task, assign_job}
use croncontrol.Wiring.AtAttempt.{IsAt, assign_job-IsAt, deliver-IsAt}

-- The first row that passes a test is also the first to pass that test and another that it passes.
find-and :
    {A : Type 0} (p q : A → Bool) (xs : List A) (x : A)
    → find p xs ≡ some x
    → q x ≡ true
    → find (λ y. p y && q y) xs ≡ some x
find-and p q [] x h k = absurd cc
find-and p q (y ∷ xs) x h k = elim (Bool-cases (p y)) [
  | inl e ↦ ground (arith, e, h, k)
  | inr e ↦ ground (arith, e, h, find-and p q xs x)
]

get_job_with_queue-IsAt :
    (id queue_id : String) (q : Queue) (x : Job) (s : Store)
    → find_job id s ≡ some x
    → find_queue queue_id s ≡ some q
    → x.queue_id ≡ queue_id
    → get_job_with_queue id x.workspace_id s ≡ some (record { job = x; queue = q })
unfolding get_job_with_queue find_job
get_job_with_queue-IsAt id queue_id q x s found queue e =
    rw
      (
        get_job_with_queue,
        find-and (λ j. same j.id id) (λ j. same j.workspace_id x.workspace_id) s.jobs x found
            (same_self x.workspace_id),
        subst (λ i. find_queue i s ≡ some q) (sym e) queue,
      )
      refl

-- The row of a job that waits for its next attempt, at this number.
abbrev pub RetriesAt : String → ℕ → Store → Type 0
RetriesAt id n s = (x : Job) × (find_job id s ≡ some x) × (x.state ≡ retrying) × (x.attempt ≡ pos n)

-- One round of a job through a worker that fails it. The job is in the table at attempt `k`, no kill
-- is requested, and its limit is above `k + 1`. Then the assignment to a worker, the delivery at the
-- worker's poll, from whatever workspace, and the failing result, one after the other, leave the job
-- retrying at attempt `k + 2`: one attempt has run, and the number has grown by two. (For a database
-- that does not fail.)
pub worker_round_lem :
    (env : Env) (c : ClaimedJob) (config worker_id workspace_id queue_id : String) (q : Queue)
    (max : Option ℤ) (k : ℕ) (result : TaskResult) (w : World)
    → IsReliable env
    → c.job.id ≡ result.task_id
    → c.job.attempt ≡ pos k
    → suc (suc k) ≤ 2147483647
    → same worker_id "" ≡ false
    → is_success_of result ≡ false
    → ltb_ℤ (pos (suc k)) (or_default q.max_attempts max) ≡ true
    → IsAt result.task_id queue_id q max k w.store
    → let w1 = (assign_job env c config (selected worker_id) w).1 in
      let w2 = (deliver env worker_id workspace_id (job_task c config) w1).1 in
      RetriesAt result.task_id (suc (suc k)) (process_job_result env result w2).1.store
worker_round_lem env c config worker_id workspace_id queue_id q max k result w reliable named at
      small given failed below p =
    let w1 = (assign_job env c config (selected worker_id) w).1 in
    let w2 = (deliver env worker_id workspace_id (job_task c config) w1).1 in
    let id = result.task_id in
    let assigned =
      assign_job-IsAt id queue_id q max env reliable c config worker_id k named at
        (omega (arith, small)) given w p in
    let (x, found, queue, e, m, a, n) =
      deliver-IsAt id queue_id q max env reliable worker_id (suc k) workspace_id (job_task c config)
        named refl w1 assigned in
    let t = env.clock (settle_step result (suc (suc w2.step))) in
    let settled =
      process_job_result_lem env reliable result (suc k) q x w2 a small found
        (get_job_with_queue-IsAt id queue_id q x w2.store found queue e) in
    let limit = ap (λ o. ltb_ℤ (pos (suc k)) (or_default q.max_attempts o)) m ∙ below in
    let (completed, killed, retried, at_limit) = settled in
    let delays =
      parse_backoff_list env.parse_duration (some (delays_text q.retry_backoff x.retry_backoff)) in
    (
      retried_task (suc k) (retry_time t (suc k) delays) result.duration_ms x,
      retried failed n limit,
      refl,
      refl,
    )
