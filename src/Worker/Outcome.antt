-- ===== src/Worker/Outcome.antt =====
-- internal/worker/dispatcher.go, `ProcessResult`: the row of a job afterwards, where the database
-- does not fail.
use croncontrol.Prelude.{
  ℕ, suc, ◌≤◌, ◌≡◌, refl, ap, sym, subst, ◌∙◌, ℤ, pos, ltb_ℤ, int32-suc, Bool, true, false, Option,
  none, some, List, [], ◌∷◌, if◌then◌else◌, Bool-cases, inl, inr, same, arith,
}
use croncontrol.JobState.{State, is_state}
use croncontrol.Store.{
  Bytes, Store, Job, Queue, ClaimedJob, UpdateJobState, apply_job_update, update_job_state,
  finish_job_attempt, update_attempt, find_job, get_job_with_queue, update_job,
}
use croncontrol.Store.JobLaws.{JobRow, find_job-update_job}
use croncontrol.World.{World, Env, now, tick, exec, ◌>>=◌}
use croncontrol.World.Hoare.{Hoare, IsReliable, exec_reliable, fetch_row_reliable}
use croncontrol.Executor.Backoff.{calculate_backoff, backoff_index, parse_parts, parse_backoff_list}
use croncontrol.Executor.Backoff.Delay.{retry_time, calculate_backoff-suc}
use croncontrol.Worker.Results.{
  TaskResult, is_success_of, calculate_worker_backoff, parse_worker_parts,
  parse_worker_backoff_list, or_default, finish_job_attempt_of, end_task, retry_at, retry_task,
  settle_task, finish_and_settle, load_and_settle, process_job_result,
}

calculate_worker_backoff-calculate_backoff :
    (from attempt : ℤ) (ds : List ℤ)
    → calculate_worker_backoff from attempt ds ≡ calculate_backoff from attempt ds
unfolding calculate_worker_backoff calculate_backoff backoff_index
calculate_worker_backoff-calculate_backoff from attempt [] = refl
calculate_worker_backoff-calculate_backoff from attempt (d ∷ ds) = ground arith

parse_worker_parts-parse_parts :
    (parse_duration : Bytes → Option ℤ) (parts : List Bytes)
    → parse_worker_parts parse_duration parts ≡ parse_parts parse_duration parts
unfolding parse_worker_parts parse_parts
parse_worker_parts-parse_parts parse_duration [] = refl
parse_worker_parts-parse_parts parse_duration (p ∷ ps) =
    ground (arith, parse_worker_parts-parse_parts parse_duration ps)

-- The text of the delays: the job's, or the queue's.
abbrev pub delays_text : Bytes → Option Bytes → Bytes
delays_text default_backoff none = default_backoff
delays_text default_backoff (some text) = text

parse_worker_backoff_list-parse_backoff_list :
    (parse_duration : Bytes → Option ℤ) (default_backoff : Bytes) (override : Option Bytes)
    → parse_worker_backoff_list parse_duration default_backoff override
      ≡ parse_backoff_list parse_duration (some (delays_text default_backoff override))
unfolding parse_worker_backoff_list parse_backoff_list
parse_worker_backoff_list-parse_backoff_list parse_duration default_backoff none =
    parse_worker_parts-parse_parts parse_duration _
parse_worker_backoff_list-parse_backoff_list parse_duration default_backoff (some text) =
    parse_worker_parts-parse_parts parse_duration _

-- The row that a result leaves, without a state.
abbrev pub settled_job : State → ℤ → Job → Job
settled_job state duration j = record j {
  state = state;
  next_attempt_at = none;
  cancel_reason = none;
  waiting_reason = none;
  worker_id = none;
  duration_ms = some duration;
}

abbrev pub retried_task : ℕ → ℤ → ℤ → Job → Job
retried_task k next_at duration j = record (settled_job State.retrying duration j) {
  attempt = pos (suc k);
  next_attempt_at = some next_at;
}

-- The four ends of a result for attempt `k` of a job, for the row that is left, at time `t`.
abbrev pub IsSettled : Env → TaskResult → Job → Queue → ℕ → ℤ → Option Job → Type 0
IsSettled env result j q k t after =
    let max = or_default q.max_attempts j.max_attempts in
    let delays =
      parse_backoff_list env.parse_duration (some (delays_text q.retry_backoff j.retry_backoff)) in
    (is_success_of result ≡ true → after ≡ some (settled_job State.completed result.duration_ms j))
    × (is_success_of result ≡ false
        → is_state j.state State.kill_requested ≡ true
        → after ≡ some (settled_job State.killed result.duration_ms j))
    × (is_success_of result ≡ false
        → is_state j.state State.kill_requested ≡ false
        → ltb_ℤ (pos k) max ≡ true
        → after ≡ some (retried_task k (retry_time t k delays) result.duration_ms j))
    × (is_success_of result ≡ false
        → is_state j.state State.kill_requested ≡ false
        → ltb_ℤ (pos k) max ≡ false
        → after ≡ some (settled_job State.failed result.duration_ms j))

-- The number of the action at which the clock is read for a retry, for a result that is handled from
-- action `n` on: a result that names its attempt is first written there.
abbrev pub settle_step : TaskResult → ℕ → ℕ
settle_step result n = if same result.attempt_id "" then n else suc (suc n)

module _ (env : Env) (reliable : IsReliable env) (result : TaskResult) where
  update_task_reliable :
      (u : UpdateJobState) (j : Job)
      → Hoare
          (JobRow result.task_id j)
          (exec env (update_job_state result.task_id u))
          (JobRow result.task_id (apply_job_update u j))
  unfolding update_job_state apply_job_update
  update_task_reliable u j w p =
      rw
        (exec_reliable env (λ s. some (update_job result.task_id (apply_job_update u) s)) w
          (update_job result.task_id (apply_job_update u) w.store) reliable refl)
        (find_job-update_job result.task_id (apply_job_update u) w.store j (λ x. refl) p)

  end_task_reliable :
      (state : State) (j : Job)
      → Hoare
          (JobRow result.task_id j)
          (end_task env result state)
          (JobRow result.task_id (settled_job state result.duration_ms j))
  unfolding end_task apply_job_update
  end_task_reliable state j = update_task_reliable _ j

  worker_delay :
      (t : ℤ) (k : ℕ) (q : Queue) (j : Job)
      → calculate_worker_backoff t
          (pos (suc k))
          (parse_worker_backoff_list env.parse_duration q.retry_backoff j.retry_backoff)
        ≡ some (
            retry_time t k (
              parse_backoff_list env.parse_duration
                (some (delays_text q.retry_backoff j.retry_backoff))))
  worker_delay t k q j =
      calculate_worker_backoff-calculate_backoff t (pos (suc k)) _
      ∙ ap (calculate_backoff t (pos (suc k))) (
          parse_worker_backoff_list-parse_backoff_list env.parse_duration q.retry_backoff
            j.retry_backoff)
      ∙ calculate_backoff-suc t k _

  retry_task_reliable :
      (k : ℕ) (q : Queue) (j : Job)
      → j.attempt ≡ pos k
      → suc k ≤ 2147483647
      → (w : World) → JobRow result.task_id j w.store
      → JobRow result.task_id
          (retried_task k
            (retry_time (env.clock w.step) k (
              parse_backoff_list env.parse_duration
                (some (delays_text q.retry_backoff j.retry_backoff))))
            result.duration_ms
            j)
          (retry_task env (record { job = j; queue = q }) result w).1.store
  unfolding retry_task retry_at now apply_job_update
  retry_task_reliable k q j e small w p =
      let t = env.clock w.step in
      let list = parse_worker_backoff_list env.parse_duration q.retry_backoff j.retry_backoff in
      let row =
        retried_task k
          (retry_time t k (
            parse_backoff_list env.parse_duration
              (some (delays_text q.retry_backoff j.retry_backoff))))
          result.duration_ms j in
      subst
        (λ a.
          JobRow result.task_id row
            (retry_at env result a (calculate_worker_backoff t a list) (tick w)).1.store)
        (sym (int32-suc j.attempt k e small))
        (subst
          (λ o. JobRow result.task_id row (retry_at env result (pos (suc k)) o (tick w)).1.store)
          (sym (worker_delay t k q j)) (update_task_reliable _ j (tick w) p))

  settle_task_reliable :
      (k : ℕ) (q : Queue) (j : Job)
      → j.attempt ≡ pos k
      → suc k ≤ 2147483647
      → (w : World) → JobRow result.task_id j w.store
      → IsSettled env result j q k (env.clock w.step) (
          find_job result.task_id
            (settle_task env j (record { job = j; queue = q }) result w).1.store)
  unfolding settle_task
  settle_task_reliable k q j e small w p = (
    λ s. elim (Bool-cases (is_state j.state State.kill_requested)) [
      | inl kill ↦ rw (s, kill) (end_task_reliable State.completed j w p)
      | inr kill ↦ rw (s, kill) (end_task_reliable State.completed j w p)
    ],
    λ s kill. rw (s, kill) (end_task_reliable State.killed j w p),
    λ s kill l. rw (s, kill, at_limit l) (retry_task_reliable k q j e small w p),
    λ s kill l. rw (s, kill, at_limit l) (end_task_reliable State.failed j w p),
  )
    where
      at_limit :
          {b : Bool}
          → ltb_ℤ (pos k) (or_default q.max_attempts j.max_attempts) ≡ b
          → ltb_ℤ j.attempt (or_default q.max_attempts j.max_attempts) ≡ b
      at_limit l = ap (λ a. ltb_ℤ a (or_default q.max_attempts j.max_attempts)) e ∙ l

  finish_job_attempt_of-JobRow :
      (c : ClaimedJob) (j : Job) (w : World)
      → JobRow result.task_id j w.store
      → (s : Store) × (finish_job_attempt_of env c result w
          ≡ (true, record w { store = s; step = suc (suc w.step) }))
        × JobRow result.task_id j s
  unfolding finish_job_attempt_of finish_job_attempt update_attempt now find_job
  finish_job_attempt_of-JobRow c j w p =
      (_, exec_reliable env (finish_job_attempt result.attempt_id _) (tick w) _ reliable refl, p)

  finish_and_settle_reliable :
      (k : ℕ) (q : Queue) (j : Job)
      → j.attempt ≡ pos k
      → suc k ≤ 2147483647
      → (w : World) → JobRow result.task_id j w.store
      → IsSettled env result j q k (env.clock (settle_step result w.step)) (
          find_job result.task_id
            (finish_and_settle env j (record { job = j; queue = q }) result w).1.store)
  unfolding finish_and_settle
  finish_and_settle_reliable k q j e small w p =
      let c : ClaimedJob = record { job = j; queue = q } in
      elim (Bool-cases (same result.attempt_id "")) [
        | inl none_given ↦
            rw (none_given, finish_and_settle) (settle_task_reliable k q j e small w p)
        | inr given ↦
            let (s, finished, row) = finish_job_attempt_of-JobRow c j w p in
            rw (given, finish_and_settle, finished)
              (settle_task_reliable k q j e small (record w { store = s; step = suc (suc w.step) })
                row)
      ]

  load_reliable :
      (k : ℕ) (q : Queue) (j : Job) (w : World)
      → j.attempt ≡ pos k
      → suc k ≤ 2147483647
      → find_job result.task_id w.store ≡ some j
      → get_job_with_queue result.task_id j.workspace_id w.store
        ≡ some (record { job = j; queue = q })
      → IsSettled env result j q k
          (env.clock (settle_step result (suc w.step)))
          (find_job result.task_id (load_and_settle env result j w).1.store)
  unfolding load_and_settle
  load_reliable k q j w e small p loaded =
      rw
        (
          fetch_row_reliable env (get_job_with_queue result.task_id j.workspace_id) w reliable,
          loaded,
          ◌>>=◌,
        )
        (finish_and_settle_reliable k q j e small (tick w) p)

  -- A worker's result for attempt `k` of a job that is in the table, with its queue. With `t` the
  -- time that the clock reads behind the two queries, and behind the end of the attempt where the
  -- result names one: a success completes the job, also where a kill was requested; a failure
  -- leaves it killed where a kill was requested, and otherwise retrying below the limit of
  -- attempts, with the attempt `k + 1` although attempt `k + 1` has not begun, due again after the
  -- delay of attempt `k + 1` from `t`, and failed at the limit. The row has the worker's duration,
  -- and worker and reasons are cleared. (For a database that does not fail.)
  pub process_job_result_lem :
      (k : ℕ) (q : Queue) (j : Job) (w : World)
      → j.attempt ≡ pos k
      → suc k ≤ 2147483647
      → find_job result.task_id w.store ≡ some j
      → get_job_with_queue result.task_id j.workspace_id w.store
        ≡ some (record { job = j; queue = q })
      → IsSettled env result j q k
          (env.clock (settle_step result (suc (suc w.step))))
          (find_job result.task_id (process_job_result env result w).1.store)
  unfolding process_job_result
  process_job_result_lem k q j w e small p loaded =
      rw (fetch_row_reliable env (find_job result.task_id) w reliable, p, ◌>>=◌)
        (load_reliable k q j (tick w) e small p loaded)
