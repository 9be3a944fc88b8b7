-- ===== src/Worker/Dispatcher.antt =====
-- internal/worker/dispatcher.go: which worker gets a task, and the channels that the workers poll.
use croncontrol.Prelude.{
  ℕ, ◌+◌, pos, ltb, leb_ℤ, Bool, true, false, Option, none, some, List, [], ◌∷◌, ◌++◌, String,
  if◌then◌else◌, ◌&&◌, ◌||◌, same, count, length,
}
use croncontrol.RunState
use croncontrol.JobState
use croncontrol.Store.{Store, Worker, is_value, get_worker, list_online_workers, is_online}
use croncontrol.World.{Env, M, ◌>>=◌, pure, Task, fetch, fetch_row}
use croncontrol.Worker.Labels.{matches_worker_labels}

-- The states that use up a worker's capacity.
abbrev pub run_takes_capacity : RunState.State → Bool
run_takes_capacity s =
    RunState.is_state s RunState.State.running || RunState.is_state s RunState.State.kill_requested

abbrev pub job_takes_capacity : JobState.State → Bool
job_takes_capacity s =
    JobState.is_state s JobState.State.running || JobState.is_state s JobState.State.kill_requested

-- `countActiveByWorker`.
unfoldable pub count_active_by_worker : String → Store → ℕ
count_active_by_worker worker_id s =
    count (λ r. is_value worker_id r.worker_id && run_takes_capacity r.state) s.runs
    + count (λ j. is_value worker_id j.worker_id && job_takes_capacity j.state) s.jobs

-- What the loop of `selectWorker` keeps: the worker so far, with its load.
abbrev pub Best : Type 0
Best = Option (Worker × ℕ)

-- `selected == nil || load < bestLoad`.
unfoldable pub improve : Worker → ℕ → Best → Best
improve w load none = some (w, load)
improve w load (some (v, best)) = if ltb load best then some (w, load) else some (v, best)

-- A worker whose load is known, or not.
unfoldable pub consider_load : Worker → Best → Option ℕ → Best
consider_load w best none = best
consider_load w best (some load) =
    if leb_ℤ w.max_concurrency (pos load) then best else improve w load best

abbrev pub worker_of : Best → Option Worker
worker_of none = none
worker_of (some (w, load)) = some w

-- A task queue of `sync.Map`, and the map with another one.
unfoldable pub load_queue : String → List (String × List Task) → List Task
load_queue id [] = []
load_queue id ((k, q) ∷ rest) = let found = load_queue id rest in if same k id then q else found

unfoldable pub store_queue :
    String → List Task → List (String × List Task) → List (String × List Task)
store_queue id q [] = (id, q) ∷ []
store_queue id q ((k, p) ∷ rest) =
    let changed = store_queue id q rest in if same k id then (id, q) ∷ rest else (k, p) ∷ changed

-- The channels have room for ten tasks. The answer of a send says that there was room.
unfoldable pub send_task : String → Task → M Bool
send_task worker_id task w =
    let q = load_queue worker_id w.task_queues in
    if ltb (length q) 10
    then (true, record w { task_queues = store_queue worker_id (q ++ task ∷ []) w.task_queues })
    else (false, w)

-- `PollTask`, where it does not have to wait: the task that was sent first. `none` is the end of the
-- request's context.
unfoldable pub poll_task : String → M (Option Task)
poll_task worker_id w = elim (load_queue worker_id w.task_queues) [
  | [] ↦ (none, w)
  | task ∷ rest ↦ (some task, record w { task_queues = store_queue worker_id rest w.task_queues })
]

-- The answer of `Dispatch`: the worker, none, or an error.
pub data Dispatched : Type 0 where
  selected : String → Dispatched
  unavailable : Dispatched
  dispatch_failed : Dispatched

module _ (env : Env) where
  unfoldable pub consider : String → Best → Worker → M Best
  consider worker_labels best w =
      if matches_worker_labels env w.labels worker_labels
      then (do load ← fetch env (count_active_by_worker w.id); pure (consider_load w best load))
      else pure best

  -- The loop of `selectWorker`.
  unfoldable pub select_from : String → Best → List Worker → M Best
  unfolding consider
  select_from worker_labels best [] = pure best
  select_from worker_labels best (w ∷ ws) =
      consider worker_labels best w >>= λ b. select_from worker_labels b ws

  -- `selectWorker`.
  unfoldable pub select_worker : List Worker → String → M (Option Worker)
  select_worker workers worker_labels = do
    best ← select_from worker_labels none workers
    pure (worker_of best)

  -- The task is sent if there is room.
  enqueue : Worker → Task → M Dispatched
  enqueue w task = do ok ← send_task w.id task; pure (if ok then selected w.id else unavailable)

  -- Behind the selection of a worker.
  unfoldable pub offer : Task → Worker → M Dispatched
  unfolding enqueue
  offer task w = do
    load ← fetch env (count_active_by_worker w.id)
    elim load [
      | none ↦ pure unavailable
      | some n ↦ if leb_ℤ w.max_concurrency (pos n) then pure unavailable else enqueue w task
    ]

  abbrev offer_selected : Task → Option Worker → M Dispatched
  offer_selected task none = pure unavailable
  offer_selected task (some w) = offer task w

  -- The explicit worker.
  unfoldable pub dispatch_to : String → Task → String → M Dispatched
  dispatch_to workspace_id task worker_id = do
    found ← fetch_row env (get_worker worker_id workspace_id)
    elim found [
      | none ↦ pure dispatch_failed
      | some w ↦ if w.enabled && is_online w.status then offer task w else pure unavailable
    ]

  -- Any worker that is online and has the labels.
  unfoldable pub dispatch_any : String → Task → String → M Dispatched
  dispatch_any workspace_id task worker_labels = do
    workers ← fetch env (list_online_workers workspace_id 100)
    elim workers [
      | none ↦ pure unavailable
      | some ws ↦ select_worker ws worker_labels >>= offer_selected task
    ]

  -- `Dispatch`. The empty text stands for a worker's identifier that is nil or empty.
  unfoldable pub dispatch_task : String → Task → String → String → M Dispatched
  dispatch_task workspace_id task worker_id worker_labels =
      if same worker_id ""
      then dispatch_any workspace_id task worker_labels
      else dispatch_to workspace_id task worker_id
