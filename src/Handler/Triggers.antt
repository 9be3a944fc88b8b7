-- ===== src/Handler/Triggers.antt =====
-- internal/handler/service.go: `TriggerProcess` and `ReplayRun`.
use croncontrol.Prelude.{ℤ, none, some, String, if◌then◌else◌}
use croncontrol.RunState.{State, is_terminal}
use croncontrol.Store.{Origin, Run, Process, CreateRun, create_run, get_run, get_process}
use croncontrol.World.{Env, M, ◌>>=◌, pure, exec, fetch_row, now, fresh}
use croncontrol.Handler.{Actor}

-- What is written to the client.
pub data TriggerResponse : Type 0 where
  -- 201, with the identifier of the new run.
  run_created : String → TriggerResponse
  -- 404, 400 and 500.
  nothing_found not_terminal trigger_failed : TriggerResponse

-- The parameters that `TriggerProcess` builds.
abbrev pub manual_run : Actor → String → String → ℤ → Process → CreateRun
manual_run actor workspace_id id now proc = record {
  id = id;
  workspace_id = workspace_id;
  process_id = proc.id;
  scheduled_at = now;
  state = State.pending;
  origin = Origin.from_manual;
  max_attempts = proc.max_attempts;
  actor_type = some actor.kind;
  actor_id = some actor.id;
  triggered_by_run_id = none;
  tags = proc.tags;
}

-- The parameters that `ReplayRun` builds, but for the run that is replayed, a column that no
-- modelled code reads.
abbrev pub replayed_run : Actor → String → String → ℤ → Run → CreateRun
replayed_run actor workspace_id id now run = record {
  id = id;
  workspace_id = workspace_id;
  process_id = run.process_id;
  scheduled_at = now;
  state = State.pending;
  origin = Origin.from_replay;
  max_attempts = run.max_attempts;
  actor_type = some actor.kind;
  actor_id = some actor.id;
  triggered_by_run_id = none;
  tags = run.tags;
}

module _ (env : Env) where
  -- The insertion of a run.
  unfoldable pub insert_run : (String → ℤ → CreateRun) → M TriggerResponse
  insert_run params = do
    id ← fresh env "run_"
    t ← now env
    ok ← exec env (create_run (params id t))
    pure (if ok then run_created id else trigger_failed)

  -- `TriggerProcess`.
  unfoldable pub trigger_process : Actor → String → String → M TriggerResponse
  trigger_process actor process_id workspace_id = do
    row ← fetch_row env (get_process process_id workspace_id)
    elim row [
      | none ↦ pure nothing_found
      | some proc ↦ insert_run (λ id t. manual_run actor workspace_id id t proc)
    ]

  -- `ReplayRun`.
  unfoldable pub replay_run : Actor → String → String → M TriggerResponse
  replay_run actor run_id workspace_id = do
    row ← fetch_row env (get_run run_id workspace_id)
    elim row [
      | none ↦ pure nothing_found
      | some run ↦
          if is_terminal run.state
          then insert_run (λ id t. replayed_run actor workspace_id id t run)
          else pure not_terminal
    ]
