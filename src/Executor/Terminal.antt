-- ===== src/Executor/Terminal.antt =====
-- internal/executor/orchestrator.go: `handleTerminal` and the small writers of states.
pub mod Frame
use croncontrol.Prelude.{ℤ, ◌+ℤ◌, Option, none, some, String, if◌then◌else◌, ◌&&◌}
use croncontrol.RunState.{State, continues_fixed_delay_chain}
use croncontrol.Store.{
  Store, Origin, Run, Process, is_fixed_delay, create_run, CreateRun, to_state, update_run_state,
}
use croncontrol.World.{Env, M, ◌>>=◌, ◌>>◌, done, exec, now, fresh}

-- The callbacks of an orchestrator; `none` is a callback that is not set.
pub record Hooks : Type 0 where
  pub on_run_terminal : Option (Run → Process → M (Unit {0}))
  -- The answer is the text of the error, if there is one.
  pub worker_dispatch : Option (Run → Process → M (Option String))

-- The run that a fixed-delay process gets next.
abbrev pub chain_run : Process → String → ℤ → CreateRun
chain_run proc id next_at = record {
  id = id;
  workspace_id = proc.workspace_id;
  process_id = proc.id;
  scheduled_at = next_at;
  state = State.pending;
  origin = Origin.from_fixed_delay;
  max_attempts = proc.max_attempts;
  actor_type = some "system";
  actor_id = none;
  triggered_by_run_id = none;
  tags = proc.tags;
}

module _ (env : Env) where
  -- A statement whose error is ignored.
  abbrev pub attempt_exec : (Store → Option Store) → M (Unit {0})
  attempt_exec f = exec env f >> done

  create_chain_run : Process → ℤ → M (Unit {0})
  create_chain_run proc delay = do
    t ← now env
    id ← fresh env "run_"
    attempt_exec (create_run (chain_run proc id (t +ℤ delay)))

  unfoldable pub continue_chain : Process → State → M (Unit {0})
  unfolding create_chain_run
  continue_chain proc state =
      if is_fixed_delay proc.schedule_type && continues_fixed_delay_chain state
      then elim proc.delay_duration [
        | none ↦ done
        | some d ↦ elim (env.parse_duration d) [
          | none ↦ done
          | some delay ↦ create_chain_run proc delay
        ]
      ]
      else done

  abbrev pub run_hook : Hooks → Run → Process → M (Unit {0})
  run_hook hooks run proc = elim hooks.on_run_terminal [ none ↦ done | some f ↦ f run proc ]

  -- `handleTerminal`: the fixed-delay chain, then the callback.
  unfoldable pub handle_terminal : Hooks → Run → Process → State → M (Unit {0})
  unfolding continue_chain
  handle_terminal hooks run proc state = do continue_chain proc state; run_hook hooks run proc

  -- `updateState`.
  unfoldable pub update_state : String → State → M (Unit {0})
  update_state run_id state = attempt_exec (update_run_state run_id (to_state state))

  -- `updateStateFailed`.
  unfoldable pub update_state_failed : String → ℤ → M (Unit {0})
  update_state_failed run_id exit_code = do
    t ← now env
    attempt_exec (
        update_run_state run_id
          (record (to_state State.failed) { finished_at = some t; exit_code = some exit_code }))
