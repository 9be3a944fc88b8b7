-- ===== src/Dependency.antt =====
-- internal/dependency/resolver.go: the runs of dependent processes, and the check for cycles.
pub mod Triggers
pub mod Cycles
use croncontrol.Prelude.{
  ℕ, ℤ, zero, suc, any, Bool, true, false, Option, none, some, List, [], ◌∷◌, String, if◌then◌else◌,
  same, ◌||◌,
}
use croncontrol.RunState.{State, is_state, is_final_terminal}
use croncontrol.Store.{
  Origin, DependencyType, Run, Process, CreateRun, create_run, get_dependent_processes, get_process,
}
use croncontrol.World.{Env, M, ◌>>=◌, ◌>>◌, done, pure, exec, fetch, fetch_row, now, fresh}
use croncontrol.Executor.Terminal.{attempt_exec}

-- The run that `createDependentRun` asks for.
abbrev pub dependent_run : Process → Run → String → ℤ → CreateRun
dependent_run process parent id t = record {
  id = id;
  workspace_id = process.workspace_id;
  process_id = process.id;
  scheduled_at = t;
  state = State.pending;
  origin = Origin.from_dependency;
  max_attempts = process.max_attempts;
  actor_type = some "system";
  actor_id = none;
  triggered_by_run_id = some parent.id;
  tags = process.tags;
}

-- Whether a dependency of this type is triggered by a run that ended in this state.
abbrev pub triggers : State → Option DependencyType → Bool
triggers state none = false
triggers state (some DependencyType.after) = true
triggers state (some DependencyType.after_success) = is_state state State.completed

module _ (env : Env) where
  -- `createDependentRun`.
  unfoldable pub create_dependent_run : Process → Run → M (Unit {0})
  create_dependent_run process parent = do
    t ← now env
    id ← fresh env "run_"
    attempt_exec env (create_run (dependent_run process parent id t))

  -- The loop of `Evaluate`.
  unfoldable pub trigger_all : Run → List Process → M (Unit {0})
  trigger_all parent [] = done
  trigger_all parent (dep ∷ deps) =
      (if triggers parent.state dep.dependency_type then create_dependent_run dep parent else done)
      >> trigger_all parent deps

  -- `Evaluate`.
  unfoldable pub evaluate : Run → M (Unit {0})
  evaluate completed_run =
      if is_final_terminal completed_run.state
      then (do
        deps ← fetch env (get_dependent_processes completed_run.process_id)
        elim deps [ none ↦ done | some ds ↦ trigger_all completed_run ds ])
      else done

  -- The loop of `ValidateNoCycles`, with fuel, for a lookup in the workspace `scope`. The answer is
  -- the process at which a cycle closes; the outer `none` is the fuel running out.
  unfoldable pub walk : String → ℕ → List String → String → M (Option (Option String))
  walk scope zero visited current = pure none
  walk scope (suc fuel) visited current = elim (same current "") [
    | true ↦ pure (some none)
    | false ↦ elim (any (same current) visited) [
      | true ↦ pure (some (some current))
      | false ↦ do
        proc ← fetch_row env (get_process current scope)
        elim proc [
          | none ↦ pure (some none)
          | some p ↦ elim p.depends_on_process_id [
            | none ↦ pure (some none)
            | some parent ↦ walk scope fuel (current ∷ visited) parent
          ]
        ]
    ]
  ]

  -- `ValidateNoCycles`: the lookup is in the workspace with the empty identifier.
  unfoldable pub validate_no_cycles : ℕ → String → String → M (Option (Option String))
  unfolding walk
  validate_no_cycles fuel child_id parent_id = walk "" fuel (child_id ∷ []) parent_id
