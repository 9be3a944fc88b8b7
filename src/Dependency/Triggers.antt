-- ===== src/Dependency/Triggers.antt =====
-- internal/dependency/resolver.go, `Evaluate`: which runs it creates.
use croncontrol.Prelude.{
  ◌≡◌, refl, ◌⊎◌, Option, true, false, none, some, List, [], ◌∷◌, All, All-keep, Bool-cases, inl,
  inr, arith,
}
use croncontrol.RunState.{State, is_state, is_final_terminal}
use croncontrol.Store.{
  DependencyType, Origin, Run, Process, Store, create_run, new_run, depends_on,
  get_dependent_processes,
}
use croncontrol.Store.Growth.{Grew, Grew-refl, create_run-Grew}
use croncontrol.World.{World, Env, now, fresh, tick}
use croncontrol.World.Hoare.{Keeps, exec-Keeps, fetch_then}
use croncontrol.Dependency.{dependent_run, triggers, create_dependent_run, trigger_all, evaluate}

-- A dependency `after` is triggered by any final state, `after_success` by `completed` alone.
abbrev pub IsTriggering : State → Option DependencyType → Type 0
IsTriggering state type =
    (is_final_terminal state ≡ true)
    × ((type ≡ some DependencyType.after)
        ⊎ ((type ≡ some DependencyType.after_success) × (state ≡ State.completed)))

is_completed : (s : State) → is_state s State.completed ≡ true → s ≡ State.completed
is_completed State.completed h = refl
is_completed _ h = cc

triggers-IsTriggering :
    (s : State) (o : Option DependencyType)
    → is_final_terminal s ≡ true
    → triggers s o ≡ true
    → IsTriggering s o
triggers-IsTriggering s none f h = absurd cc
triggers-IsTriggering s (some DependencyType.after) f h = (f, inl refl)
triggers-IsTriggering s (some DependencyType.after_success) f h = (f, inr (refl, is_completed s h))

-- A process that is enabled, depends on the process of the parent run, and is triggered by the
-- state that the parent run is in.
pub record IsDue (parent : Run) (p : Process) : Type 0 where
  pub enabled : p.enabled ≡ true
  pub dependent : depends_on parent.process_id p.depends_on_process_id ≡ true
  pub triggered : IsTriggering parent.state p.dependency_type

-- A pending run that the parent triggers in a process that is due.
pub record IsTriggered (parent r : Run) : Type 0 where
  pub process : Process
  pub due : IsDue parent process
  pub of_process : r.process_id ≡ process.id
  pub is_pending : r.state ≡ State.pending
  pub is_dependency : r.origin ≡ Origin.from_dependency
  pub by_parent : r.triggered_by_run_id ≡ some parent.id

-- What the query for dependent processes gives.
abbrev IsDependent : Run → Process → Type 0
IsDependent parent p =
    (p.enabled ≡ true) × (depends_on parent.process_id p.depends_on_process_id ≡ true)

dependents-IsDependent :
    (parent : Run) (s : Store)
    → All (IsDependent parent) (get_dependent_processes parent.process_id s)
unfolding get_dependent_processes
dependents-IsDependent parent s = All-keep (IsDependent parent) _ s.processes (λ p e. ground arith)

module _ (env : Env) (parent : Run) (final : is_final_terminal parent.state ≡ true)
    (old : List Run) where
  create_dependent_run-Grew :
      (p : Process)
      → IsDue parent p
      → Keeps (Grew (IsTriggered parent) old) (create_dependent_run env p parent)
  unfolding create_dependent_run now fresh new_run
  create_dependent_run-Grew p due w g =
      exec-Keeps env (Grew (IsTriggered parent) old) (create_run (dependent_run p parent _ _))
        (λ s s' e.
          create_run-Grew (IsTriggered parent) old _ s s'
            (record {
              process = p;
              due = due;
              of_process = refl;
              is_pending = refl;
              is_dependency = refl;
              by_parent = refl;
            })
            e)
        _ g

  trigger_all-Grew :
      (ps : List Process)
      → All (IsDependent parent) ps
      → Keeps (Grew (IsTriggered parent) old) (trigger_all env parent ps)
  unfolding trigger_all
  trigger_all-Grew [] h w g = g
  trigger_all-Grew (p ∷ ps) h w g =
      trigger_all-Grew ps h.1 _ (elim (Bool-cases (triggers parent.state p.dependency_type)) [
        | inl e ↦ rw e (
            create_dependent_run-Grew p
              (record {
                enabled = h.0.0;
                dependent = h.0.1;
                triggered = triggers-IsTriggering parent.state p.dependency_type final e;
              })
              w g)
        | inr e ↦ rw e g
      ])

-- Whatever fails, the runs after `Evaluate` are the runs before it, followed by new ones; and each
-- new one is a pending run of origin `dependency` that names the completed run as its trigger, in an
-- enabled process that depends on the completed run's process with a type that its state triggers:
-- any final state for `after`, only `completed` for `after_success`.
pub evaluate-Grew :
    (env : Env) (parent : Run) (w : World)
    → Grew (IsTriggered parent) w.store.runs (evaluate env parent w).1.store
unfolding evaluate
evaluate-Grew env parent w = elim (Bool-cases (is_final_terminal parent.state)) [
  | inr e ↦ rw (e, evaluate) (Grew-refl (IsTriggered parent) w.store)
  | inl e ↦
      rw (e, evaluate)
        (fetch_then env (Grew (IsTriggered parent) w.store.runs)
          (get_dependent_processes parent.process_id) (trigger_all env parent) w
          (Grew-refl (IsTriggered parent) w.store)
          (trigger_all-Grew env parent e w.store.runs _ (dependents-IsDependent parent w.store)
            (tick w) (Grew-refl (IsTriggered parent) w.store)))
]

-- For a run that is not in a final state, `Evaluate` does nothing.
pub evaluate_ignores :
    (env : Env) (parent : Run) (w : World)
    → is_final_terminal parent.state ≡ false
    → evaluate env parent w ≡ (tt, w)
unfolding evaluate
evaluate_ignores env parent w e = rw e
