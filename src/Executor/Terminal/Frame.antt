-- ===== src/Executor/Terminal/Frame.antt =====
-- internal/executor/orchestrator.go, `handleTerminal`: the rows that are there.
use croncontrol.Prelude.{
  ◌≡◌, ◌≢◌, ◌∙◌, ℤ, some, String, Bool-cases, inl, inr, subst, ◌&&◌, Option-cases,
}
use croncontrol.RunState.{State, continues_fixed_delay_chain}
use croncontrol.Store.{Run, Process, update_run, create_run, is_fixed_delay, CreateRun}
use croncontrol.Store.Laws.{Row, KeepsId, find_run-update_run_ne, find_run-create_run}
use croncontrol.World.{Env, now, fresh}
use croncontrol.World.Hoare.{Keeps, exec-Keeps}
use croncontrol.Executor.Terminal.{
  Hooks, attempt_exec, create_chain_run, continue_chain, run_hook, handle_terminal,
}

module _ (env : Env) (j : String) (r : Run) where
  -- A statement that changes another row.
  pub change-Keeps :
      (id : String) (f : Run → Run)
      → KeepsId f
      → j ≢ id
      → Keeps (Row j r) (attempt_exec env (λ s. some (update_run id f s)))
  change-Keeps id f k ne =
      exec-Keeps env (Row j r) (λ s. some (update_run id f s))
        (λ s s' e p.
          let q : update_run id f s ≡ s' = cc in
          subst (Row j r) q (find_run-update_run_ne id j f s k ne ∙ p))

  pub create_run-Keeps : (c : CreateRun) → Keeps (Row j r) (attempt_exec env (create_run c))
  create_run-Keeps c =
      exec-Keeps env (Row j r) (create_run c) (λ s s' e p. find_run-create_run c s s' j r e p)

  create_chain_run-Keeps :
      (proc : Process) (delay : ℤ) → Keeps (Row j r) (create_chain_run env proc delay)
  unfolding create_chain_run now fresh
  create_chain_run-Keeps proc delay w p = create_run-Keeps _ _ p

  continue_chain-Keeps :
      (proc : Process) (state : State) → Keeps (Row j r) (continue_chain env proc state)
  unfolding continue_chain
  continue_chain-Keeps proc state w p =
      elim (Bool-cases (is_fixed_delay proc.schedule_type && continues_fixed_delay_chain state)) [
        | inr e ↦ rw e p
        | inl e ↦ rw e (elim (Option-cases proc.delay_duration) [
          | inl n ↦ rw n p
          | inr (d, q) ↦ rw q (elim (Option-cases (env.parse_duration d)) [
            | inl n ↦ rw n p
            | inr (delay, q') ↦ rw q' (create_chain_run-Keeps proc delay w p)
          ])
        ])
      ]

  -- The callback leaves the row as it is.
  abbrev pub IsFrame : Hooks → Type 0
  IsFrame hooks = (run : Run) (proc : Process) → Keeps (Row j r) (run_hook env hooks run proc)

  pub handle_terminal-Keeps :
      (hooks : Hooks) (run : Run) (proc : Process) (state : State)
      → IsFrame hooks
      → Keeps (Row j r) (handle_terminal env hooks run proc state)
  unfolding handle_terminal
  handle_terminal-Keeps hooks run proc state frame w p =
      frame run proc (continue_chain env proc state w).1 (continue_chain-Keeps proc state w p)
