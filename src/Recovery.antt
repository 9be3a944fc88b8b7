-- ===== src/Recovery.antt =====
-- internal/recovery/recovery.go: what is done with the store when the program starts.
pub mod Orphans
pub mod Slots
pub mod Ends
pub mod Chains
use croncontrol.Prelude.{
  ℕ, zero, suc, ◌+◌, ℤ, pos, ltb_ℤ, Bool, true, false, Option, none, some, List, [], ◌∷◌, String,
  if◌then◌else◌, ◌||◌,
}
use croncontrol.RunState.{State, is_state, is_final_terminal}
use croncontrol.Store.{
  Origin, MissPolicy, Run, Process, CreateRun, create_run, run_exists, to_state, update_run_state,
  list_running_runs, list_enabled_cron_processes, list_enabled_fixed_delay_processes,
  get_last_run_by_process,
}
use croncontrol.World.{Env, M, ◌>>=◌, ◌>>◌, done, pure, exec, fetch, fetch_row, now, fresh}
use croncontrol.Executor.Terminal.{attempt_exec}
use croncontrol.Planner.{Schedule, Cron, timezone_of, schedule_text}

abbrev pub recovery_run : Process → String → ℤ → CreateRun
recovery_run proc id t = record {
  id = id;
  workspace_id = proc.workspace_id;
  process_id = proc.id;
  scheduled_at = t;
  state = State.pending;
  origin = Origin.from_recovery;
  max_attempts = proc.max_attempts;
  actor_type = some "system";
  actor_id = none;
  triggered_by_run_id = none;
  tags = proc.tags;
}

abbrev pub recovers : Option MissPolicy → Bool
recovers (some MissPolicy.execute_missed) = true
recovers _ = false

-- `lastRun.ScheduledAt` is never NULL in the table.
abbrev pub last_time : Run → ℤ
last_time r = r.scheduled_at

module _ (env : Env) where
  -- The loop of `detectOrphans`.
  unfoldable pub mark_hung : ℤ → List Run → M (Unit {0})
  mark_hung t [] = done
  mark_hung t (r ∷ rs) = do
    attempt_exec env (update_run_state r.id (record (to_state State.hung) { finished_at = some t }))
    mark_hung t rs

  -- `detectOrphans`; the answer says that there is no error.
  unfoldable pub detect_orphans : M Bool
  detect_orphans = do
    runs ← fetch env list_running_runs
    elim runs [ none ↦ pure false | some rs ↦ do t ← now env; mark_hung t rs; pure true ]

  -- What follows the answer of `RunExists`: whether the loop goes on, and how many runs are created.
  unfoldable pub on_exists : Process → ℤ → Option Bool → M (Bool × ℕ)
  on_exists proc next none = pure (false, 0)
  on_exists proc next (some true) = pure (true, 0)
  on_exists proc next (some false) = do
    id ← fresh env "run_"
    ok ← exec env (create_run (recovery_run proc id next))
    pure (if ok then (true, 1) else (false, 0))

  -- One missed time.
  unfoldable pub recover_slot : Process → ℤ → M (Bool × ℕ)
  recover_slot proc next = do
    exists ← fetch env (run_exists proc.id next Origin.from_recovery)
    on_exists proc next exists

  -- The loop over the missed times, with fuel. The answer is the number of runs created; `none` is
  -- the fuel running out.
  unfoldable pub recover_slots : Process → Schedule → ℤ → ℕ → ℕ → ℤ → M (Option ℕ)
  recover_slots proc schedule t zero created next = pure none
  recover_slots proc schedule t (suc fuel) created next = elim (ltb_ℤ next t) [
    | false ↦ pure (some created)
    | true ↦ elim (ltb_ℤ (pos created) proc.max_recovery_slots) [
      | false ↦ pure (some created)
      | true ↦ do
        found ← recover_slot proc next
        elim found.0 [
          | false ↦ pure (some (created + found.1))
          | true ↦ recover_slots proc schedule t fuel (created + found.1) (schedule next)
        ]
    ]
  ]

  -- The body of the loop over the processes, behind the test of the miss policy.
  unfoldable pub recover_missed : Cron → ℤ → ℕ → Process → String → M (Option ℕ)
  recover_missed cron t fuel proc text = do
    last ← fetch_row env (get_last_run_by_process proc.id)
    elim last [
      | none ↦ pure (some 0)
      | some run ↦ elim (cron (timezone_of proc.timezone) text) [
        | none ↦ pure (some 0)
        | some schedule ↦ recover_slots proc schedule t fuel 0 (schedule (last_time run))
      ]
    ]

  -- The query gives processes of active workspaces only, so the test of the workspace's state in
  -- the loop always passes.
  unfoldable pub recover_cron_process : Cron → ℤ → ℕ → Process → M (Option ℕ)
  unfolding recover_missed
  recover_cron_process cron t fuel proc =
      if recovers proc.miss_policy
      then elim (schedule_text proc.schedule) [
        | none ↦ pure (some 0)
        | some text ↦ recover_missed cron t fuel proc text
      ]
      else pure (some 0)

  recover_each : Cron → ℤ → ℕ → List Process → M (Unit {0})
  recover_each cron t fuel [] = done
  recover_each cron t fuel (p ∷ ps) =
      recover_cron_process cron t fuel p >> recover_each cron t fuel ps

  -- `recoverCronProcesses`; the answer says that there is no error.
  unfoldable pub recover_cron_processes : Cron → ℕ → M Bool
  unfolding recover_each
  recover_cron_processes cron fuel = do
    processes ← fetch env list_enabled_cron_processes
    elim processes [
      | none ↦ pure false
      | some ps ↦ do t ← now env; recover_each cron t fuel ps; pure true
    ]

  abbrev pub start_chain : Process → ℤ → M (Unit {0})
  start_chain proc t = do
    id ← fresh env "run_"
    attempt_exec env (create_run (recovery_run proc id t))

  -- The body of the loop over the fixed-delay processes.
  unfoldable pub resume_chain : ℤ → Process → M (Unit {0})
  resume_chain t proc = do
    last ← fetch_row env (get_last_run_by_process proc.id)
    elim last [
      | none ↦ start_chain proc t
      | some run ↦
          if is_final_terminal run.state || is_state run.state State.hung
          then start_chain proc t
          else done
    ]

  resume_each : ℤ → List Process → M (Unit {0})
  resume_each t [] = done
  resume_each t (p ∷ ps) = resume_chain t p >> resume_each t ps

  -- `recoverFixedDelayProcesses`; the answer says that there is no error.
  unfoldable pub recover_fixed_delay_processes : M Bool
  unfolding resume_each
  recover_fixed_delay_processes = do
    processes ← fetch env list_enabled_fixed_delay_processes
    elim processes [ none ↦ pure false | some ps ↦ do t ← now env; resume_each t ps; pure true ]

  -- `Run`; the answer says that there is no error.
  unfoldable pub run_recovery : Cron → ℕ → M Bool
  run_recovery cron fuel = do
    orphans ← detect_orphans
    if orphans
        then (do
          missed ← recover_cron_processes cron fuel
          if missed then recover_fixed_delay_processes else pure false)
        else pure false
