-- ===== src/Planner.antt =====
-- internal/planner/planner.go: the runs of cron processes in the planning window.
--
-- The cron library, github.com/robfig/cron, and the time zone database are parameters.
pub mod Window
use croncontrol.Prelude.{
  ℕ, zero, suc, ℤ, pos, ◌+ℤ◌, ◌-ℤ◌, ltb_ℤ, Bool, true, false, not, Option, none, some, List, [],
  ◌∷◌, String, same, if◌then◌else◌,
}
use croncontrol.RunState.{State}
use croncontrol.Store.{
  Origin, Process, CreateRun, create_run, run_exists, list_enabled_cron_processes,
}
use croncontrol.World.{Env, M, ◌>>=◌, ◌>>◌, done, pure, exec, fetch, now, fresh}
use croncontrol.Executor.Backoff.{minute}

-- `Schedule.Next`, in a location and back in UTC: the next time after the given one.
abbrev pub Schedule : Type 0
Schedule = ℤ → ℤ

-- `time.LoadLocation` and `Parser.Parse`: the schedule of an expression in a time zone; `none` is an
-- error of either.
abbrev pub Cron : Type 0
Cron = String → String → Option Schedule

-- The time zone of a process: UTC if it has none.
abbrev pub timezone_of : Option String → String
timezone_of none = "UTC"
timezone_of (some tz) = if same tz "" then "UTC" else tz

-- `none` is the nil and the empty expression.
abbrev pub schedule_text : Option String → Option String
schedule_text none = none
schedule_text (some s) = if same s "" then none else some s

abbrev pub cron_run : Process → String → ℤ → CreateRun
cron_run proc id next = record {
  id = id;
  workspace_id = proc.workspace_id;
  process_id = proc.id;
  scheduled_at = next;
  state = State.pending;
  origin = Origin.from_cron;
  max_attempts = proc.max_attempts;
  actor_type = some "system";
  actor_id = none;
  triggered_by_run_id = none;
  tags = proc.tags;
}

module _ (env : Env) where
  -- What follows the answer of `RunExists`; the answer says that the loop goes on.
  unfoldable pub on_exists : Process → ℤ → Option Bool → M Bool
  on_exists proc next none = pure false
  on_exists proc next (some true) = pure true
  on_exists proc next (some false) = do
    id ← fresh env "run_"
    exec env (create_run (cron_run proc id next))

  -- One activation in the window.
  unfoldable pub plan_slot : Process → ℤ → M Bool
  plan_slot proc next = do
    exists ← fetch env (run_exists proc.id next Origin.from_cron)
    on_exists proc next exists

  -- The loop over the activations, with fuel; the answer `false` is the fuel running out.
  unfoldable pub plan_slots : Process → Schedule → ℤ → ℤ → ℕ → ℤ → M Bool
  plan_slots proc schedule start end zero next = pure false
  plan_slots proc schedule start end (suc fuel) next = elim (ltb_ℤ end next) [
    | true ↦ pure true
    | false ↦ elim (ltb_ℤ next start) [
      | true ↦ plan_slots proc schedule start end fuel (schedule next)
      | false ↦ do
        go_on ← plan_slot proc next
        elim go_on [
          | true ↦ plan_slots proc schedule start end fuel (schedule next)
          | false ↦ pure true
        ]
    ]
  ]

  -- The body of the loop over the processes.
  unfoldable pub plan_process : Cron → ℤ → ℤ → ℕ → Process → M Bool
  plan_process cron start end fuel proc = elim (schedule_text proc.schedule) [
    | none ↦ pure true
    | some text ↦ elim (cron (timezone_of proc.timezone) text) [
      | none ↦ pure true
      | some schedule ↦ plan_slots proc schedule start end fuel (schedule (start -ℤ minute))
    ]
  ]

  unfoldable pub plan_processes : Cron → ℤ → ℤ → ℕ → List Process → M Bool
  plan_processes cron start end fuel [] = pure true
  plan_processes cron start end fuel (p ∷ ps) = do
    finished ← plan_process cron start end fuel p
    rest ← plan_processes cron start end fuel ps
    pure (if finished then rest else false)

  -- `plan`, with the horizon of the planner.
  unfoldable pub plan : Cron → ℤ → ℕ → M Bool
  plan cron horizon fuel = do
    processes ← fetch env list_enabled_cron_processes
    elim processes [
      | none ↦ pure true
      | some ps ↦ do t ← now env; plan_processes cron t (t +ℤ horizon) fuel ps
    ]
