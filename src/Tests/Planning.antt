-- ===== src/Tests/Planning.antt =====
-- The theorems on the planner and on recovery, at concrete schedules and tables.
use croncontrol.Prelude.{
  ◌+◌, ◌≤◌, ◌≡◌, refl, pos, pos_part, neg_part, ◌+ℤ◌, ◌-ℤ◌, +ℤ_parts, true, false, Option, none,
  some, [], ◌∷◌, String, length, same, arith, subst,
}
use croncontrol.RunState.{is_final_terminal}
use croncontrol.Store.{Run, list_running_runs, get_last_run_by_process}
use croncontrol.Store.Growth.{Grew}
use croncontrol.World.{World}
use croncontrol.Executor.Backoff.{minute}
use croncontrol.Planner.{Schedule, Cron, plan_process}
use croncontrol.Planner.Window.{
  IsIncreasing, IsPlanned, plan_process_ends, plan_process_hangs, plan_process-Grew,
}
use croncontrol.Recovery.{detect_orphans, recover_cron_process, resume_chain}
use croncontrol.Recovery.Orphans.{detect_orphans_lem}
use croncontrol.Recovery.Slots.{recover_cron_process_bounded}
use croncontrol.Recovery.Ends.{Ended, recover_cron_process_ends}
use croncontrol.Recovery.Chains.{resume_chain_lem}
use croncontrol.Tests.Samples.{
  pending_run, running_run, completed_run, cron_process, world_of, reliable_env,
}

-- Every minute.
abbrev every_minute : Cron
every_minute timezone text = some (λ t. t +ℤ minute)

later : IsIncreasing (λ t. t +ℤ minute)
later t = omega (arith, +ℤ_parts t minute)

abbrev empty_world : World
empty_world = world_of []

plan_process-Grew_example :
    Grew
      (IsPlanned cron_process (pos 0) (pos 180000000000))
      []
      (plan_process reliable_env every_minute
        (pos 0)
        (pos 180000000000)
        5
        cron_process
        empty_world).1.store
plan_process-Grew_example =
    plan_process-Grew reliable_env every_minute (pos 0) (pos 180000000000) 5 cron_process
      empty_world

abbrev Increases : Option Schedule → Type 0
Increases none = Unit
Increases (some schedule) = IsIncreasing schedule

-- Whatever its arguments, a schedule of every minute is increasing.
all-IsIncreasing :
    (tz text : String) (schedule : Schedule)
    → every_minute tz text ≡ some schedule
    → IsIncreasing schedule
all-IsIncreasing tz text schedule e = subst Increases e later

plan_process_ends_example :
    (plan_process reliable_env every_minute minute
      (pos 180000000000)
      180000000002
      cron_process
      empty_world).0
    ≡ true
unfolding ◌-ℤ◌
plan_process_ends_example =
    plan_process_ends reliable_env every_minute minute (pos 180000000000) 180000000002 cron_process
      empty_world all-IsIncreasing (omega arith) (omega arith)

-- A schedule that never fires answers the time 0.
abbrev never : Cron
never timezone text = some (λ t. pos 0)

plan_process_hangs_example :
    (plan_process reliable_env never (pos 5) (pos 10) 100 cron_process empty_world).0 ≡ false
unfolding same
plan_process_hangs_example =
    plan_process_hangs reliable_env never (pos 5) (pos 10) (pos 0) 100 cron_process empty_world
      "* * * * *" (λ t. pos 0) refl refl refl refl (omega arith) (omega arith)

detect_orphans_example :
    list_running_runs
      (detect_orphans reliable_env (world_of (running_run ∷ pending_run ∷ []))).1.store
    ≡ []
detect_orphans_example =
    detect_orphans_lem reliable_env (world_of (running_run ∷ pending_run ∷ [])) (λ n. refl)

abbrev one_completed : World
one_completed = world_of (completed_run ∷ [])

recover_cron_process_example :
    length
      (recover_cron_process reliable_env every_minute
        (pos 600000000000)
        20
        cron_process
        one_completed).1.store.runs
    ≤ 3
recover_cron_process_example =
    (recover_cron_process_bounded reliable_env every_minute (pos 600000000000) 20 2 cron_process
      one_completed (omega arith)).0

abbrev one_running : World
one_running = world_of (running_run ∷ [])

resume_chain_example :
    (resume_chain reliable_env (pos 9) cron_process one_running).1.store ≡ one_running.store
unfolding get_last_run_by_process is_final_terminal same
resume_chain_example =
    (resume_chain_lem reliable_env (pos 9) cron_process running_run one_running refl refl).0 refl

abbrev LongEnough : Option Run → Type 0
LongEnough none = Unit
LongEnough (some r) =
    600000000000 + neg_part r.scheduled_at + 2 ≤ pos_part r.scheduled_at + 600000000001

-- The last run is due at the time 1.
long_enough :
    (r : Run) → get_last_run_by_process "prc_1" one_completed.store ≡ some r → LongEnough (some r)
unfolding get_last_run_by_process same
long_enough r e = subst LongEnough e at_one
  where
    at_one : 600000000000 + 0 + 2 ≤ 1 + 600000000001
    at_one = omega arith

recover_cron_process_ends_example :
    Ended
      (recover_cron_process reliable_env every_minute
        (pos 600000000000)
        600000000001
        cron_process
        one_completed).0
recover_cron_process_ends_example =
    recover_cron_process_ends reliable_env every_minute (pos 600000000000) 600000000001 cron_process
      one_completed all-IsIncreasing (λ r e. omega (arith, long_enough r e)) (omega arith)
