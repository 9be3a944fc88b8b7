-- ===== src/Recovery/Ends.antt =====
-- internal/recovery/recovery.go, `recoverCronProcesses`: when the loop over the missed times ends.
use croncontrol.Prelude.{
  ℕ, zero, suc, ◌+◌, ◌<◌, ◌≤◌, ◌≡◌, refl, ap, ℤ, pos, pos_part, neg_part, ltb_ℤ, true, Option, some,
  String, Bool-cases, Option-cases, inl, inr, arith,
}
use croncontrol.Store.{Run, Process, Store, get_last_run_by_process}
use croncontrol.World.{World, Env, ◌>>=◌, fetch_row, tick}
use croncontrol.World.Hoare.{fetch_row-cases}
use croncontrol.Planner.{Schedule, Cron, timezone_of, schedule_text}
use croncontrol.Planner.Window.{IsIncreasing}
use croncontrol.Recovery.{
  recover_slot, recover_slots, recover_missed, recover_cron_process, recovers,
}

-- The loop ended before the fuel.
abbrev pub Ended : Option ℕ → Type 0
Ended o = (n : ℕ) × (o ≡ some n)

-- More steps than there are nanoseconds from `next` to `t`.
abbrev IsEnough : ℤ → ℕ → ℤ → Type 0
IsEnough t fuel next = (0 < fuel) × (pos_part t + neg_part next < pos_part next + neg_part t + fuel)

fetch_row-some :
    (env : Env) (f : Store → Option Run) (w : World) (r : Run)
    → fetch_row env f w ≡ (some r, tick w)
    → f w.store ≡ some r
unfolding fetch_row
fetch_row-some env f w r h = elim (Bool-cases (env.db_fails w.step)) [
  | inl e ↦ absurd (ground (arith, e, ap (λ x. x.0) h))
  | inr e ↦ ground (arith, e, ap (λ x. x.0) h)
]

module _ (env : Env) (proc : Process) (schedule : Schedule) (t : ℤ)
    (inc : IsIncreasing schedule) where
  IsEnough-step :
      (fuel : ℕ) (next : ℤ)
      → ltb_ℤ next t ≡ true
      → IsEnough t (suc fuel) next
      → IsEnough t fuel (schedule next)
  IsEnough-step fuel next e h = let later = inc next in ground arith

  recover_slots_end :
      (fuel created : ℕ) (next : ℤ) (w : World)
      → IsEnough t fuel next
      → Ended (recover_slots env proc schedule t fuel created next w).0
  unfolding recover_slots
  recover_slots_end zero created next w h = absurd (omega arith)
  recover_slots_end (suc fuel) created next w h = elim (Bool-cases (ltb_ℤ next t)) [
    | inr e ↦ rw (e, recover_slots) (created, refl)
    | inl e ↦ elim (Bool-cases (ltb_ℤ (pos created) proc.max_recovery_slots)) [
      | inr e' ↦ rw (e, e', recover_slots) (created, refl)
      | inl e' ↦ elim (Bool-cases (recover_slot env proc next w).0.0) [
        | inr g ↦ rw (e, e', recover_slots) (rw (g, ◌>>=◌) (_, refl))
        | inl g ↦
            rw (e, e', recover_slots)
              (rw (g, ◌>>=◌)
                (recover_slots_end fuel _ (schedule next) _ (IsEnough-step fuel next e h)))
      ]
    ]
  ]

recover_missed_ends :
    (env : Env) (cron : Cron) (t : ℤ) (fuel : ℕ) (proc : Process) (text : String) (w : World)
    → ((tz text : String) (schedule : Schedule)
        → cron tz text ≡ some schedule
        → IsIncreasing schedule)
    → ((r : Run)
        → get_last_run_by_process proc.id w.store ≡ some r
        → pos_part t + neg_part r.scheduled_at + 2 ≤ pos_part r.scheduled_at + neg_part t + fuel)
    → 0 < fuel
    → Ended (recover_missed env cron t fuel proc text w).0
unfolding recover_missed
recover_missed_ends env cron t fuel proc text w inc enough some_fuel =
    elim (fetch_row-cases env (get_last_run_by_process proc.id) w) [
      | inl e ↦ rw (e, ◌>>=◌) (0, refl)
      | inr (run, e) ↦
          rw (e, ◌>>=◌)
            (elim (Option-cases (cron (timezone_of proc.timezone) text)) [
              | inl e' ↦ rw e' (0, refl)
              | inr (schedule, e') ↦
                  let inc' : IsIncreasing schedule =
                    inc (timezone_of proc.timezone) text schedule e' in
                  let later = inc' run.scheduled_at in
                  let bound =
                    enough run (fetch_row-some env (get_last_run_by_process proc.id) w run e) in
                  rw e' (
                    recover_slots_end env proc schedule t inc' fuel 0 (schedule run.scheduled_at)
                      (tick w) (some_fuel, omega (arith, later, bound)))
            ])
    ]

-- The loop over the missed times of a cron process ends, whatever the database does, within two
-- steps more than there are nanoseconds from the time of its last run to `t`, if the schedule always
-- has a later activation.
pub recover_cron_process_ends :
    (env : Env) (cron : Cron) (t : ℤ) (fuel : ℕ) (proc : Process) (w : World)
    → ((tz text : String) (schedule : Schedule)
        → cron tz text ≡ some schedule
        → IsIncreasing schedule)
    → ((r : Run)
        → get_last_run_by_process proc.id w.store ≡ some r
        → pos_part t + neg_part r.scheduled_at + 2 ≤ pos_part r.scheduled_at + neg_part t + fuel)
    → 0 < fuel
    → Ended (recover_cron_process env cron t fuel proc w).0
unfolding recover_cron_process
recover_cron_process_ends env cron t fuel proc w inc enough some_fuel =
    elim (Bool-cases (recovers proc.miss_policy)) [
      | inr e ↦ rw (e, recover_cron_process) (0, refl)
      | inl e ↦ elim (Option-cases (schedule_text proc.schedule)) [
        | inl e' ↦ rw (e, e', recover_cron_process) (0, refl)
        | inr (text, e') ↦
            rw (e, e', recover_cron_process)
              (recover_missed_ends env cron t fuel proc text w inc enough some_fuel)
      ]
    ]
