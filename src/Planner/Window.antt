-- ===== src/Planner/Window.antt =====
-- internal/planner/planner.go, `plan`: when the loop over the activations ends, and which runs it
-- creates.
use croncontrol.Prelude.{
  ℕ, zero, suc, ◌+◌, ◌<◌, ◌≤◌, ◌≡◌, refl, ℤ, pos_part, neg_part, ◌-ℤ◌, ◌≤ℤ◌, ◌<ℤ◌, ltb_ℤ, Bool,
  true, false, Option, none, some, List, String, Bool-cases, Option-cases, inl, inr, arith,
}
use croncontrol.RunState.{State}
use croncontrol.Store.{Origin, Run, Process, Store, create_run, new_run}
use croncontrol.Store.Growth.{Grew, Grew-refl, create_run-Grew}
use croncontrol.World.{World, Env, ◌>>=◌, fetch, fresh, tick}
use croncontrol.World.Hoare.{Keeps, exec-Keeps}
use croncontrol.Executor.Backoff.{minute}
use croncontrol.Planner.{
  Schedule, Cron, cron_run, timezone_of, schedule_text, on_exists, plan_slot, plan_slots,
  plan_process,
}

-- What the cron library documents of a schedule that has a next activation: it is later than the
-- time that is asked about.
abbrev pub IsIncreasing : Schedule → Type 0
IsIncreasing schedule = (t : ℤ) → t <ℤ schedule t

-- More steps than there are nanoseconds from `next` to `end`, both included.
abbrev IsEnough : ℤ → ℕ → ℤ → Type 0
IsEnough end fuel next =
    (0 < fuel) × (pos_part end + neg_part next + 1 < pos_part next + neg_part end + fuel)

module _ (env : Env) (proc : Process) (schedule : Schedule) (start end : ℤ) where
  -- One more step after a later activation.
  IsEnough-step :
      (fuel : ℕ) (next : ℤ)
      → IsIncreasing schedule
      → ltb_ℤ end next ≡ false
      → IsEnough end (suc fuel) next
      → IsEnough end fuel (schedule next)
  IsEnough-step fuel next inc e h = let later = inc next in ground arith

  plan_slots_ends :
      (fuel : ℕ) (next : ℤ) (w : World)
      → IsIncreasing schedule
      → IsEnough end fuel next
      → (plan_slots env proc schedule start end fuel next w).0 ≡ true
  unfolding plan_slots
  plan_slots_ends zero next w inc h = absurd (omega arith)
  plan_slots_ends (suc fuel) next w inc h = elim (Bool-cases (ltb_ℤ end next)) [
    | inl e ↦ rw (e, plan_slots) refl
    | inr e ↦ elim (Bool-cases (ltb_ℤ next start)) [
      | inl e' ↦
          rw (e, e', plan_slots)
            (plan_slots_ends fuel (schedule next) w inc (IsEnough-step fuel next inc e h))
      | inr e' ↦ elim (Bool-cases (plan_slot env proc next w).0) [
        | inl g ↦
            rw (e, e', plan_slots)
              (rw (g, ◌>>=◌)
                (plan_slots_ends fuel (schedule next) _ inc (IsEnough-step fuel next inc e h)))
        | inr g ↦ rw (e, e', plan_slots) (rw (g, ◌>>=◌) refl)
      ]
    ]
  ]

-- The loop of one process ends, whatever the database does, within two steps more than there are
-- nanoseconds from a minute before `start` to `end`, if the schedule always has a later activation.
pub plan_process_ends :
    (env : Env) (cron : Cron) (start end : ℤ) (fuel : ℕ) (proc : Process) (w : World)
    → ((tz text : String) (schedule : Schedule)
        → cron tz text ≡ some schedule
        → IsIncreasing schedule)
    → pos_part end + neg_part (start -ℤ minute) + 2
      ≤ pos_part (start -ℤ minute) + neg_part end + fuel
    → 0 < fuel
    → (plan_process env cron start end fuel proc w).0 ≡ true
unfolding plan_process
plan_process_ends env cron start end fuel proc w inc h f =
    elim (Option-cases (schedule_text proc.schedule)) [
      | inl e ↦ rw (e, plan_process) refl
      | inr (text, e) ↦ elim (Option-cases (cron (timezone_of proc.timezone) text)) [
        | inl e' ↦ rw (e, e', plan_process) refl
        | inr (schedule, e') ↦
            let inc' : IsIncreasing schedule = inc (timezone_of proc.timezone) text schedule e' in
            let later = inc' (start -ℤ minute) in
            rw (e, e', plan_process)
              (plan_slots_ends env proc schedule start end fuel (schedule (start -ℤ minute)) w inc'
                (f, omega arith))
      ]
    ]

plan_slots_hangs :
    (env : Env) (proc : Process) (schedule : Schedule) (start end zero_time : ℤ)
    → schedule zero_time ≡ zero_time
    → ltb_ℤ end zero_time ≡ false
    → ltb_ℤ zero_time start ≡ true
    → (fuel : ℕ) (w : World) → (plan_slots env proc schedule start end fuel zero_time w).0 ≡ false
unfolding plan_slots
plan_slots_hangs env proc schedule start end zero_time again e e' zero w = refl
plan_slots_hangs env proc schedule start end zero_time again e e' (suc fuel) w =
    rw (e, e', again, plan_slots)
      (plan_slots_hangs env proc schedule start end zero_time again e e' fuel w)

-- Where the schedule answers the time `zero`, before the window, for a minute before `start` and for
-- `zero` itself, the loop never ends: whatever the fuel, it runs out.
pub plan_process_hangs :
    (env : Env) (cron : Cron) (start end zero_time : ℤ) (fuel : ℕ) (proc : Process) (w : World)
    (text : String) (schedule : Schedule)
    → schedule_text proc.schedule ≡ some text
    → cron (timezone_of proc.timezone) text ≡ some schedule
    → schedule (start -ℤ minute) ≡ zero_time
    → schedule zero_time ≡ zero_time
    → zero_time <ℤ start
    → start ≤ℤ end
    → (plan_process env cron start end fuel proc w).0 ≡ false
unfolding plan_process
plan_process_hangs env cron start end zero_time fuel proc w text schedule e e' first again before
      ordered =
    rw (e, e', first, plan_process)
      (plan_slots_hangs env proc schedule start end zero_time again (ground arith) (ground arith)
        fuel w)

-- A pending run of origin `cron` of a process, due in the window.
abbrev pub IsPlanned : Process → ℤ → ℤ → Run → Type 0
IsPlanned proc start end r =
    (r.process_id ≡ proc.id)
    × (r.workspace_id ≡ proc.workspace_id)
    × (r.origin ≡ Origin.from_cron)
    × (r.state ≡ State.pending)
    × (start ≤ℤ r.scheduled_at)
    × (r.scheduled_at ≤ℤ end)

module _ (env : Env) (proc : Process) (start end : ℤ) (old : List Run) where
  abbrev Planned : Store → Type 0
  Planned = Grew (IsPlanned proc start end) old

  on_exists-Grew :
      (next : ℤ) (o : Option Bool)
      → start ≤ℤ next
      → next ≤ℤ end
      → Keeps Planned (on_exists env proc next o)
  unfolding on_exists fresh new_run
  on_exists-Grew next none lo hi w g = g
  on_exists-Grew next (some true) lo hi w g = g
  on_exists-Grew next (some false) lo hi w g =
      exec-Keeps env Planned (create_run (cron_run proc _ next))
        (λ s s' e.
          create_run-Grew (IsPlanned proc start end) old _ s s' (refl, refl, refl, refl, lo, hi) e)
        _ g

  plan_slot-Grew :
      (next : ℤ) → start ≤ℤ next → next ≤ℤ end → Keeps Planned (plan_slot env proc next)
  unfolding plan_slot fetch
  plan_slot-Grew next lo hi w g = on_exists-Grew next _ lo hi (tick w) g

  plan_slots-Grew :
      (schedule : Schedule) (fuel : ℕ) (next : ℤ)
      → Keeps Planned (plan_slots env proc schedule start end fuel next)
  unfolding plan_slots
  plan_slots-Grew schedule zero next w g = g
  plan_slots-Grew schedule (suc fuel) next w g = elim (Bool-cases (ltb_ℤ end next)) [
    | inl e ↦ rw (e, plan_slots) g
    | inr e ↦ elim (Bool-cases (ltb_ℤ next start)) [
      | inl e' ↦ rw (e, e', plan_slots) (plan_slots-Grew schedule fuel (schedule next) w g)
      | inr e' ↦
          let slot = plan_slot-Grew next (ground arith) (ground arith) w g in
          elim (Bool-cases (plan_slot env proc next w).0) [
            | inl c ↦
                rw (e, e', plan_slots)
                  (rw (c, ◌>>=◌) (plan_slots-Grew schedule fuel (schedule next) _ slot))
            | inr c ↦ rw (e, e', plan_slots) (rw (c, ◌>>=◌) slot)
          ]
    ]
  ]

-- Whatever the schedule answers and the database fails at, planning one process adds runs at most,
-- and each of them is a pending run of origin `cron` of this process, scheduled in the window.
pub plan_process-Grew :
    (env : Env) (cron : Cron) (start end : ℤ) (fuel : ℕ) (proc : Process) (w : World)
    → Grew
        (IsPlanned proc start end)
        w.store.runs
        (plan_process env cron start end fuel proc w).1.store
unfolding plan_process
plan_process-Grew env cron start end fuel proc w =
    let unchanged = Grew-refl (IsPlanned proc start end) w.store in
    elim (Option-cases (schedule_text proc.schedule)) [
      | inl e ↦ rw (e, plan_process) unchanged
      | inr (text, e) ↦ elim (Option-cases (cron (timezone_of proc.timezone) text)) [
        | inl e' ↦ rw (e, e', plan_process) unchanged
        | inr (schedule, e') ↦
            rw (e, e', plan_process)
              (plan_slots-Grew env proc start end w.store.runs schedule fuel _ w unchanged)
      ]
    ]
