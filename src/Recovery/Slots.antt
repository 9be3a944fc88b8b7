-- ===== src/Recovery/Slots.antt =====
-- internal/recovery/recovery.go, `recoverCronProcesses`: how many runs it creates.
use croncontrol.Prelude.{
  ℕ, zero, suc, ◌+◌, ◌≤◌, ◌<◌, ◌≡◌, refl, ◌≢◌, ◌⊎◌, ℤ, pos, ◌≤ℤ◌, ltb_ℤ, Bool, true, false, Option,
  none, some, [], ◌∷◌, String, length, length-append, Bool-cases, Option-cases, inl, inr, arith, ap,
}
use croncontrol.Store.{
  MissPolicy, get_last_run_by_process, Process, Store, create_run, CreateRun, new_run,
}
use croncontrol.Store.Growth.{create_run-runs}
use croncontrol.World.{World, Env, ◌>>=◌, fetch, fresh, tick}
use croncontrol.World.Hoare.{exec-cases, fetch_row-cases}
use croncontrol.Planner.{Schedule, Cron, timezone_of, schedule_text}
use croncontrol.Recovery.{
  recovery_run, on_exists, recover_slot, recover_slots, recovers, recover_missed,
  recover_cron_process, last_time,
}

abbrev total : World → ℕ
total w = length w.store.runs

module _ (env : Env) (proc : Process) where
  create-total :
      (c : CreateRun) (s s' : Store) → create_run c s ≡ some s' → length s'.runs ≡ length s.runs + 1
  create-total c s s' e =
      omega (
        arith,
        ap (λ l. length l) (create_run-runs c s s' e),
        length-append s.runs (new_run c ∷ []),
      )

  on_exists-total :
      (next : ℤ) (o : Option Bool) (w : World)
      → (total (on_exists env proc next o w).1 ≡ total w + (on_exists env proc next o w).0.1)
        × ((on_exists env proc next o w).0.1 ≤ 1)
  unfolding on_exists fresh
  on_exists-total next none w = (omega arith, omega arith)
  on_exists-total next (some true) w = (omega arith, omega arith)
  on_exists-total next (some false) w =
      let c = recovery_run proc (env.new_id w.step "run_") next in
      elim (exec-cases env (create_run c) (tick w)) [
        | inl e ↦ rw (e, ◌>>=◌) (omega arith, omega arith)
        | inr (s, q, e) ↦ rw (e, ◌>>=◌) (create-total c w.store s q, omega arith)
      ]

  slot-total :
      (next : ℤ) (w : World)
      → (total (recover_slot env proc next w).1 ≡ total w + (recover_slot env proc next w).0.1)
        × ((recover_slot env proc next w).0.1 ≤ 1)
  unfolding recover_slot fetch
  slot-total next w = on_exists-total next _ (tick w)

  slots-total :
      (schedule : Schedule) (t : ℤ) (max : ℕ)
      → proc.max_recovery_slots ≤ℤ pos max
      → (fuel created : ℕ) (next : ℤ) (w : World) → created ≤ max
      → total (recover_slots env proc schedule t fuel created next w).1 + created ≤ total w + max
  unfolding recover_slots
  slots-total schedule t max h zero created next w k = omega arith
  slots-total schedule t max h (suc fuel) created next w k = elim (Bool-cases (ltb_ℤ next t)) [
    | inr e ↦ rw (e, recover_slots) (omega arith)
    | inl e ↦ elim (Bool-cases (ltb_ℤ (pos created) proc.max_recovery_slots)) [
      | inr e' ↦ rw (e, e', recover_slots) (omega arith)
      | inl e' ↦
          let (grown, small) = slot-total next w in
          let below : created < max = ground arith in
          elim (Bool-cases (recover_slot env proc next w).0.0) [
            | inr g ↦ rw (e, e', recover_slots) (rw (g, ◌>>=◌) (omega arith))
            | inl g ↦
                rw (e, e', recover_slots)
                  (rw (g, ◌>>=◌)
                    (omega (
                      arith,
                      slots-total schedule t max h fuel
                          (created + (recover_slot env proc next w).0.1) (schedule next)
                          (recover_slot env proc next w).1 (omega arith),
                    )))
          ]
    ]
  ]

  missed-total :
      (cron : Cron) (t : ℤ) (fuel max : ℕ) (text : String) (w : World)
      → proc.max_recovery_slots ≤ℤ pos max
      → total (recover_missed env cron t fuel proc text w).1 ≤ total w + max
  unfolding recover_missed
  missed-total cron t fuel max text w h =
      elim (fetch_row-cases env (get_last_run_by_process proc.id) w) [
        | inl e ↦ rw (e, ◌>>=◌) (omega arith)
        | inr (run, e) ↦
            rw (e, ◌>>=◌)
              (elim (Option-cases (cron (timezone_of proc.timezone) text)) [
                | inl e' ↦ rw e' (omega arith)
                | inr (schedule, e') ↦ rw e' (
                    omega (
                      arith,
                      slots-total schedule t max h fuel 0 (schedule (last_time run)) (tick w)
                          (omega arith),
                    ))
              ])
      ]

recovers-cases :
    (o : Option MissPolicy)
    → (recovers o ≡ true) × (o ≡ some MissPolicy.execute_missed)
      ⊎ (recovers o ≡ false) × (o ≢ some MissPolicy.execute_missed)
recovers-cases none = inr (refl, λ e. cc)
recovers-cases (some MissPolicy.execute_missed) = inl (refl, refl)
recovers-cases (some MissPolicy.skip_missed) = inr (refl, λ e. cc)

-- Whatever the schedule answers and the database fails at, the recovery of one cron process creates
-- at most as many runs as its limit on recovery slots, and changes nothing if its policy is not to
-- execute missed runs.
pub recover_cron_process_bounded :
    (env : Env) (cron : Cron) (t : ℤ) (fuel max : ℕ) (proc : Process) (w : World)
    → proc.max_recovery_slots ≤ℤ pos max
    → let after = (recover_cron_process env cron t fuel proc w).1.store in
      (length after.runs ≤ length w.store.runs + max)
      × (proc.miss_policy ≢ some MissPolicy.execute_missed → after ≡ w.store)
unfolding recover_cron_process
recover_cron_process_bounded env cron t fuel max proc w h = elim (recovers-cases proc.miss_policy) [
  | inr (e, ne) ↦ rw (e, recover_cron_process) (omega arith, λ k. refl)
  | inl (e, q) ↦ elim (Option-cases (schedule_text proc.schedule)) [
    | inl e' ↦ rw (e, e', recover_cron_process) (omega arith, λ k. refl)
    | inr (text, e') ↦
        rw (e, e', recover_cron_process)
          (missed-total env proc cron t fuel max text w h, λ k. absurd (k q))
  ]
]
