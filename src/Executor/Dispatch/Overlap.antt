-- ===== src/Executor/Dispatch/Overlap.antt =====
-- internal/executor/orchestrator.go, `dispatch`: the overlap check.
use croncontrol.Prelude.{
  ◌≡◌, refl, ◌<◌, ◌≤◌, true, false, not, some, if◌then◌else◌, ltb, ◌&&◌, arith,
}
use croncontrol.RunState.{State, is_final_terminal}
use croncontrol.Store.{
  ScheduleType, cron, OnOverlap, Run, Process, Store, to_state, apply_update, update_run,
  update_run_state, get_process, count_active_by_process, is_cron, is_fixed_delay,
}
use croncontrol.World.{World, Env, ◌>>=◌, tick}
use croncontrol.World.Hoare.{IsReliable, fetch_reliable, fetch_row_reliable, exec_reliable}
use croncontrol.Dependency.{evaluate}
use croncontrol.Dependency.Triggers.{evaluate_ignores}
use croncontrol.Executor.Terminal.{Hooks, update_state, continue_chain, handle_terminal}
use croncontrol.Executor.Dispatch.{route, overlap, check_overlap, dispatch}

module _ (env : Env) (reliable : IsReliable env) (hooks : Hooks) (run : Run) (proc : Process)
    (w : World) where
  check_overlap_lem :
      (v : World)
      → check_overlap env hooks run proc v
        ≡ (if ltb 1 (count_active_by_process proc.id v.store)
              then overlap env hooks run proc
              else route env hooks run proc)
            (tick v)
  unfolding check_overlap
  check_overlap_lem v =
      rw (fetch_reliable env (count_active_by_process proc.id) v reliable, ◌>>=◌) refl

  -- Where the database does not fail and the process of a claimed run is found: the run of a cron
  -- process that does not allow parallel runs is held back if the query counts two or more active
  -- runs of the process, and starts if it counts one or none; any other run starts.
  pub dispatch_lem :
      get_process run.process_id run.workspace_id w.store ≡ some proc
      → let blocked = is_cron proc.schedule_type && not proc.allow_parallel in
        let active = count_active_by_process proc.id w.store in
        (blocked ≡ true
          → 1 < active
          → dispatch env hooks run w ≡ overlap env hooks run proc (tick (tick w)))
        × (blocked ≡ true
            → active ≤ 1
            → dispatch env hooks run w ≡ route env hooks run proc (tick (tick w)))
        × (blocked ≡ false → dispatch env hooks run w ≡ route env hooks run proc (tick w))
  unfolding dispatch
  dispatch_lem found =
      rw (fetch_row_reliable env (get_process run.process_id run.workspace_id) w reliable, ◌>>=◌)
        (rw found (
          λ b h. rw b (rw (check_overlap_lem (tick w)) (rw (over h) refl)),
          λ b h. rw b (rw (check_overlap_lem (tick w)) (rw (under h) refl)),
          λ b. rw b refl,
        ))
    where
      over :
          1 < count_active_by_process proc.id w.store
          → ltb 1 (count_active_by_process proc.id w.store) ≡ true
      over h = ground arith

      under :
          count_active_by_process proc.id w.store ≤ 1
          → ltb 1 (count_active_by_process proc.id w.store) ≡ false
      under h = ground arith

  not_chained :
      (state : State) (v : World)
      → is_cron proc.schedule_type ≡ true
      → continue_chain env proc state v ≡ (tt, v)
  unfolding continue_chain
  not_chained state v e = rw (cron_not_fixed proc.schedule_type e) refl
    where
      cron_not_fixed : (t : ScheduleType) → is_cron t ≡ true → is_fixed_delay t ≡ false
      cron_not_fixed cron h = refl
      cron_not_fixed _ h = cc

  -- With the dependency resolver as the callback on terminal runs, as the program wires it, a
  -- claimed run that is skipped because of an overlap starts no dependent run: the resolver is
  -- given the row as it was claimed, which is not in a final state. The store changes in the row of
  -- the skipped run and nowhere else.
  pub skip_triggers_nothing :
      get_process run.process_id run.workspace_id w.store ≡ some proc
      → hooks.on_run_terminal ≡ some (λ r p. evaluate env r)
      → is_cron proc.schedule_type ≡ true
      → proc.allow_parallel ≡ false
      → proc.on_overlap ≡ OnOverlap.skip
      → 1 < count_active_by_process proc.id w.store
      → is_final_terminal run.state ≡ false
      → (dispatch env hooks run w).1.store
        ≡ update_run run.id (apply_update (to_state State.skipped)) w.store
  unfolding overlap handle_terminal update_state update_run_state
  skip_triggers_nothing found wired is_cron_process serial skips busy live =
      rw ((dispatch_lem found).0 (ground arith) busy) (
        rw (skips, overlap)
          (rw
            (exec_reliable env (update_run_state run.id (to_state State.skipped)) (tick (tick w))
              after reliable refl)
            (rw (not_chained State.skipped _ is_cron_process, handle_terminal)
              (rw wired (rw (evaluate_ignores env run _ live) refl)))))
    where
      after : Store
      after = update_run run.id (apply_update (to_state State.skipped)) w.store
