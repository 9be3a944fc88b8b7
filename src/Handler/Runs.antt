-- ===== src/Handler/Runs.antt =====
-- internal/handler/service.go, `CancelRun` and `KillRun`, against the state machine of runs.
use croncontrol.Prelude.{◌≡◌, refl, ap, ◌≢◌, ◌↔◌, ◌⊎◌, inl, inr, some, String}
use croncontrol.RunState.{
  State, pending, waiting_for_worker, queued, running, retrying, paused, kill_requested, cancelled,
  validate_transition,
}
use croncontrol.RunState.Graph.{Allows}
use croncontrol.Store.{Run, Store, to_state, apply_update, get_run, find_run}
use croncontrol.Store.Laws.{Row, get_run-find_run}
use croncontrol.World.{World, Env, ◌>>=◌, tick}
use croncontrol.World.Hoare.{IsReliable, fetch_row_reliable}
use croncontrol.Executor.Finalize.Outcome.{update_reliable}
use croncontrol.Handler.{Actor, run_status, kill_request, cancel_in, cancel_run, kill_run}

-- The state that a cancelled run is brought to.
abbrev pub after_cancel : State → State
after_cancel pending = cancelled
after_cancel queued = cancelled
after_cancel waiting_for_worker = cancelled
after_cancel paused = cancelled
after_cancel retrying = cancelled
after_cancel running = kill_requested
after_cancel s = s

-- Where the state stays, or the table of the state machine accepts the change.
abbrev pub Conforms : State → State → Type 0
Conforms from to = (to ≡ from) ⊎ Allows from to

cancel-Conforms : (s : State) → s ≢ paused → Conforms s (after_cancel s)
unfolding validate_transition
cancel-Conforms pending ne = inr refl
cancel-Conforms queued ne = inr refl
cancel-Conforms waiting_for_worker ne = inr refl
cancel-Conforms retrying ne = inr refl
cancel-Conforms running ne = inr refl
cancel-Conforms paused ne = absurd (ne refl)
cancel-Conforms _ ne = inl refl

-- The state of the row after the switch.
abbrev pub HasState : String → State → Store → Type 0
HasState id state s = (x : Run) × Row id x s × (x.state ≡ state)

module _ (env : Env) (reliable : IsReliable env) (actor : Actor) (run_id : String) (r : Run) where
  cancel_in_lem :
      (state : State) (w : World)
      → Row run_id r w.store
      → r.state ≡ state
      → ((cancel_in env actor run_id state w).0 ≡ run_status (after_cancel state))
        × HasState run_id (after_cancel state) (cancel_in env actor run_id state w).1.store
  unfolding cancel_in apply_update
  cancel_in_lem pending w found e =
      (refl, (_, update_reliable env reliable run_id (to_state cancelled) r w found, refl))
  cancel_in_lem queued w found e =
      (refl, (_, update_reliable env reliable run_id (to_state cancelled) r w found, refl))
  cancel_in_lem waiting_for_worker w found e =
      (refl, (_, update_reliable env reliable run_id (to_state cancelled) r w found, refl))
  cancel_in_lem paused w found e =
      (refl, (_, update_reliable env reliable run_id (to_state cancelled) r w found, refl))
  cancel_in_lem retrying w found e =
      (refl, (_, update_reliable env reliable run_id (to_state cancelled) r w found, refl))
  cancel_in_lem running w found e =
      (refl, (_, update_reliable env reliable run_id (kill_request actor) r w found, refl))
  cancel_in_lem _ w found e = (refl, (r, found, e))

  -- Where the database does not fail, cancelling a run of the workspace leaves its row in the state
  -- that the answer tells: `cancelled` for a run that waits, for a retry as well, `kill_requested`
  -- for one that runs, and the old state for any other; and, but for a paused run, the table of the
  -- state machine accepts the change.
  pub cancel_run_lem :
      (workspace_id : String) (w : World)
      → find_run run_id w.store ≡ some r
      → r.workspace_id ≡ workspace_id
      → let (answer, after) = cancel_run env actor run_id workspace_id w in
        (answer ≡ run_status (after_cancel r.state))
        × HasState run_id (after_cancel r.state) after.store
        × (r.state ≢ paused → Conforms r.state (after_cancel r.state))
  unfolding cancel_run
  cancel_run_lem workspace_id w found ws =
      rw (fetch_row_reliable env (get_run run_id workspace_id) w reliable, ◌>>=◌)
        (rw (get_run-find_run run_id workspace_id w.store r found ws) (
          (cancel_in_lem r.state (tick w) found refl).0,
          (cancel_in_lem r.state (tick w) found refl).1,
          cancel-Conforms r.state,
        ))

  kill-Allows : (s : State) → Allows s kill_requested → s ≡ running
  unfolding validate_transition
  kill-Allows running e = refl
  kill-Allows _ e = cc

  -- Where the database does not fail, killing a run of the workspace brings its row to
  -- `kill_requested` from every state, a terminal one included; the table of the state machine
  -- accepts that from `running` alone.
  pub kill_run_lem :
      (workspace_id : String) (w : World)
      → find_run run_id w.store ≡ some r
      → r.workspace_id ≡ workspace_id
      → (find_run run_id (kill_run env actor run_id workspace_id w).1.store
          ≡ some (apply_update (kill_request actor) r))
        × (Allows r.state kill_requested ↔ (r.state ≡ running))
  unfolding kill_run validate_transition
  kill_run_lem workspace_id w found ws =
      rw (fetch_row_reliable env (get_run run_id workspace_id) w reliable, ◌>>=◌)
        (rw (get_run-find_run run_id workspace_id w.store r found ws) (
          update_reliable env reliable run_id (kill_request actor) r (tick w) found,
          (kill-Allows r.state, λ e. ap (λ s. validate_transition s kill_requested) e),
        ))
