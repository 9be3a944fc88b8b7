-- ===== src/Recovery/Chains.antt =====
-- internal/recovery/recovery.go, `recoverFixedDelayProcesses`: when a chain of runs is started.
use croncontrol.Prelude.{
  suc, ◌≡◌, refl, ℤ, true, false, Option, none, some, [], ◌∷◌, ◌++◌, String, ◌||◌,
}
use croncontrol.RunState.{State, is_state, is_final_terminal}
use croncontrol.Store.{Run, Process, Store, create_run, new_run, get_last_run_by_process}
use croncontrol.Store.Growth.{create_run-runs}
use croncontrol.World.{World, Env, ◌>>=◌, ◌>>◌, exec, fetch_row, fresh, tick}
use croncontrol.Recovery.{recovery_run, resume_chain}

-- The chain of the process goes on by itself: its last run is neither in a final state nor hung.
abbrev pub IsLive : Run → Type 0
IsLive r = (is_final_terminal r.state || is_state r.state State.hung) ≡ false

query_succeeds :
    (env : Env) (id : String) (w : World) (last : Run)
    → env.db_fails w.step ≡ false
    → get_last_run_by_process id w.store ≡ some last
    → fetch_row env (get_last_run_by_process id) w ≡ (some last, tick w)
unfolding fetch_row
query_succeeds env id w last e found = rw (e, found) refl

query_fails :
    (env : Env) (id : String) (w : World)
    → env.db_fails w.step ≡ true
    → fetch_row env (get_last_run_by_process id) w ≡ (none, tick w)
unfolding fetch_row
query_fails env id w e = rw e refl

statement_succeeds :
    (env : Env) (f : Store → Option Store) (w : World) (s : Store)
    → env.db_fails w.step ≡ false
    → f w.store ≡ some s
    → exec env f w ≡ (true, record (tick w) { store = s })
unfolding exec
statement_succeeds env f w s e q = rw (e, q) refl

-- For a fixed-delay process whose last run is live: where the query for that run succeeds, nothing
-- is changed; where it fails, the failure is taken for the absence of a run, and a new pending run is
-- added although the chain is live, if the statement that creates it succeeds.
pub resume_chain_lem :
    (env : Env) (t : ℤ) (proc : Process) (last : Run) (w : World)
    → get_last_run_by_process proc.id w.store ≡ some last
    → IsLive last
    → let wanted = recovery_run proc (env.new_id (suc w.step) "run_") t in
      (env.db_fails w.step ≡ false → (resume_chain env t proc w).1.store ≡ w.store)
      × ((s : Store)
          → env.db_fails w.step ≡ true
          → env.db_fails (suc (suc w.step)) ≡ false
          → create_run wanted w.store ≡ some s
          → (resume_chain env t proc w).1.store.runs ≡ w.store.runs ++ new_run wanted ∷ [])
unfolding resume_chain fresh
resume_chain_lem env t proc last w found live = (
  λ e. rw (query_succeeds env proc.id w last e found, ◌>>=◌) (rw live refl),
  λ s e works admitted.
      let wanted = recovery_run proc (env.new_id (suc w.step) "run_") t in
      rw (query_fails env proc.id w e, ◌>>=◌)
        (rw (statement_succeeds env (create_run wanted) (tick (tick w)) s works admitted, ◌>>◌)
          (create_run-runs wanted w.store s admitted)),
)
