-- ===== src/Executor/Kill.antt =====
-- internal/executor/orchestrator.go, `Kill` and `processKillRequests`, and `loadPersistedRunHandle` of
-- internal/executor/async_runs.go.
use croncontrol.Prelude.{Option, none, some, List, [], ◌∷◌, String, if◌then◌else◌, same}
use croncontrol.Store.{Run, list_kill_requested_runs, find_run}
use croncontrol.World.{Env, M, ◌>>=◌, ◌>>◌, done, pure, send, Signal, fetch, fetch_row, call}
use croncontrol.Executor.Method.{Handle, get}

-- `running.Load`.
abbrev pub load_running : String → List (String × Handle) → Option Handle
load_running id [] = none
load_running id ((k, h) ∷ rest) =
    let found = load_running id rest in if same k id then some h else found

module _ (env : Env) where
  -- `loadPersistedRunHandle`; `none` is an error or no handle.
  unfoldable pub load_persisted_run_handle : String → M (Option Handle)
  load_persisted_run_handle run_id = do
    row ← fetch_row env (find_run run_id)
    elim row [
      | none ↦ pure none
      | some r ↦ elim r.execution_handle [
        | none ↦ pure none
        | some text ↦ pure (env.decode_handle text)
      ]
    ]

  -- A call of the kill method that the handle names, if it is registered.
  kill_handle : Handle → M (Unit {0})
  kill_handle handle = elim (get handle.method_name env.registry) [
    | none ↦ done
    | some method ↦ do err ← call env (λ n. method.kill n handle); send (Signal.kill_sent handle)
  ]

  -- `Orchestrator.Kill`.
  unfoldable pub kill : String → M (Unit {0})
  unfolding kill_handle
  kill run_id w = elim (load_running run_id w.running) [
    | some handle ↦ kill_handle handle w
    | none ↦
        (do
          loaded ← load_persisted_run_handle run_id
          elim loaded [ none ↦ done | some handle ↦ kill_handle handle ])
          w
  ]

  kill_runs : List Run → M (Unit {0})
  kill_runs [] = done
  kill_runs (r ∷ rs) = kill r.id >> kill_runs rs

  -- `processKillRequests`: the goroutines in the order of the rows.
  unfoldable pub process_kill_requests : M (Unit {0})
  unfolding kill_runs
  process_kill_requests = do
    rows ← fetch env list_kill_requested_runs
    elim rows [ none ↦ done | some rs ↦ kill_runs rs ]
