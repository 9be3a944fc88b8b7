-- ===== src/Handler/Pausing.antt =====
-- internal/handler/service.go, `PauseProcess` and `ResumeProcess`: what a pause keeps.
use croncontrol.Prelude.{
  ◌≡◌, refl, ap, sym, ◌∙◌, Bool, true, false, Option, some, List, [], ◌∷◌, String, same, ◌&&◌,
  update_where, All, Bool-cases, inl, inr,
}
use croncontrol.RunState.{pending, paused}
use croncontrol.Store.{
  Run, Process, Store, set_process_enabled, bulk_pause_runs, bulk_resume_runs, bulk_update,
}
use croncontrol.Store.Bulk.{selects, bulk_resume-bulk_pause}
use croncontrol.World.{World, Env}
use croncontrol.World.Hoare.{IsReliable, exec_reliable}
use croncontrol.Executor.Terminal.{attempt_exec}
use croncontrol.Handler.{pause_process, resume_process}

-- The store after a statement that succeeds.
attempt_store :
    (env : Env) (reliable : IsReliable env) (f : Store → Option Store) (w : World) (s s' : Store)
    → w.store ≡ s
    → f s ≡ some s'
    → (attempt_exec env f w).1.store ≡ s'
attempt_store env reliable f w s s' e q = rw (exec_reliable env f w s' reliable (ap f e ∙ q)) refl

module _ (process_id workspace_id : String) where
  abbrev pub is_process : Process → Bool
  is_process p = same p.id process_id && same p.workspace_id workspace_id

  abbrev with_enabled : Bool → Process → Process
  with_enabled b p = record p { enabled = b }

  abbrev enable : Bool → List Process → List Process
  enable b ps = update_where is_process (with_enabled b) ps

  enable_again :
      (ps : List Process)
      → All (λ p. is_process p ≡ true → p.enabled ≡ true) ps
      → enable true (enable false ps) ≡ ps
  enable_again [] h = refl
  enable_again (p ∷ ps) h = elim (Bool-cases (is_process p)) [
    | inl e ↦ rw (e, e, enable_again ps h.1) (ap (λ b. record p { enabled = b } ∷ ps) (sym (h.0 e)))
    | inr e ↦ rw (e, e, enable_again ps h.1) refl
  ]

  -- To pause an enabled process without cancelling its pending runs and to resume it gives the store
  -- back, where the database does not fail and no run of the process was paused before.
  pub resume_process-pause_process :
      (env : Env) (w : World)
      → IsReliable env
      → All (λ p. is_process p ≡ true → p.enabled ≡ true) w.store.processes
      → All (λ r. selects process_id workspace_id paused r ≡ false) w.store.runs
      → (resume_process env process_id workspace_id
          (pause_process env false process_id workspace_id w).1).1.store
        ≡ w.store
  unfolding pause_process resume_process set_process_enabled bulk_pause_runs bulk_resume_runs
  resume_process-pause_process env w reliable enabled none_paused =
      attempt_store env reliable (bulk_resume_runs process_id workspace_id) _ _ _
        (attempt_store env reliable (set_process_enabled process_id workspace_id true) _ _ _
          (attempt_store env reliable (bulk_pause_runs process_id workspace_id) _ _ _
            (attempt_store env reliable (set_process_enabled process_id workspace_id false) w _ _
              refl refl)
            refl)
          refl)
        (ap
            (λ ps.
              bulk_resume_runs process_id workspace_id
                (record w.store { processes = ps; runs = paused_runs }))
            (enable_again w.store.processes enabled)
          ∙ bulk_resume-bulk_pause process_id workspace_id w.store
              (bulk_update pending paused process_id workspace_id w.store) none_paused refl)
    where
      paused_runs : List Run
      paused_runs = (bulk_update pending paused process_id workspace_id w.store).runs
