-- ===== src/Store/Bulk.antt =====
-- internal/db/runs.sql.go, `BulkPauseRuns` and `BulkResumeRuns`.
use croncontrol.Prelude.{
  ◌≡◌, refl, sym, ◌∙◌, ap, Bool, true, false, some, List, [], ◌∷◌, String, ◌&&◌, same, update_where,
  All, Bool-cases, inl, inr, arith,
}
use croncontrol.RunState.{State, pending, paused, is_state}
use croncontrol.Store.Tables.{Run, Store}
use croncontrol.Store.Lists.{bulk_update, bulk_pause_runs, bulk_resume_runs}

-- A run that the query for this process, workspace and state selects.
abbrev pub selects : String → String → State → Run → Bool
selects process_id workspace_id from r =
    same r.process_id process_id && same r.workspace_id workspace_id && is_state r.state from

is_state-pending : (s : State) → is_state s pending ≡ true → s ≡ pending
is_state-pending pending h = refl
is_state-pending _ h = cc

module _ (process_id workspace_id : String) where
  abbrev set : State → Run → Run
  set s r = record r { state = s }

  selected :
      (r : Run)
      → selects process_id workspace_id pending r ≡ true
      → selects process_id workspace_id paused (set paused r) ≡ true
  selected r e = ground arith

  restored :
      (r : Run) → selects process_id workspace_id pending r ≡ true → set pending (set paused r) ≡ r
  restored r e =
      let was : is_state r.state pending ≡ true = ground arith in
      ap (λ s. record r { state = s }) (sym (is_state-pending r.state was))

  resume_pause :
      (rs : List Run)
      → All (λ r. selects process_id workspace_id paused r ≡ false) rs
      → update_where
          (selects process_id workspace_id paused)
          (set pending)
          (update_where (selects process_id workspace_id pending) (set paused) rs)
        ≡ rs
  resume_pause [] h = refl
  resume_pause (r ∷ rs) h = elim (Bool-cases (selects process_id workspace_id pending r)) [
    | inl e ↦ rw (e, selected r e, resume_pause rs h.1) (ap (λ x. x ∷ rs) (restored r e))
    | inr e ↦ rw (e, h.0, resume_pause rs h.1) refl
  ]

-- To pause the pending runs of a process and to resume them gives the table back, if no run of the
-- process was paused before.
pub bulk_resume-bulk_pause :
    (process_id workspace_id : String) (s s' : Store)
    → All (λ r. selects process_id workspace_id paused r ≡ false) s.runs
    → bulk_pause_runs process_id workspace_id s ≡ some s'
    → bulk_resume_runs process_id workspace_id s' ≡ some s
unfolding bulk_pause_runs bulk_resume_runs
bulk_resume-bulk_pause process_id workspace_id s s' h e =
    let q : bulk_update pending paused process_id workspace_id s ≡ s' = cc in
    ap some (
      ap (λ x. bulk_update paused pending process_id workspace_id x) (sym q)
      ∙ ap (λ rs. record s { runs = rs }) (resume_pause process_id workspace_id s.runs h))
