-- ===== src/Tests/Tables.antt =====
-- The theorems on the queries, at concrete tables.
use mathlib.Core.List.{Memᴰ}
use croncontrol.Prelude.{◌≡◌, refl, ◌⊎◌, inl, same, pos, ◌≤ℤ◌, [], ◌∷◌, All, length, arith}
use croncontrol.Store.{
  Run, Store, WorkspaceState, claim_pending_runs, is_claimable, order_by, insert_by,
  in_active_workspace,
}
use croncontrol.Store.Claims.{claim_pending_runs_lem}
use croncontrol.Tests.Samples.{pending_run, running_run, store_of}

abbrev later_run : Run
later_run = record pending_run { id = "run_5"; scheduled_at = pos 6 }

abbrev three_runs : Store
three_runs = store_of (later_run ∷ running_run ∷ pending_run ∷ [])

-- The claim gives the two pending runs, the earlier one first.
two_claimed : claim_pending_runs (pos 10) 10 three_runs ≡ pending_run ∷ later_run ∷ []
unfolding claim_pending_runs is_claimable order_by insert_by in_active_workspace same
two_claimed = refl

-- The later run waits for the next claim of one run.
claim_pending_runs_example :
    Memᴰ later_run (claim_pending_runs (pos 10) 1 three_runs)
    ⊎ ((length (claim_pending_runs (pos 10) 1 three_runs) ≡ 1)
        × All (λ x. x.scheduled_at ≤ℤ pos 6) (claim_pending_runs (pos 10) 1 three_runs))
claim_pending_runs_example =
    (claim_pending_runs_lem (pos 10) 1 three_runs).3 later_run (Memᴰ.head refl) (
      inl refl,
      omega arith,
      (record { id = "wsp_1"; state = WorkspaceState.active }, Memᴰ.head refl, refl, refl),
    )
