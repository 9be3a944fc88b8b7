-- ===== src/Store/Activity.antt =====
-- internal/db/runs.sql.go, `CountActiveByProcess`, against internal/runstate/state.go,
-- `BlocksOverlap`: which runs the overlap check counts.
use croncontrol.Prelude.{◌≡◌, refl, ◌≢◌, ◌↔◌}
use croncontrol.RunState.{
  State, pending, waiting_for_worker, queued, kill_requested, blocks_overlap,
}
use croncontrol.Store.Lists.{counts_as_active}

-- The query of the overlap check counts a state exactly as `blocks_overlap` says, except for three:
-- it counts `waiting_for_worker`, which does not block, and it leaves out `queued` and
-- `kill_requested`, which do.
pub counts_as_active_agrees :
    (s : State)
    → (counts_as_active s ≡ blocks_overlap s)
      ↔ ((s ≢ waiting_for_worker) × (s ≢ queued) × (s ≢ kill_requested))
unfolding counts_as_active blocks_overlap
counts_as_active_agrees pending = (λ e. (λ q. cc, λ q. cc, λ q. cc), λ h. refl)
counts_as_active_agrees waiting_for_worker = (λ e. cc, λ h. absurd (h.0 refl))
counts_as_active_agrees queued = (λ e. cc, λ h. absurd (h.1 refl))
counts_as_active_agrees kill_requested = (λ e. cc, λ h. absurd (h.2 refl))
counts_as_active_agrees _ = (λ e. (λ q. cc, λ q. cc, λ q. cc), λ h. refl)
