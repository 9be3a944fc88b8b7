-- ===== src/Tests/States.antt =====
-- internal/runstate/state.go and internal/jobstate/state.go: the theorems at concrete states.
use croncontrol.Prelude.{◌≡◌, ◌↔◌, none, true}
use croncontrol.RunState
use croncontrol.RunState.Graph.{◌⟶*◌, terminal_reachable}
use croncontrol.JobState
use croncontrol.JobState.Embedding.{machines_agree}
use croncontrol.Store.{counts_as_active}
use croncontrol.Store.Activity.{counts_as_active_agrees}

terminal_reachable_example :
    (t : RunState.State) × (RunState.State.paused ⟶* t) × (RunState.is_terminal t ≡ true)
terminal_reachable_example = terminal_reachable RunState.State.paused (λ e. cc)

machines_agree_example :
    (JobState.validate_transition JobState.State.running JobState.State.retrying ≡ none)
    ↔ (RunState.validate_transition RunState.State.running RunState.State.retrying ≡ none)
machines_agree_example = (machines_agree JobState.State.running JobState.State.retrying).0

counts_as_active_agrees_example :
    counts_as_active RunState.State.retrying ≡ RunState.blocks_overlap RunState.State.retrying
counts_as_active_agrees_example =
    (counts_as_active_agrees RunState.State.retrying).1 (λ e. cc, λ e. cc, λ e. cc)
