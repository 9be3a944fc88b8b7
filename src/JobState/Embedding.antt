-- ===== src/JobState/Embedding.antt =====
-- internal/jobstate/state.go against internal/runstate/state.go: the two machines on the states
-- that they share.
use croncontrol.Prelude.{◌≡◌, ◌↔◌, none, arith}
use croncontrol.RunState
use croncontrol.JobState.{
  State, pending, waiting_for_worker, running, retrying, kill_requested, completed, failed, killed,
  cancelled, unknown, validate_transition, is_terminal,
}

-- The state of a run that is spelled like a state of a job.
abbrev pub embed : State → RunState.State
embed pending = RunState.State.pending
embed waiting_for_worker = RunState.State.waiting_for_worker
embed running = RunState.State.running
embed retrying = RunState.State.retrying
embed kill_requested = RunState.State.kill_requested
embed completed = RunState.State.completed
embed failed = RunState.State.failed
embed killed = RunState.State.killed
embed cancelled = RunState.State.cancelled
embed unknown = RunState.State.unknown

-- A job may pass from one state to another exactly when a run may, for all states that jobs have;
-- and the two machines agree on which of these states are terminal.
pub machines_agree :
    (s t : State)
    → ((validate_transition s t ≡ none) ↔ (RunState.validate_transition (embed s) (embed t) ≡ none))
      × (is_terminal s ≡ RunState.is_terminal (embed s))
unfolding validate_transition RunState.validate_transition is_terminal RunState.is_terminal
machines_agree pending t = ground arith
machines_agree _ t = ground arith
