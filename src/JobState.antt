-- ===== src/JobState.antt =====
-- The state machine of queue jobs: internal/jobstate/state.go, modelled as `RunState` is.
pub mod Embedding
use croncontrol.Prelude.{
  ℕ, Bool, true, false, Option, none, some, List, [], ◌∷◌, if◌then◌else◌, ◌==◌, any,
}

pub data State : Type 0 where
  pending waiting_for_worker running retrying kill_requested : State
  completed failed killed cancelled unknown : State

abbrev pub index : State → ℕ
index pending = 0
index waiting_for_worker = 1
index running = 2
index retrying = 3
index kill_requested = 4
index completed = 5
index failed = 6
index killed = 7
index cancelled = 8
index unknown = 9

abbrev pub is_state : State → State → Bool
is_state s t = index s == index t

unfoldable pub valid_transitions : State → Option (List State)
valid_transitions pending = some (waiting_for_worker ∷ running ∷ cancelled ∷ [])
valid_transitions waiting_for_worker = some (running ∷ cancelled ∷ [])
valid_transitions running = some (completed ∷ failed ∷ retrying ∷ kill_requested ∷ [])
valid_transitions retrying = some (running ∷ failed ∷ cancelled ∷ killed ∷ [])
valid_transitions kill_requested = some (killed ∷ [])
valid_transitions completed = some []
valid_transitions failed = some []
valid_transitions killed = some []
valid_transitions cancelled = some []
valid_transitions unknown = none

pub data TransitionError : Type 0 where
  unknown_state : State → TransitionError
  invalid_transition : State → State → TransitionError

unfoldable pub validate_transition : State → State → Option TransitionError
unfolding valid_transitions
validate_transition from to = elim (valid_transitions from) [
  | none ↦ some (unknown_state from)
  | some allowed ↦ if any (is_state to) allowed then none else some (invalid_transition from to)
]

unfoldable pub is_terminal : State → Bool
is_terminal completed = true
is_terminal failed = true
is_terminal killed = true
is_terminal cancelled = true
is_terminal _ = false

unfoldable pub is_replayable : State → Bool
unfolding is_terminal
is_replayable s = is_terminal s
