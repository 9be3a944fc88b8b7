-- ===== src/RunState.antt =====
-- The state machine of runs: internal/runstate/state.go.
--
-- `State` is the Go string type: a constructor for each constant, and `unknown` for any other
-- string. `validTransitions` is a function from a state to its row, with no row for `unknown`.
pub mod Graph
use croncontrol.Prelude.{
  ℕ, ◌≡◌, Bool, true, false, Option, none, some, List, [], ◌∷◌, if◌then◌else◌, ◌==◌, any,
}

pub data State : Type 0 where
  pending waiting_for_worker queued running retrying kill_requested : State
  completed failed hung killed skipped cancelled paused waiting_for_choice : State
  unknown : State

abbrev pub all_states : List State
all_states =
    pending ∷ waiting_for_worker ∷ queued ∷ running ∷ retrying ∷ kill_requested ∷ completed ∷ failed
    ∷ hung ∷ killed ∷ skipped ∷ cancelled ∷ paused ∷ waiting_for_choice ∷ []

-- The place of a state among the constants, by which two states are compared.
abbrev pub index : State → ℕ
index pending = 0
index waiting_for_worker = 1
index queued = 2
index running = 3
index retrying = 4
index kill_requested = 5
index completed = 6
index failed = 7
index hung = 8
index killed = 9
index skipped = 10
index cancelled = 11
index paused = 12
index waiting_for_choice = 13
index unknown = 14

-- Go's `==` on states.
abbrev pub is_state : State → State → Bool
is_state s t = index s == index t

-- The map `validTransitions`; `none` is a missing key.
unfoldable pub valid_transitions : State → Option (List State)
valid_transitions pending =
    some (waiting_for_worker ∷ queued ∷ running ∷ skipped ∷ cancelled ∷ paused ∷ [])
valid_transitions waiting_for_worker = some (running ∷ cancelled ∷ [])
valid_transitions queued = some (running ∷ cancelled ∷ paused ∷ [])
valid_transitions running =
    some (completed ∷ failed ∷ hung ∷ kill_requested ∷ retrying ∷ waiting_for_choice ∷ [])
valid_transitions retrying = some (running ∷ failed ∷ cancelled ∷ killed ∷ [])
valid_transitions kill_requested = some (killed ∷ [])
valid_transitions completed = some []
valid_transitions failed = some []
valid_transitions hung = some (retrying ∷ failed ∷ [])
valid_transitions killed = some []
valid_transitions skipped = some []
valid_transitions cancelled = some []
valid_transitions paused = some (pending ∷ [])
valid_transitions waiting_for_choice = some (completed ∷ cancelled ∷ [])
valid_transitions unknown = none

pub data TransitionError : Type 0 where
  unknown_state : State → TransitionError
  invalid_transition : State → State → TransitionError

-- `none` is the nil error.
unfoldable pub validate_transition : State → State → Option TransitionError
unfolding valid_transitions
validate_transition from to = elim (valid_transitions from) [
  | none ↦ some (unknown_state from)
  | some allowed ↦ if any (is_state to) allowed then none else some (invalid_transition from to)
]

unfoldable pub is_terminal : State → Bool
is_terminal completed = true
is_terminal failed = true
is_terminal killed = true
is_terminal skipped = true
is_terminal cancelled = true
is_terminal _ = false

unfoldable pub is_final_terminal : State → Bool
unfolding is_terminal
is_final_terminal s = is_terminal s

unfoldable pub is_active : State → Bool
is_active running = true
is_active retrying = true
is_active kill_requested = true
is_active _ = false

unfoldable pub blocks_overlap : State → Bool
blocks_overlap running = true
blocks_overlap retrying = true
blocks_overlap kill_requested = true
blocks_overlap queued = true
blocks_overlap _ = false

unfoldable pub continues_fixed_delay_chain : State → Bool
continues_fixed_delay_chain completed = true
continues_fixed_delay_chain failed = true
continues_fixed_delay_chain hung = true
continues_fixed_delay_chain killed = true
continues_fixed_delay_chain cancelled = true
continues_fixed_delay_chain paused = false
continues_fixed_delay_chain _ = false
