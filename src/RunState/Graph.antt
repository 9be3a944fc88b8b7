-- ===== src/RunState/Graph.antt =====
-- internal/runstate/state.go: the graph that `validate_transition` accepts.
use croncontrol.Prelude.{◌≡◌, refl, ◌≢◌, Bool, true, false, none, subst}
use croncontrol.RunState.{
  State, pending, waiting_for_worker, queued, running, retrying, kill_requested, completed, failed,
  hung, killed, skipped, cancelled, paused, waiting_for_choice, unknown, validate_transition,
  is_terminal,
}

-- `s` may become `t`.
abbrev pub Allows : State → State → Type 0
Allows s t = validate_transition s t ≡ none

-- A sequence of accepted transitions.
infix 40 ◌⟶*◌
pub data ◌⟶*◌ (s : State) : State → Type 0 where
  here : s ⟶* s
  next : {t u : State} → s ⟶* t → Allows t u → s ⟶* u

terminal_row : (s t : State) → is_terminal s ≡ true → validate_transition s t ≢ none
unfolding validate_transition is_terminal
terminal_row completed t h = λ e. cc
terminal_row failed t h = λ e. cc
terminal_row killed t h = λ e. cc
terminal_row skipped t h = λ e. cc
terminal_row cancelled t h = λ e. cc
terminal_row _ t h = cc

-- A state that a live one may become.
abbrev exit : State → State
exit pending = running
exit waiting_for_worker = running
exit queued = running
exit running = completed
exit retrying = running
exit kill_requested = killed
exit hung = failed
exit paused = pending
exit waiting_for_choice = completed
exit s = s

exit-Allows :
    (s : State) → s ≢ unknown → is_terminal s ≡ false → validate_transition s (exit s) ≡ none
unfolding validate_transition is_terminal
exit-Allows unknown k h = absurd (k refl)
exit-Allows completed k h = cc
exit-Allows failed k h = cc
exit-Allows killed k h = cc
exit-Allows skipped k h = cc
exit-Allows cancelled k h = cc
exit-Allows _ k h = refl

-- Of the fourteen known states, `is_terminal` holds of exactly those from which the table accepts
-- no transition at all.
pub is_terminal_iff_stuck :
    (s : State)
    → s ≢ unknown
    → ((is_terminal s ≡ true → (t : State) → validate_transition s t ≢ none)
        × (((t : State) → validate_transition s t ≢ none) → is_terminal s ≡ true))
is_terminal_iff_stuck s k = (λ h t. terminal_row s t h, back (is_terminal s) refl)
  where
    back :
        (b : Bool) → is_terminal s ≡ b → ((t : State) → validate_transition s t ≢ none) → b ≡ true
    back true e stuck = refl
    back false e stuck = absurd (stuck (exit s) (exit-Allows s k e))

-- From every known state a run can be brought to a terminal state by accepted transitions.
pub terminal_reachable : (s : State) → s ≢ unknown → (t : State) × (s ⟶* t) × (is_terminal t ≡ true)
unfolding validate_transition is_terminal
terminal_reachable unknown k = absurd (k refl)
terminal_reachable pending k = (completed, next {t = running} (next here refl) refl, refl)
terminal_reachable waiting_for_worker k =
    (completed, next {t = running} (next here refl) refl, refl)
terminal_reachable queued k = (completed, next {t = running} (next here refl) refl, refl)
terminal_reachable retrying k = (completed, next {t = running} (next here refl) refl, refl)
terminal_reachable running k = (completed, next here refl, refl)
terminal_reachable kill_requested k = (killed, next here refl, refl)
terminal_reachable hung k = (failed, next here refl, refl)
terminal_reachable paused k = (cancelled, next {t = pending} (next here refl) refl, refl)
terminal_reachable waiting_for_choice k = (completed, next here refl, refl)
terminal_reachable completed k = (completed, here, refl)
terminal_reachable failed k = (failed, here, refl)
terminal_reachable killed k = (killed, here, refl)
terminal_reachable skipped k = (skipped, here, refl)
terminal_reachable cancelled k = (cancelled, here, refl)

-- A run that is in a terminal state stays in it under any sequence of accepted transitions.
pub terminal_absorbs : {s t : State} → s ⟶* t → is_terminal s ≡ true → t ≡ s
terminal_absorbs here h = refl
terminal_absorbs {s} {t} (next {t = m} r a) h =
    let e : m ≡ s = terminal_absorbs r h in
    absurd (terminal_row s t h (subst (λ x. Allows x t) e a))
