-- ===== src/Monitor/Timeouts.antt =====
-- internal/monitor/monitor.go: which runs the monitor takes for hung, and what becomes of their rows.
use croncontrol.Prelude.{
  ◌≡◌, refl, ◌≢◌, ◌↔◌, ℤ, Bool, true, false, not, Option, none, some, String, if◌then◌else◌, ◌&&◌,
  same, same_iff, same_ne, sym, ◌∙◌, arith,
}
use mathlib.Core.Bool.{false≢true}
use croncontrol.RunState.{State}
use croncontrol.Store.{
  Interval, TimeoutAction, Run, to_state, apply_update, update_run_state, update_run, find_run,
}
use croncontrol.Store.Laws.{Row, find_run-update_run}
use croncontrol.World.{World, Env, M, ◌>>=◌, done, send}
use croncontrol.World.Hoare.{Keeps, IsReliable, exec_reliable}
use croncontrol.Monitor.{
  RunningRow, exceeded, last_heartbeat, hung_reason, act, mark_and_act, check_run,
}
use croncontrol.Monitor.Intervals.{Passed, IsShort, not_exceeded}

abbrev reason_of : Bool → Bool → Bool → Option String
reason_of slow http silent =
    if slow
    then some "execution_timeout"
    else if not http && silent
    then some "heartbeat_timeout"
    else none

reason_none :
    (slow http silent : Bool)
    → (reason_of slow http silent ≡ none) ↔ ((slow ≡ false) × (http ≡ false → silent ≡ false))
reason_none true http silent = ground arith
reason_none false true silent = ground arith
reason_none false false silent = ground arith

-- For timeouts without negative parts that are shorter than the largest 64-bit number of
-- nanoseconds (about 292 years): a run is taken for hung exactly if its execution timeout has
-- passed since it started, or it is not an HTTP run and its heartbeat timeout has passed since its
-- last heartbeat, or since the start if it sent none. A timeout passes if it is a positive interval
-- and more time than that has gone by.
pub hung_reason_lem :
    (row : RunningRow) (started t : ℤ)
    → IsShort row.execution_timeout
    → IsShort row.heartbeat_timeout
    → (hung_reason row started t ≡ none) ↔ (
        ((iv : Interval) → row.execution_timeout ≡ some iv → ¬ Passed iv started t)
        × ((iv : Interval)
            → row.execution_method ≢ "http"
            → row.heartbeat_timeout ≡ some iv
            → ¬ Passed iv (last_heartbeat row.run started) t))
unfolding hung_reason
hung_reason_lem row started t short short_heartbeat = (
  λ e.
      let (quick, heard) = (reason_none slow http silent).0 e in
      (
        (not_exceeded row.execution_timeout started t short).0 quick,
        λ iv ne.
            (not_exceeded row.heartbeat_timeout last t short_heartbeat).0
              (heard (same_ne row.execution_method "http" ne)) iv,
      ),
  λ h. (reason_none slow http silent).1 (
    (not_exceeded row.execution_timeout started t short).1 h.0,
    λ other. (not_exceeded row.heartbeat_timeout last t short_heartbeat).1 (λ iv.
        h.1 iv (λ q. absurd (false≢true (sym other ∙ (same_iff row.execution_method "http").1 q)))),
  ),
)
  where
    slow : Bool
    slow = exceeded row.execution_timeout started t

    last : ℤ
    last = last_heartbeat row.run started

    silent : Bool
    silent = exceeded row.heartbeat_timeout last t

    http : Bool
    http = same row.execution_method "http"

-- The row of a run that is marked as hung.
abbrev pub hung_row : ℤ → Run → Run
hung_row t r = apply_update (record (to_state State.hung) { finished_at = some t }) r

module _ (env : Env) (kill : String → M (Unit {0})) (id : String) (r : Run) where
  act-Keeps :
      (action : TimeoutAction) (run : Run) (reason : String)
      → Keeps (Row id r) (kill run.id)
      → Keeps (Row id r) (act env kill action run reason)
  unfolding act send
  act-Keeps TimeoutAction.kill run reason h w p = h w p
  act-Keeps TimeoutAction.alert run reason h w p = p
  act-Keeps TimeoutAction.both run reason h w p = h w p

marked :
    (env : Env) (reliable : IsReliable env) (kill : String → M (Unit {0})) (row : RunningRow)
    (t : ℤ) (reason : String) (r : Run) (w : World)
    → Keeps (Row row.run.id (hung_row t r)) (kill row.run.id)
    → find_run row.run.id w.store ≡ some r
    → find_run row.run.id (mark_and_act env kill row t reason w).1.store ≡ some (hung_row t r)
unfolding mark_and_act update_run_state
marked env reliable kill row t reason r w frame found =
    let u = record (to_state State.hung) { finished_at = some t } in
    rw
      (
        exec_reliable env (update_run_state row.run.id u) w
            (update_run row.run.id (apply_update u) w.store) reliable refl,
        ◌>>=◌,
      )
      (act-Keeps env kill row.run.id (hung_row t r) row.timeout_action row.run reason frame _
        (find_run-update_run row.run.id (apply_update u) w.store r (λ x. refl) found))

-- Where the database does not fail and the kill callback leaves rows alone, one step of the monitor
-- marks the row of a running run as hung, finished now, if there is a reason to take it for hung,
-- whatever the timeout action is; and without a reason it does nothing at all.
pub check_run_lem :
    (env : Env) (kill : String → M (Unit {0})) (t started : ℤ) (row : RunningRow) (r : Run)
    (w : World)
    → IsReliable env
    → ((x : Run) → Keeps (Row row.run.id x) (kill row.run.id))
    → row.run.started_at ≡ some started
    → find_run row.run.id w.store ≡ some r
    → (hung_reason row started t ≡ none → check_run env kill t row w ≡ (tt, w))
      × (hung_reason row started t ≢ none
          → find_run row.run.id (check_run env kill t row w).1.store ≡ some (hung_row t r))
unfolding check_run hung_reason
check_run_lem env kill t started row r w reliable frame began found =
    rw (began, check_run) (quiet, hung (hung_reason row started t) refl)
  where
    quiet :
        hung_reason row started t ≡ none
        → (elim (hung_reason row started t) as (λ o. M (Unit {0})) [
          | none ↦ done
          | some reason ↦ mark_and_act env kill row t reason
        ])
            w
          ≡ (tt, w)
    quiet e = rw e refl

    hung :
        (o : Option String)
        → hung_reason row started t ≡ o
        → hung_reason row started t ≢ none
        → find_run row.run.id
            ((elim (hung_reason row started t) as (λ o. M (Unit {0})) [
              | none ↦ done
              | some reason ↦ mark_and_act env kill row t reason
            ])
              w).1.store
          ≡ some (hung_row t r)
    hung none e ne = absurd (ne e)
    hung (some reason) e ne =
        rw e (marked env reliable kill row t reason r w (frame (hung_row t r)) found)
