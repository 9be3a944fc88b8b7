-- ===== src/Recovery/Orphans.antt =====
-- internal/recovery/recovery.go, `detectOrphans`: which runs are left running.
use croncontrol.Prelude.{
  suc, ◌≡◌, refl, sym, ◌∙◌, ℤ, Bool, true, false, List, [], ◌∷◌, All, All-imp, All-update_where,
  same, same_self, same_iff, any, keep, keep-cons_true, keep-cons_false, subst, Bool-cases, inl,
  inr, arith,
}
use mathlib.Core.Bool.{false≢true}
use croncontrol.RunState.{State, is_state}
use croncontrol.Store.{
  Run, Store, UpdateRunState, apply_update, update_run, update_run_state, list_running_runs,
}
use croncontrol.World.{World, Env, ◌>>=◌, now, tick}
use croncontrol.World.Hoare.{Hoare, IsReliable, exec_reliable, fetch_reliable}
use croncontrol.Executor.Terminal.{attempt_exec}
use croncontrol.Recovery.{mark_hung, detect_orphans}

abbrev is_running : Run → Bool
is_running r = is_state r.state State.running

-- Every row that is running has the key of one of the rows still to be marked.
abbrev Covers : List Run → Run → Type 0
Covers todo x = is_running x ≡ true → any (λ r. same r.id x.id) todo ≡ true

abbrev Left : List Run → Store → Type 0
Left todo s = All (Covers todo) s.runs

Covers_self :
    (x : Run) (xs : List Run) → is_running x ≡ true → any (λ r. same r.id x.id) (x ∷ xs) ≡ true
Covers_self x xs h = rw (same_self x.id) refl

Covers_cons :
    (y x : Run) (ys : List Run)
    → any (λ r. same r.id x.id) ys ≡ true
    → any (λ r. same r.id x.id) (y ∷ ys) ≡ true
Covers_cons y x ys h = ground arith

-- The rows that the query gives cover the running ones.
keep-Covers : (xs : List Run) → All (Covers (keep is_running xs)) xs
keep-Covers [] = tt
keep-Covers (x ∷ xs) = elim (Bool-cases (is_running x)) [
  | inl e ↦
      subst (λ l. All (Covers l) (x ∷ xs)) (sym (keep-cons_true is_running x xs e))
        (
          Covers_self x (keep is_running xs),
          All-imp xs (λ y h r. Covers_cons x y (keep is_running xs) (h r)) (keep-Covers xs),
        )
  | inr e ↦
      subst (λ l. All (Covers l) (x ∷ xs)) (sym (keep-cons_false is_running x xs e))
        (λ h. absurd (false≢true (sym e ∙ h)), keep-Covers xs)
]

keep-none : (xs : List Run) → All (Covers []) xs → keep is_running xs ≡ []
keep-none [] h = refl
keep-none (x ∷ xs) h = elim (Bool-cases (is_running x)) [
  | inl e ↦ absurd (false≢true (h.0 e))
  | inr e ↦ rw e (keep-none xs h.1)
]

module _ (env : Env) (reliable : IsReliable env) (t : ℤ) where
  -- Marking one row leaves the others.
  mark_one :
      (r : Run) (todo : List Run) (u : UpdateRunState)
      → is_state u.state State.running ≡ false
      → Hoare (Left (r ∷ todo)) (attempt_exec env (update_run_state r.id u)) (Left todo)
  unfolding update_run_state
  mark_one r todo u h w left =
      rw
        (exec_reliable env (update_run_state r.id u) w (update_run r.id (apply_update u) w.store)
          reliable refl)
        (All-update_where (λ x. same x.id r.id) (apply_update u) w.store.runs
          (λ x e c run. absurd (false≢true (sym h ∙ run)))
          (λ x e c run. ground (arith, c run, same_iff r.id x.id, same_iff x.id r.id)) left)

  mark_hung_reliable : (rs : List Run) → Hoare (Left rs) (mark_hung env t rs) (Left [])
  unfolding mark_hung
  mark_hung_reliable [] w left = left
  mark_hung_reliable (r ∷ rs) w left = mark_hung_reliable rs _ (mark_one r rs _ refl w left)

-- Where the database does not fail, after `detectOrphans` no run is in the state `running`, with an
-- execution handle or without.
pub detect_orphans_lem :
    (env : Env) (w : World) → IsReliable env → list_running_runs (detect_orphans env w).1.store ≡ []
unfolding detect_orphans list_running_runs now
detect_orphans_lem env w reliable =
    rw (fetch_reliable env list_running_runs w reliable, ◌>>=◌)
      (keep-none _ (
        mark_hung_reliable env reliable (env.clock (suc w.step)) (keep is_running w.store.runs)
          (tick (tick w)) (keep-Covers w.store.runs)))
