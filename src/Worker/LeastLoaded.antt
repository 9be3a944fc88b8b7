-- ===== src/Worker/LeastLoaded.antt =====
-- internal/worker/dispatcher.go, `selectWorker`: which worker it gives.
use croncontrol.Prelude.{
  ℕ, suc, ◌≤◌, ◌≡◌, refl, pos, leb_ℤ, ltb, Bool, true, false, not, Option, none, some, List, [],
  ◌∷◌, String, if◌then◌else◌, ◌&&◌, inl, inr, Bool-cases, arith, subst, ap,
}
use mathlib.Core.List.{Memᴰ}
use croncontrol.Store.{Store, Worker}
use croncontrol.World.{World, Env, ◌>>=◌, tick}
use croncontrol.World.Hoare.{IsReliable, fetch_reliable}
use croncontrol.Worker.Labels.{matches_worker_labels}
use croncontrol.Worker.Dispatcher.{
  Best, improve, consider_load, worker_of, count_active_by_worker, select_from, select_worker,
  consider,
}

-- Whether a worker may get a task: it has the labels, and capacity left.
abbrev pub is_eligible : Env → Store → String → Worker → Bool
is_eligible env s labels w =
    matches_worker_labels env w.labels labels
    && not (leb_ℤ w.max_concurrency (pos (count_active_by_worker w.id s)))

-- The best worker so far has at most this load.
abbrev IsBelow : Best → ℕ → Type 0
IsBelow none n = ⊥
IsBelow (some (v, best)) n = best ≤ n

-- The best worker so far is in the list, may get a task, and has this load.
abbrev IsFrom : Env → Store → String → Best → List Worker → Type 0
IsFrom env s labels none all = Unit
IsFrom env s labels (some (v, best)) all =
    Memᴰ v all × (is_eligible env s labels v ≡ true) × (count_active_by_worker v.id s ≡ best)

-- One worker of the loop, as a function.
abbrev considered : Env → Store → String → Best → Worker → Best
considered env s labels best w =
    if is_eligible env s labels w then improve w (count_active_by_worker w.id s) best else best

-- The loop, as a function.
abbrev chosen : Env → Store → String → Best → List Worker → Best
chosen env s labels best [] = best
chosen env s labels best (w ∷ ws) = chosen env s labels (considered env s labels best w) ws

module _ (env : Env) (s : Store) (labels : String) where
  improve-IsBelow :
      (w : Worker) (load n : ℕ) (best : Best) → IsBelow best n → IsBelow (improve w load best) n
  unfolding improve
  improve-IsBelow w load n none h = absurd h
  improve-IsBelow w load n (some (v, b)) h = elim (Bool-cases (ltb load b)) [
    | inl e ↦ rw e (ground (arith, e, h))
    | inr e ↦ rw e h
  ]

  improve_self : (w : Worker) (load : ℕ) (best : Best) → IsBelow (improve w load best) load
  unfolding improve
  improve_self w load none = omega arith
  improve_self w load (some (v, b)) = elim (Bool-cases (ltb load b)) [
    | inl e ↦ rw e (omega arith)
    | inr e ↦ rw e (ground (arith, e))
  ]

  considered-IsBelow :
      (w : Worker) (n : ℕ) (best : Best)
      → IsBelow best n
      → IsBelow (considered env s labels best w) n
  considered-IsBelow w n best h = elim (Bool-cases (is_eligible env s labels w)) [
    | inl e ↦ rw e (improve-IsBelow w _ n best h)
    | inr e ↦ rw e h
  ]

  chosen-IsBelow :
      (ws : List Worker) (n : ℕ) (best : Best)
      → IsBelow best n
      → IsBelow (chosen env s labels best ws) n
  chosen-IsBelow [] n best h = h
  chosen-IsBelow (w ∷ ws) n best h = chosen-IsBelow ws n _ (considered-IsBelow w n best h)

  -- No worker that may get a task has a smaller load than the chosen one.
  chosen-least :
      (ws : List Worker) (best : Best) (u : Worker)
      → Memᴰ u ws
      → is_eligible env s labels u ≡ true
      → IsBelow (chosen env s labels best ws) (count_active_by_worker u.id s)
  chosen-least [] best u m h = elim m [ ]
  chosen-least (w ∷ ws) best u (Memᴰ.head e) h = chosen-IsBelow ws _ _ (
      subst (λ x. IsBelow (considered env s labels best x) (count_active_by_worker u.id s)) e
        (rw h (improve_self u _ best)))
  chosen-least (w ∷ ws) best u (Memᴰ.tail m) h = chosen-least ws _ u m h

  considered-IsFrom :
      (w : Worker) (best : Best) (all : List Worker)
      → Memᴰ w all
      → IsFrom env s labels best all
      → IsFrom env s labels (considered env s labels best w) all
  unfolding improve
  considered-IsFrom w none all m h = elim (Bool-cases (is_eligible env s labels w)) [
    | inl e ↦ rw e (m, e, refl)
    | inr e ↦ rw e tt
  ]
  considered-IsFrom w (some (v, b)) all m h = elim (Bool-cases (is_eligible env s labels w)) [
    | inl e ↦ elim (Bool-cases (ltb (count_active_by_worker w.id s) b)) [
      | inl l ↦ rw (e, l) (m, e, refl)
      | inr l ↦ rw (e, l) h
    ]
    | inr e ↦ rw e h
  ]

  chosen-IsFrom :
      (ws : List Worker) (best : Best) (all : List Worker)
      → ((u : Worker) → Memᴰ u ws → Memᴰ u all)
      → IsFrom env s labels best all
      → IsFrom env s labels (chosen env s labels best ws) all
  chosen-IsFrom [] best all m h = h
  chosen-IsFrom (w ∷ ws) best all m h =
      chosen-IsFrom ws _ all (λ u n. m u (Memᴰ.tail n))
        (considered-IsFrom w best all (m w (Memᴰ.head refl)) h)

consider_lem :
    (env : Env) (labels : String) (best : Best) (u : Worker) (w : World)
    → IsReliable env
    → (n : ℕ) × (consider env labels best u w
        ≡ (considered env w.store labels best u, record w { step = n }))
unfolding consider consider_load
consider_lem env labels best u w reliable =
    elim (Bool-cases (matches_worker_labels env u.labels labels)) [
      | inl e ↦ (
        suc w.step,
        rw (e, fetch_reliable env (count_active_by_worker u.id) w reliable, ◌>>=◌)
            (ap (λ b. (b, tick w))
              (capacity (leb_ℤ u.max_concurrency (pos (count_active_by_worker u.id w.store))) best
                (improve u (count_active_by_worker u.id w.store) best))),
      )
      | inr e ↦ (w.step, rw e refl)
    ]
  where
    capacity :
        (full : Bool) (b c : Best) → (if full then b else c) ≡ (if true && not full then c else b)
    capacity true b c = refl
    capacity false b c = refl

-- The loop gives what the function says, and leaves the store as it is.
select_from_lem :
    (env : Env) (labels : String) (ws : List Worker) (best : Best) (w : World)
    → IsReliable env
    → (n : ℕ) × (select_from env labels best ws w
        ≡ (chosen env w.store labels best ws, record w { step = n }))
unfolding select_from
select_from_lem env labels [] best w reliable = (w.step, refl)
select_from_lem env labels (u ∷ us) best w reliable =
    let (n, e) = consider_lem env labels best u w reliable in
    let (m, f) =
      select_from_lem env labels us (considered env w.store labels best u) (record w { step = n })
        reliable in
    (m, rw e f)

-- What `selectWorker` promises of its answer.
abbrev pub IsBestChoice : Env → Store → String → List Worker → Option Worker → Type 0
IsBestChoice env s labels workers none =
    (u : Worker) → Memᴰ u workers → is_eligible env s labels u ≡ false
IsBestChoice env s labels workers (some v) =
    Memᴰ v workers
    × (is_eligible env s labels v ≡ true)
    × ((u : Worker)
        → Memᴰ u workers
        → is_eligible env s labels u ≡ true
        → count_active_by_worker v.id s ≤ count_active_by_worker u.id s)

best-choice :
    (env : Env) (s : Store) (labels : String) (workers : List Worker) (best : Best)
    → IsFrom env s labels best workers
    → ((u : Worker)
        → Memᴰ u workers
        → is_eligible env s labels u ≡ true
        → IsBelow best (count_active_by_worker u.id s))
    → IsBestChoice env s labels workers (worker_of best)
best-choice env s labels workers none from least = λ u m.
    elim (Bool-cases (is_eligible env s labels u)) [ inl e ↦ absurd (least u m e) | inr e ↦ e ]
best-choice env s labels workers (some (v, b)) (m, e, q) least = (m, e, λ u n h. rw q (least u n h))

-- `selectWorker` gives a worker of the list that has the labels and capacity left, with the smallest
-- load among all of these, runs and jobs counted together; and none only if no worker of the list has
-- the labels and capacity left. (For a database that does not fail.)
pub select_worker_lem :
    (env : Env) (labels : String) (workers : List Worker) (w : World)
    → IsReliable env
    → IsBestChoice env w.store labels workers (select_worker env workers labels w).0
unfolding select_worker
select_worker_lem env labels workers w reliable =
    let (n, e) = select_from_lem env labels workers none w reliable in
    rw e (
      best-choice env w.store labels workers (chosen env w.store labels none workers)
        (chosen-IsFrom env w.store labels workers none workers (λ u m. m) tt)
        (chosen-least env w.store labels workers none))
