-- ===== src/Queue/Expired.antt =====
-- internal/queue/processor.go, `expirationLoop`: which jobs a tick cancels.
use croncontrol.Prelude.{
  ℕ, zero, suc, ◌≤◌, ◌≡◌, refl, ap, ◌∙◌, subst, Bool, true, false, some, List, [], ◌∷◌, String,
  if◌then◌else◌, find, any, keep, count, take, length, same, Bool-cases, inl, inr, arith,
  find-update_where_other, same_iff,
}
use croncontrol.JobState
use croncontrol.Store.{
  Store, Job, find_job, update_job, cancel_job, is_expired, list_expired_pending_jobs,
}
use croncontrol.Store.JobLaws.{JobRow, count_keyed}
use croncontrol.World.{World, Env, ◌>>=◌, now, tick}
use croncontrol.World.Hoare.{IsReliable, exec_reliable, fetch_reliable}
use croncontrol.Executor.Terminal.{attempt_exec}
use croncontrol.Queue.Expiration.{cancel_expired, expire_jobs}
use croncontrol.Queue.Outcome.{change_job_reliable}

-- The row of a job that expired.
abbrev pub expired_row : Job → Job
expired_row j = record j { state = JobState.State.cancelled; cancel_reason = some "expired" }

abbrev pub expired_if : Bool → Job → Job
expired_if b j = if b then expired_row j else j

module _ {A : Type 0} where
  take_all : (n : ℕ) (xs : List A) → length xs ≤ n → take n xs ≡ xs
  take_all zero [] h = refl
  take_all zero (x ∷ xs) h = absurd (omega (arith, h))
  take_all (suc n) [] h = refl
  take_all (suc n) (x ∷ xs) h = ap (λ ys. x ∷ ys) (take_all n xs (omega (arith, h)))

  any-keep_none : (p q : A → Bool) (xs : List A) → count p xs ≤ 0 → any p (keep q xs) ≡ false
  any-keep_none p q [] h = refl
  any-keep_none p q (x ∷ xs) h = ground (arith, h, any-keep_none p q xs)

  -- If one row at most has the key, a row with the key is kept when that one is.
  any-keep :
      (p q : A → Bool) (xs : List A) (x : A)
      → find p xs ≡ some x
      → count p xs ≤ 1
      → any p (keep q xs) ≡ q x
  any-keep p q [] x h one = absurd cc
  any-keep p q (y ∷ xs) x h one = elim (Bool-cases (p y)) [
    | inl e ↦ ground (arith, e, h, one, any-keep_none p q xs)
    | inr e ↦ ground (arith, e, h, one, any-keep p q xs x)
  ]

-- The row of another job is as before.
find_job-update_job_ne :
    (id other : String) (f : Job → Job) (s : Store)
    → ((j : Job) → (f j).id ≡ j.id)
    → same other id ≡ false
    → find_job id (update_job other f s) ≡ find_job id s
unfolding find_job update_job
find_job-update_job_ne id other f s k ne =
    find-update_where_other (λ j. same j.id other) (λ j. same j.id id) f s.jobs
      (λ y e.
        let q : same y.id id ≡ false = ap (λ i. same i id) ((same_iff y.id other).0 e) ∙ ne in
        (q, ap (λ i. same i id) (k y) ∙ q))

module _ (env : Env) (reliable : IsReliable env) (id : String) where
  cancel_reliable :
      (x : Job) (b : Bool) (j : Job) (w : World)
      → JobRow id (expired_if b j) w.store
      → (same x.id id ≡ true
          → JobRow id
              (expired_row j)
              (attempt_exec env (cancel_job x.id (some "expired")) w).1.store)
        × (same x.id id ≡ false
            → JobRow id
                (expired_if b j)
                (attempt_exec env (cancel_job x.id (some "expired")) w).1.store)
  unfolding cancel_job
  cancel_reliable x b j w p = (
    λ e. rw ((same_iff x.id id).0 e) (
        subst
          (λ r. JobRow id r (attempt_exec env (λ s. some (update_job id expired_row s)) w).1.store)
          (twice b)
          (change_job_reliable env reliable id expired_row (expired_if b j) (λ x. refl) w p)),
    λ e.
        rw
          (exec_reliable env (λ s. some (update_job x.id expired_row s)) w
            (update_job x.id expired_row w.store) reliable refl)
          (find_job-update_job_ne id x.id expired_row w.store (λ x. refl) e ∙ p),
  )
    where
      twice : (c : Bool) → expired_row (expired_if c j) ≡ expired_row j
      twice true = refl
      twice false = refl

  cancel_expired_reliable :
      (js : List Job) (b : Bool) (j : Job) (w : World)
      → JobRow id (expired_if b j) w.store
      → JobRow id
          (expired_if (if any (λ x. same x.id id) js then true else b) j)
          (cancel_expired env js w).1.store
  unfolding cancel_expired
  cancel_expired_reliable [] b j w p = p
  cancel_expired_reliable (x ∷ js) b j w p = elim (Bool-cases (same x.id id)) [
    | inl e ↦ rw e (
        settled _ (any (λ x. same x.id id) js)
          (cancel_expired_reliable js true j _ ((cancel_reliable x b j w p).0 e)))
    | inr e ↦ rw e (cancel_expired_reliable js b j _ ((cancel_reliable x b j w p).1 e))
  ]
    where
      settled :
          (s : Store) (c : Bool)
          → JobRow id (expired_if (if c then true else true) j) s
          → JobRow id (expired_row j) s
      settled s true h = h
      settled s false h = h

-- One tick of the loop cancels a job of the table, with the reason `expired`, exactly if the job is
-- pending and its time has passed, and otherwise leaves it as it is; for a database that does not
-- fail, a key that no second job has, and at most 100 expired jobs.
pub expire_jobs_lem :
    (env : Env) (id : String) (j : Job) (w : World)
    → IsReliable env
    → find_job id w.store ≡ some j
    → count_keyed id w.store ≤ 1
    → length (keep (is_expired (env.clock w.step)) w.store.jobs) ≤ 100
    → find_job id (expire_jobs env w).1.store
      ≡ some (if is_expired (env.clock w.step) j then expired_row j else j)
unfolding expire_jobs now list_expired_pending_jobs find_job
expire_jobs_lem env id j w reliable p unique few =
    let expired = is_expired (env.clock w.step) in
    rw
      (
        fetch_reliable env (list_expired_pending_jobs (env.clock w.step) 100) (tick w) reliable,
        ◌>>=◌,
        take_all 100 (keep expired w.store.jobs) few,
      )
      (subst
        (λ b.
          JobRow id (expired_if b j)
            (cancel_expired env (keep expired w.store.jobs) (tick (tick w))).1.store)
        (if_false _ ∙ any-keep (λ x. same x.id id) expired w.store.jobs j p unique)
        (cancel_expired_reliable env reliable id (keep expired w.store.jobs) false j (tick (tick w))
          p))
  where
    if_false : (b : Bool) → (if b then true else false) ≡ b
    if_false true = refl
    if_false false = refl
