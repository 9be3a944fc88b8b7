-- ===== src/Worker/SingleUse.antt =====
-- internal/worker/enrollment.go: what becomes of a worker's token, and of the creation of a worker.
use croncontrol.Prelude.{
  ℕ, suc, ◌≤◌, ◌≡◌, refl, sym, subst, ℤ, Bool, Option, none, some, List, [], ◌∷◌, String, find, any,
  count, update_where, same, same_self, Bool-cases, Option-cases, inl, inr, arith,
}
use croncontrol.Store.{
  Store, Worker, is_value, has_token, with_credential, is_other_credential, create_worker,
  get_worker_by_enrollment_token, update_worker, update_worker_credential_hash,
}
use croncontrol.World.{World, Env, now, exec, fresh, tick, ◌>>=◌}
use croncontrol.World.Hoare.{exec-cases, fetch_row-found, fetch_row-none}
use croncontrol.Worker.Enrollment.{
  EnrollmentResult, generate_token, add_worker, register_worker, exchange, issue_credential, enroll,
}

-- The workers that hold a token.
abbrev pub holds : String → Worker → Bool
holds hash v = is_value hash v.enrollment_token_hash

abbrev pub count_holders : String → Store → ℕ
count_holders hash s = count (holds hash) s.workers

module _ (t : ℤ) (hash credential : String) where
  cleared_le :
      (id : String) (xs : List Worker)
      → count (holds hash) (update_where (λ x. same x.id id) (with_credential credential) xs)
        ≤ count (holds hash) xs
  cleared_le id [] = omega arith
  cleared_le id (x ∷ xs) = ground (arith, cleared_le id xs)

  -- The worker that is found by its token holds it no more.
  cleared_lt :
      (v : Worker) (xs : List Worker)
      → find (has_token t hash) xs ≡ some v
      → suc
          (count (holds hash) (update_where (λ x. same x.id v.id) (with_credential credential) xs))
        ≤ count (holds hash) xs
  cleared_lt v [] h = absurd cc
  cleared_lt v (x ∷ xs) h = elim (Bool-cases (has_token t hash x)) [
    | inl e ↦ ground (arith, e, h, cleared_le v.id xs, same_self v.id)
    | inr e ↦ ground (arith, e, h, cleared_lt v xs)
  ]

  -- Without a holder, the token finds no worker.
  find-none : (xs : List Worker) → count (holds hash) xs ≤ 0 → find (has_token t hash) xs ≡ none
  find-none [] h = refl
  find-none (x ∷ xs) h = ground (arith, h, find-none xs)

module _ (env : Env) (token : String) where
  -- No worker holds the token.
  abbrev Spent : Store → Type 0
  Spent s = count_holders (env.hash_credential token) s ≤ 0

  -- If the answer is a credential, the token is spent.
  abbrev IsSpending : Option EnrollmentResult × World → Type 0
  IsSpending (answer, w) = (r : EnrollmentResult) → answer ≡ some r → Spent w.store

  exchange-IsSpending :
      (t : ℤ) (v : Worker) (credential : String) (w : World)
      → get_worker_by_enrollment_token t (env.hash_credential token) w.store ≡ some v
      → count_holders (env.hash_credential token) w.store ≤ 1
      → IsSpending (exchange env v credential w)
  unfolding exchange get_worker_by_enrollment_token update_worker_credential_hash update_worker
  exchange-IsSpending t v credential w found one =
      elim (exec-cases env (update_worker_credential_hash v.id (env.hash_credential credential))
        w) [
          | inl e ↦ rw (e, ◌>>=◌) (λ r h. absurd cc)
          | inr (s, q, e) ↦
              rw (e, ◌>>=◌)
                (λ r h. spent s q (
                  cleared_lt t (env.hash_credential token) (env.hash_credential credential) v
                    w.store.workers found))
        ]
    where
      after : Store
      after = update_worker v.id (with_credential (env.hash_credential credential)) w.store

      spent :
          (s : Store)
          → update_worker_credential_hash v.id (env.hash_credential credential) w.store ≡ some s
          → suc (count_holders (env.hash_credential token) after)
            ≤ count_holders (env.hash_credential token) w.store
          → Spent s
      spent s q less =
          elim (Bool-cases
            (any (is_other_credential v.id (env.hash_credential credential)) w.store.workers)) [
              | inl taken ↦ absurd (ground (arith, taken, q))
              | inr free ↦
                  let e : after ≡ s = ground (arith, free, q) in
                  subst Spent e (omega (arith, less, one))
            ]

  issue_credential-IsSpending :
      (t : ℤ) (v : Worker) (w : World)
      → get_worker_by_enrollment_token t (env.hash_credential token) w.store ≡ some v
      → count_holders (env.hash_credential token) w.store ≤ 1
      → IsSpending (issue_credential env v w)
  unfolding issue_credential generate_token
  issue_credential-IsSpending t v w found one = elim (Option-cases (env.random_token w.step)) [
    | inl e ↦ rw e (λ r h. absurd cc)
    | inr (c, e) ↦ rw e (exchange-IsSpending t v _ (tick w) found one)
  ]

  enroll-IsSpending :
      (w : World)
      → count_holders (env.hash_credential token) w.store ≤ 1
      → IsSpending (enroll env token w)
  unfolding enroll now
  enroll-IsSpending w one =
      elim (fetch_row-found env
        (get_worker_by_enrollment_token (env.clock w.step) (env.hash_credential token)) (tick w)) [
          | inl e ↦ rw (e, ◌>>=◌) (λ r h. absurd cc)
          | inr (v, found, e) ↦
              rw (e, ◌>>=◌) (issue_credential-IsSpending (env.clock w.step) v _ found one)
        ]

  -- A spent token gives no credential.
  enroll-Spent : (w : World) → Spent w.store → (enroll env token w).0 ≡ none
  unfolding enroll now get_worker_by_enrollment_token
  enroll-Spent w h =
      rw
        (
          fetch_row-none env
              (get_worker_by_enrollment_token (env.clock w.step) (env.hash_credential token))
              (tick w)
              (find-none (env.clock w.step) (env.hash_credential token) "" w.store.workers h),
          ◌>>=◌,
        )
        refl

  -- A token that one worker at most holds gives a credential once: after a call of `Enroll` that
  -- gives one, every call with the same token, at any later time and in any world with the store
  -- that the first one left, gives an error.
  pub enroll_once :
      (r : EnrollmentResult) (w later : World)
      → count_holders (env.hash_credential token) w.store ≤ 1
      → (enroll env token w).0 ≡ some r
      → later.store ≡ (enroll env token w).1.store
      → (enroll env token later).0 ≡ none
  enroll_once r w later one ok same_store =
      enroll-Spent later (subst Spent (sym same_store) (enroll-IsSpending w one r ok))

refused :
    (env : Env) (workspace_id name : String) (max_concurrency : ℤ) (token : String) (w : World)
    → (add_worker env workspace_id name max_concurrency token w).0 ≡ none
unfolding add_worker fresh create_worker exec
refused env workspace_id name max_concurrency token w =
    elim (Bool-cases (env.db_fails (suc w.step))) [ inl e ↦ rw e refl | inr e ↦ rw e refl ]

-- `CreateWorker` of the enrollment always gives an error, whatever calls of the database fail: it
-- leaves the labels NULL, and the table does not allow that.
pub register_worker_fails :
    (env : Env) (workspace_id name : String) (max_concurrency : ℤ) (w : World)
    → (register_worker env workspace_id name max_concurrency w).0 ≡ none
unfolding register_worker generate_token
register_worker_fails env workspace_id name max_concurrency w =
    elim (Option-cases (env.random_token w.step)) [
      | inl e ↦ rw e refl
      | inr (token, e) ↦ rw e (refused env workspace_id name max_concurrency token (tick w))
    ]
