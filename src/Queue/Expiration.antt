-- ===== src/Queue/Expiration.antt =====
-- internal/queue/processor.go: the body of `expirationLoop`.
use croncontrol.Prelude.{none, some, List, [], ◌∷◌}
use croncontrol.Store.{Job, list_expired_pending_jobs, cancel_job}
use croncontrol.World.{Env, M, ◌>>=◌, ◌>>◌, done, fetch, now}
use croncontrol.Executor.Terminal.{attempt_exec}

module _ (env : Env) where
  unfoldable pub cancel_expired : List Job → M (Unit {0})
  cancel_expired [] = done
  cancel_expired (j ∷ js) = attempt_exec env (cancel_job j.id (some "expired")) >> cancel_expired js

  -- One tick of `expirationLoop`; the database reads its clock in the query.
  unfoldable pub expire_jobs : M (Unit {0})
  expire_jobs = do
    t ← now env
    expired ← fetch env (list_expired_pending_jobs t 100)
    elim expired [ none ↦ done | some js ↦ cancel_expired js ]
