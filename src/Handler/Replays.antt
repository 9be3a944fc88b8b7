-- ===== src/Handler/Replays.antt =====
-- internal/handler/service.go, `ReplayJob`: the job that it creates.
use croncontrol.Prelude.{
  suc, ◌≡◌, refl, ℤ, false, Option, none, some, [], ◌∷◌, ◌++◌, String, same, same_self, any,
  find-last,
}
use croncontrol.JobState.{pending}
use croncontrol.Store.{Store, Job, find_job, create_replay_job, payload_or, replayed_job}
use croncontrol.World.{World, Env, ◌>>=◌, fresh, now, tick}
use croncontrol.World.Hoare.{IsReliable, exec_row_reliable}
use croncontrol.Handler.{Actor}
use croncontrol.Handler.Jobs.{job_created, or_zero, replay_params, replay_job}

-- What a replay with these arguments makes of a job.
abbrev pub IsReplayOf : Option String → Option ℤ → Job → Job → Type 0
IsReplayOf payload priority j new =
    (new.state ≡ pending)
    × (new.workspace_id ≡ j.workspace_id)
    × (new.queue_id ≡ j.queue_id)
    × (new.payload ≡ payload_or payload j.payload)
    × (new.priority ≡ or_zero priority)
    × (new.replayed_from_job_id ≡ some j.id)
    × (new.runtime_override ≡ none)
    × (new.worker_id_override ≡ none)
    × (new.worker_labels_override ≡ none)

create_replay_job_lem :
    (actor : Actor) (job_id new_id : String) (payload : Option String) (priority : Option ℤ) (t : ℤ)
    (j : Job) (s : Store)
    → find_job job_id s ≡ some j
    → any (λ x. same x.id new_id) s.jobs ≡ false
    → let new = replayed_job (replay_params actor job_id new_id payload priority) t j in
      create_replay_job (replay_params actor job_id new_id payload priority) t s
      ≡ some (new, record s { jobs = s.jobs ++ new ∷ [] })
unfolding create_replay_job
create_replay_job_lem actor job_id new_id payload priority t j s found free =
    rw (found, create_replay_job, free) refl

-- Replaying a job of any workspace, in any state, whichever workspace the caller is in, creates a
-- pending job of the job's own workspace and queue, which is in the table afterwards: with the
-- payload of the request or else the job's, with the priority of the request or else 0 and not the
-- job's, and without the job's choice of a runtime and a worker. (For a database that does not
-- fail, and a new identifier that no job has.)
pub replay_job_lem :
    (env : Env) (actor : Actor) (job_id : String) (payload : Option String) (priority : Option ℤ)
    (j : Job) (w : World)
    → IsReliable env
    → find_job job_id w.store ≡ some j
    → any (λ x. same x.id (env.new_id w.step "job_")) w.store.jobs ≡ false
    → (new : Job) × ((replay_job env actor job_id payload priority w).0 ≡ job_created new)
      × (find_job
            (env.new_id w.step "job_")
            (replay_job env actor job_id payload priority w).1.store
          ≡ some new)
      × IsReplayOf payload priority j new
unfolding replay_job fresh now find_job
replay_job_lem env actor job_id payload priority j w reliable found free =
    let new_id = env.new_id w.step "job_" in
    let t = env.clock (suc w.step) in
    let params = replay_params actor job_id new_id payload priority in
    let new = replayed_job params t j in
    let stored =
      exec_row_reliable env (create_replay_job params t) (tick (tick w)) new
        (record w.store { jobs = w.store.jobs ++ new ∷ [] }) reliable
        (create_replay_job_lem actor job_id new_id payload priority t j w.store found free) in
    (
      new,
      rw (stored, ◌>>=◌) refl,
      rw (stored, ◌>>=◌)
          (find-last (λ x. same x.id new_id) w.store.jobs new free (same_self new_id)),
      (refl, refl, refl, refl, refl, refl, refl, refl, refl),
    )
