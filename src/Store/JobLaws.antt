-- ===== src/Store/JobLaws.antt =====
-- internal/db/jobs.sql.go: how the updates of jobs act on the row that is found, and on the number of
-- running jobs of a queue.
use croncontrol.Prelude.{
  ℕ, ◌+◌, ◌≤◌, ◌≡◌, ◌∙◌, ap, Bool, true, some, List, [], ◌∷◌, ◌&&◌, count, update_where, String,
  same, find-update_where, find-passes, arith,
}
use croncontrol.JobState.{running, is_state}
use croncontrol.Store.Tables.{Job, Store}
use croncontrol.Store.Jobs.{update_job, find_job, count_running_by_queue}

-- The job with this key is `j`.
abbrev pub JobRow : String → Job → Store → Type 0
JobRow id j s = find_job id s ≡ some j

-- A change of a job that leaves its key alone.
abbrev pub KeepsJobId : (Job → Job) → Type 0
KeepsJobId f = (j : Job) → (f j).id ≡ j.id

pub find_job-update_job :
    (id : String) (f : Job → Job) (s : Store) (j : Job)
    → KeepsJobId f
    → JobRow id j s
    → JobRow id (f j) (update_job id f s)
unfolding find_job update_job
find_job-update_job id f s j k h =
    find-update_where (λ x. same x.id id) f s.jobs j h
      (ap (λ i. same i id) (k j) ∙ find-passes (λ x. same x.id id) s.jobs j h)

module _ {A : Type 0} (p q : A → Bool) (f : A → A) where
  -- Changed rows that pass a test passed it before: not more rows pass it.
  pub count-update_where_le :
      (xs : List A)
      → ((x : A) → q (f x) ≡ true → q x ≡ true)
      → count q (update_where p f xs) ≤ count q xs
  count-update_where_le [] h = omega arith
  count-update_where_le (x ∷ xs) h = ground (arith, h x, count-update_where_le xs h)

  -- At most the changed rows are new among those that pass.
  pub count-update_where_add :
      (xs : List A) → count q (update_where p f xs) ≤ count p xs + count q xs
  count-update_where_add [] = omega arith
  count-update_where_add (x ∷ xs) = ground (arith, count-update_where_add xs)

-- A change that neither moves a job into the queue nor makes it run.
abbrev pub AddsNoRunning : (Job → Job) → Type 0
AddsNoRunning f =
    (j : Job) (queue_id : String)
    → (same (f j).queue_id queue_id && is_state (f j).state running) ≡ true
    → (same j.queue_id queue_id && is_state j.state running) ≡ true

pub count_running-update_job_le :
    (queue_id id : String) (f : Job → Job) (s : Store)
    → AddsNoRunning f
    → count_running_by_queue queue_id (update_job id f s) ≤ count_running_by_queue queue_id s
unfolding count_running_by_queue update_job
count_running-update_job_le queue_id id f s h =
    count-update_where_le (λ j. same j.id id)
      (λ j. same j.queue_id queue_id && is_state j.state running) f s.jobs (λ j. h j queue_id)

-- The jobs with a key.
abbrev pub count_keyed : String → Store → ℕ
count_keyed id s = count (λ j. same j.id id) s.jobs

pub count_running-update_job_add :
    (queue_id id : String) (f : Job → Job) (s : Store)
    → count_running_by_queue queue_id (update_job id f s)
      ≤ count_keyed id s + count_running_by_queue queue_id s
unfolding count_running_by_queue update_job
count_running-update_job_add queue_id id f s =
    count-update_where_add (λ j. same j.id id)
      (λ j. same j.queue_id queue_id && is_state j.state running) f s.jobs
