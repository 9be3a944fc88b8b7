-- ===== src/Handler/QueueTrip.antt =====
-- internal/handler/service.go: what `GetQueue` reads after `CreateQueue`.
use croncontrol.Prelude.{
  suc, ◌≡◌, refl, ap, ◌∙◌, sym, subst, Bool, true, false, Option, none, some, String, if◌then◌else◌,
  ◌||◌, ◌&&◌, same, same_self, any, find-last_if, unless_lem, inl, inr, Bool-cases, Option-cases,
  arith,
}
use croncontrol.Store.{
  Store, Queue, insert_queue, has_name, has_worker, is_execution_method, create_queue, get_queue,
}
use croncontrol.World.{World, Env, exec_row, fresh}
use croncontrol.World.Hoare.{IsReliable, fetch_row_reliable}
use croncontrol.Handler.Queues.{
  QueueRequest, queue_created, queue_loaded, queue_not_found, create_queue_request,
  get_queue_request, insert_queue_row, text_or_direct, new_queue, read_runtime, get_member,
}

-- A value behind a guard that admits.
guard_lem :
    {A : Type 0} (b : Bool) (o : Option A) (c : A) → (if b then o else none) ≡ some c → o ≡ some c
guard_lem true o c e = e
guard_lem false o c e = absurd cc

abbrev reads : String → String → Queue → Bool
reads id workspace_id q = same q.id id && same q.workspace_id workspace_id

module _ (q : Queue) (s : Store) (workspace_id : String) where
  -- A row that was inserted is read in its own workspace, and in no other.
  insert_queue_lem :
      (new : Queue) (s' : Store)
      → insert_queue q s ≡ some (new, s')
      → (q ≡ new)
        × (get_queue new.id workspace_id s'
            ≡ (if same new.workspace_id workspace_id then some new else none))
  unfolding get_queue
  insert_queue_lem new s' e =
      let taken = λ (x : Queue). same x.id q.id || has_name q.workspace_id q.name x in
      let (free, made) = unless_lem (any taken s.queues) _ _ e in
      let found =
        find-last_if taken (reads q.id workspace_id) s.queues q free (λ y h. ground (arith, h)) in
      subst
        (λ p.
          (q ≡ p.0)
          × (get_queue p.0.id workspace_id p.1
              ≡ (if same p.0.workspace_id workspace_id then some p.0 else none)))
        made (refl, rw (found, same_self q.id) refl)

  get_queue-create_queue :
      (new : Queue) (s' : Store)
      → create_queue q s ≡ some (new, s')
      → (q ≡ new)
        × (get_queue new.id workspace_id s'
            ≡ (if same new.workspace_id workspace_id then some new else none))
  unfolding create_queue
  get_queue-create_queue new s' e =
      insert_queue_lem new s'
        (guard_lem (is_execution_method q.execution_method && has_worker q.worker_id s) _ _ e)

-- The answer that a queue was created tells the row that was inserted.
abbrev Inserted : String → Queue → Store → Store → Type 0
Inserted workspace_id q s s' =
    (row : Queue) × (row.workspace_id ≡ workspace_id) × (create_queue row s ≡ some (q, s'))

module _ (env : Env) (workspace_id : String) (r : QueueRequest) (w w' : World) (q : Queue)
    (reliable : IsReliable env) where
  insert_queue_row-Inserted :
      insert_queue_row env workspace_id r w ≡ (queue_created q, w')
      → Inserted workspace_id q w.store w'.store
  unfolding insert_queue_row exec_row fresh
  insert_queue_row-Inserted = elim (Option-cases (read_runtime (text_or_direct r.runtime))) [
    | inl e ↦ rw e (λ h. absurd cc)
    | inr (runtime, e) ↦
        let row = new_queue (env.new_id w.step "que_") workspace_id runtime r in
        elim (Option-cases (create_queue row w.store)) [
          | inl n ↦ rw (e, reliable (suc w.step), n) (λ h. absurd cc)
          | inr ((new, s'), found) ↦
              rw (e, reliable (suc w.step), found)
                (λ h.
                  let created = ap (λ p. p.0) h in
                  let stored = ap (λ p. p.1.store) h in (row, refl, found ∙ cc))
        ]
  ]

  create_queue_request-Inserted :
      create_queue_request env workspace_id r w ≡ (queue_created q, w')
      → Inserted workspace_id q w.store w'.store
  unfolding create_queue_request
  create_queue_request-Inserted =
      elim (Bool-cases
        (same (get_member "" r.name) "" || same (get_member "" r.execution_method) "")) [
          | inl e ↦ rw e (λ h. absurd cc)
          | inr e ↦ rw e insert_queue_row-Inserted
        ]

-- A queue that was created is what a request for its identifier reads from then on in the workspace
-- of its creation, and in any other workspace there is no such queue. (For a database that does not
-- fail.)
pub get_queue_request-create_queue_request :
    (env : Env) (workspace_id other : String) (r : QueueRequest) (w w' : World) (q : Queue)
    → IsReliable env
    → create_queue_request env workspace_id r w ≡ (queue_created q, w')
    → (get_queue_request env q.id other w').0
      ≡ (if same workspace_id other then queue_loaded q else queue_not_found)
unfolding get_queue_request
get_queue_request-create_queue_request env workspace_id other r w w' q reliable e =
    let (row, home, made) = create_queue_request-Inserted env workspace_id r w w' q reliable e in
    let (same_row, got) = get_queue-create_queue row w.store other q w'.store made in
    let at_home : q.workspace_id ≡ workspace_id = ap (λ x. x.workspace_id) (sym same_row) ∙ home in
    elim (Bool-cases (same workspace_id other)) [
      | inl here ↦
          rw (fetch_row_reliable env (get_queue q.id other) w' reliable, got, at_home, here) refl
      | inr away ↦
          rw (fetch_row_reliable env (get_queue q.id other) w' reliable, got, at_home, away) refl
    ]
