-- ===== src/Store/Queues.antt =====
-- internal/db/queues.sql.go: the queries on queues.
use croncontrol.Prelude.{
  Bool, true, false, Option, none, some, [], ◌∷◌, ◌++◌, String, if◌then◌else◌, ◌&&◌, ◌||◌, same,
  find, any, update_where,
}
use croncontrol.Store.Tables.{Store, Queue}

abbrev is_queue : String → String → Queue → Bool
is_queue id workspace_id q = same q.id id && same q.workspace_id workspace_id

abbrev pub has_name : String → String → Queue → Bool
has_name workspace_id name q = same q.workspace_id workspace_id && same q.name name

abbrev pub insert_queue : Queue → Store → Option (Queue × Store)
insert_queue q s =
    if any (λ x. same x.id q.id || has_name q.workspace_id q.name x) s.queues
    then none
    else some (q, record s { queues = s.queues ++ q ∷ [] })

-- The workers that the foreign key refers to.
abbrev pub has_worker : Option String → Store → Bool
has_worker none s = true
has_worker (some id) s = any (λ w. same w.id id) s.workers

-- The methods that the table's CHECK constraint allows.
abbrev pub is_execution_method : String → Bool
is_execution_method m = same m "http" || same m "ssh" || same m "ssm" || same m "k8s"

-- `CreateQueue`, with the new row: the parameters are all the columns but the times; `none` is a
-- violated constraint: a key that is taken, a method that is not one of the four, or a worker that
-- is not there. The limit on the length of the name and the keys into tables without a model are
-- not checked.
unfoldable pub create_queue : Queue → Store → Option (Queue × Store)
create_queue q s =
    if is_execution_method q.execution_method && has_worker q.worker_id s
    then insert_queue q s
    else none

-- `GetQueue`; `none` is pgx.ErrNoRows.
unfoldable pub get_queue : String → String → Store → Option Queue
get_queue id workspace_id s = find (is_queue id workspace_id) s.queues

abbrev replace_queue : Queue → Store → Option (Queue × Store)
replace_queue q s =
    if any (λ x. has_name q.workspace_id q.name x && (if same x.id q.id then false else true))
      s.queues
    then none
    else some
        (q, record s { queues = update_where (is_queue q.id q.workspace_id) (λ x. q) s.queues })

-- `UpdateQueue`, which sets every column but the keys, with the new row; `none` is pgx.ErrNoRows or
-- a violated constraint.
unfoldable pub update_queue : Queue → Store → Option (Queue × Store)
update_queue q s = elim (find (is_queue q.id q.workspace_id) s.queues) [
  | none ↦ none
  | some old ↦
      if is_execution_method q.execution_method && has_worker q.worker_id s
      then replace_queue q s
      else none
]
