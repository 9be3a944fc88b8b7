-- ===== src/World.antt =====
-- What a handler acts on: the store, the orchestrator's map of running handles, and the signals that
-- it sends to the outside. Every action on the outside takes the next number, `step`, and the
-- environment says what happens then: whether a call of the database fails, what the clock reads,
-- which ULID is drawn.
--
-- The environment stands for code that is not in the repository: the database driver, `time`,
-- `ulid`, `encoding/json`, and the methods of execution behind their interface.
pub mod Hoare
use croncontrol.Prelude.{
  ℕ, suc, ◌++◌, ℤ, Bool, true, false, Option, none, some, List, [], ◌∷◌, String, if◌then◌else◌,
}
use croncontrol.Store.{Bytes, Stream, Runtime, Store}
use croncontrol.Executor.Method.{Handle, Registry}

-- `JobAttemptLog` of internal/logging.
pub record JobAttemptLog : Type 0 where
  pub attempt_number : ℤ
  pub started_at : ℤ
  pub finished_at : ℤ
  pub duration_ms : ℤ
  pub response_code : Option ℤ
  pub response_body : Bytes
  -- The empty text where there is no error.
  pub error_message : String

pub data Signal : Type 0 where
  -- A call of `Method.Kill`.
  kill_sent : Handle → Signal
  -- A write of the logging backend: run, stream, text.
  output_logged : String → Stream → Bytes → Signal
  -- A write of the logging backend for an attempt of a job.
  job_attempt_logged : String → JobAttemptLog → Signal
  -- An alert of the monitor: run, reason.
  alert_sent : String → String → Signal
  run_completed run_failed : Signal

-- `Task` of internal/worker. The configuration is kept as its JSON text. The environment of a process
-- and the base URL, which no modelled code reads, are left out.
pub record Task : Type 0 where
  pub id : String
  -- `run` or `job`.
  pub kind : String
  pub attempt_id : String
  pub workspace_id : String
  pub execution_method : String
  pub method_config : String

pub record World : Type 0 where
  pub store : Store
  pub running : List (String × Handle)
  pub signals : List Signal
  -- The map `taskQueues` of the worker dispatcher: what waits in the channel of each worker.
  pub task_queues : List (String × List Task)
  pub step : ℕ
  -- Whether a goroutine has panicked.
  pub panicked : Bool

pub record Env : Type 0 where
  -- Whether the call of the database with this number fails.
  pub db_fails : ℕ → Bool
  -- What the clock reads.
  pub clock : ℕ → ℤ
  -- A new identifier with a prefix.
  pub new_id : ℕ → String → String
  -- What the other handlers do to the store while this one waits for a method to run.
  pub others : ℕ → Store → Store
  -- `time.ParseDuration`; `none` is an error.
  pub parse_duration : Bytes → Option ℤ
  -- `json.Marshal` and `json.Unmarshal` on a handle.
  pub encode_handle : Handle → Option String
  pub decode_handle : String → Option Handle
  -- `json.Marshal` of the map that dispatch snapshots: method, configuration, runtime.
  pub encode_snapshot : String → String → Runtime → String
  -- The same for the map of a job: method, configuration.
  pub encode_job_snapshot : String → String → String
  -- `json.Unmarshal` into a map, of which the texts of the values are kept, as `json.Marshal` writes
  -- them, into `any`, and into a slice of texts; `none` is an error, and nil is empty. `json.Marshal`
  -- of a map.
  pub decode_object : String → Option (List (String × String))
  pub decode_value : String → Option String
  pub decode_strings : String → Option (List String)
  pub encode_object : List (String × String) → String
  -- The text of the error of the call with this number.
  pub error_text : ℕ → String
  -- `hashCredential` and `generateToken` of the worker's enrollment.
  pub hash_credential : String → String
  pub random_token : ℕ → Option String
  pub registry : Registry
  -- Whether a logging backend is set.
  pub has_log_backend : Bool

-- An action that returns an `A`.
abbrev pub M : Type 0 → Type 0
M A = World → A × World

infixl 5 ◌>>=◌ ◌>>◌
abbrev pub ◌>>=◌ : {A B : Type 0} → M A → (A → M B) → M B
◌>>=◌ m f w = let (a, w') = m w in f a w'

abbrev pub ◌>>◌ : {A B : Type 0} → M A → M B → M B
◌>>◌ m k w = let (a, w') = m w in k w'

abbrev pub pure : {A : Type 0} → A → M A
pure a w = (a, w)

abbrev pub done : M (Unit {0})
done w = (tt, w)

-- The same world at the next step.
abbrev pub tick : World → World
tick w = record w { step = suc w.step }

unfoldable pub send : Signal → M (Unit {0})
send s w = (tt, record w { signals = w.signals ++ s ∷ [] })

-- The result of a statement that a constraint may refuse.
abbrev pub settle : World → Option Store → Bool × World
settle w none = (false, w)
settle w (some s) = (true, record w { store = s })

-- The same with a row that the statement returns.
abbrev pub settle_row : {A : Type 0} → World → Option (A × Store) → Option A × World
settle_row w none = (none, w)
settle_row w (some (a, s)) = (some a, record w { store = s })

module _ (env : Env) where
  -- A statement of the database; the answer says that there is no error.
  unfoldable pub exec : (Store → Option Store) → M Bool
  exec f w = if env.db_fails w.step then (false, tick w) else settle (tick w) (f w.store)

  -- A statement that returns a row; `none` is an error.
  unfoldable pub exec_row : {A : Type 0} → (Store → Option (A × Store)) → M (Option A)
  exec_row f w = if env.db_fails w.step then (none, tick w) else settle_row (tick w) (f w.store)

  -- A query of the database; `none` is an error.
  unfoldable pub fetch : {A : Type 0} → (Store → A) → M (Option A)
  fetch f w = (if env.db_fails w.step then none else some (f w.store), tick w)

  -- `time.Now().UTC()`.
  unfoldable pub now : M ℤ
  now w = (env.clock w.step, tick w)

  unfoldable pub fresh : String → M String
  fresh prefix w = (env.new_id w.step prefix, tick w)

  -- A query for one row; `none` is an error, pgx.ErrNoRows included.
  unfoldable pub fetch_row : {A : Type 0} → (Store → Option A) → M (Option A)
  fetch_row f w = (if env.db_fails w.step then none else f w.store, tick w)

  -- A call of a method, while which other handlers may act on the store.
  unfoldable pub call : {A : Type 0} → (ℕ → A) → M A
  call f w = (f w.step, record w { store = env.others w.step w.store; step = suc w.step })

-- A panic: it ends the process.
unfoldable pub panic : M (Unit {0})
panic w = (tt, record w { panicked = true })
