-- ===== src/Executor/Method.antt =====
-- internal/executor/method.go: what a method of execution is given and answers. A method itself is a
-- parameter: each of its calls also takes the number of the call, so that two calls may differ.
use croncontrol.Prelude.{
  ℕ, ℤ, pos, Bool, true, false, Option, none, some, List, [], ◌∷◌, String, if◌then◌else◌, ◌&&◌,
  same, eqb_ℤ, leb_ℤ, ltb_ℤ,
}
use croncontrol.Store.{Bytes}

-- `Data` is read by the methods alone, and is kept as the text that it is stored as; the empty text
-- is the empty map.
pub record Handle : Type 0 where
  pub method_name : String
  pub run_id : String
  pub details : String

-- `MethodConfig` is kept as its JSON text. The other fields are never set by the orchestrator.
pub record StartParams : Type 0 where
  pub run_id : String
  pub workspace_id : String
  pub method_config : String

pub record Result : Type 0 where
  pub exit_code : Option ℤ
  pub response_code : Option ℤ
  pub stdout : Bytes
  pub stderr : Bytes
  pub response_body : Bytes
  -- The text of the error.
  pub error : Option String

pub record StartResult : Type 0 where
  pub handle : Handle
  pub result : Option Result

pub record PollCursor : Type 0 where
  pub stdout_offset : ℤ
  pub stderr_offset : ℤ

-- `unset` is the empty string, and `other` any text that is no constant.
pub data RemoteState : Type 0 where
  unset remote_running remote_completed remote_failed remote_killed other : RemoteState

pub record PollResult : Type 0 where
  pub state : RemoteState
  pub exit_code : Option ℤ
  pub stdout_chunk : Bytes
  pub stderr_chunk : Bytes
  pub response_body_chunk : Bytes
  pub cursor : PollCursor
  pub error : Option String

pub data PollError : Type 0 where
  poll_unsupported : PollError
  poll_failed : String → PollError

-- The interface `Method`.
pub record Method : Type 0 where
  pub start : ℕ → StartParams → StartResult × Option String
  pub poll : ℕ → Handle → PollCursor → Option PollError × PollResult
  pub kill : ℕ → Handle → Option String
  pub supports_kill : Bool

-- `Result.IsSuccess`.
unfoldable pub is_success : Result → Bool
is_success r = elim r.exit_code [
  | some code ↦ eqb_ℤ code (pos 0)
  | none ↦ elim r.response_code [
    | some code ↦ leb_ℤ (pos 200) code && ltb_ℤ code (pos 300)
    | none ↦ elim r.error [ none ↦ true | some e ↦ false ]
  ]
]

-- `Registry`: a map from names to methods. The first entry of a name is the one that counts.
abbrev pub Registry : Type 0
Registry = List (String × Method)

-- `Registry.Register`.
unfoldable pub register : String → Method → Registry → Registry
register name m registry = (name, m) ∷ registry

-- `Registry.Get`.
unfoldable pub get : String → Registry → Option Method
get name [] = none
get name ((n, m) ∷ rest) = let found = get name rest in if same n name then some m else found

-- The interface `BlockingMethod`.
pub record BlockingMethod : Type 0 where
  pub execute : ℕ → StartParams → Result × Option String
  pub kill : ℕ → Handle → Option String
  pub supports_kill : Bool

pub empty_poll : PollResult
empty_poll = record {
  state = unset;
  exit_code = none;
  stdout_chunk = [];
  stderr_chunk = [];
  response_body_chunk = [];
  cursor = record { stdout_offset = pos 0; stderr_offset = pos 0 };
  error = none;
}

-- `AdaptBlocking`: `Start` runs to the end, and there is nothing to poll.
unfoldable pub adapt_blocking : String → BlockingMethod → Method
adapt_blocking name m = record {
  start = λ n params.
      let (result, err) = m.execute n params in
      (
        record {
          handle = record { method_name = name; run_id = params.run_id; details = "" };
          result = some result;
        },
        err,
      );
  poll = λ n handle cursor. (some poll_unsupported, empty_poll);
  kill = λ n handle. m.kill n handle;
  supports_kill = m.supports_kill;
}

-- `Registry.RegisterBlocking`.
unfoldable pub register_blocking : String → BlockingMethod → Registry → Registry
unfolding register adapt_blocking
register_blocking name m registry = register name (adapt_blocking name m) registry
