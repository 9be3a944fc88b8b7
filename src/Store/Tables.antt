-- ===== src/Store/Tables.antt =====
-- internal/db/models.go: the row types, and the store that holds the tables.
use croncontrol.Prelude.{ℕ, ℤ, Bool, Option, List, String}
use croncontrol.JobState
use croncontrol.RunState.{State}

-- Bytes of a text that the program takes the length of, cuts or splits.
abbrev pub Bytes : Type 0
Bytes = List ℕ

-- A text that the program formats: its parts, before they are joined.
pub data Message : Type 0 where
  plain : String → Message
  -- The first text, then the second.
  prefixed : String → String → Message
  -- `HTTP %d`, and `: %s` if there is a body.
  http_status : ℤ → Option Bytes → Message
  -- `exit code %d`, and `: %s` if there is a text on stderr.
  exit_status : ℤ → Option Bytes → Message

pub data Origin : Type 0 where
  from_cron from_fixed_delay from_manual from_one_time from_recovery from_dependency : Origin
  from_replay : Origin

pub data ScheduleType : Type 0 where
  cron fixed_delay on_demand : ScheduleType

pub data OnOverlap : Type 0 where
  skip queue : OnOverlap

pub data Runtime : Type 0 where
  direct worker : Runtime

pub data MissPolicy : Type 0 where
  execute_missed skip_missed : MissPolicy

pub data DependencyType : Type 0 where
  after after_success : DependencyType

pub data TimeoutAction : Type 0 where
  kill alert both : TimeoutAction

pub data WorkspaceState : Type 0 where
  active suspended archived : WorkspaceState

pub data Stream : Type 0 where
  stdout stderr : Stream

-- A PostgreSQL interval that is not NULL.
pub record Interval : Type 0 where
  pub microseconds : ℤ
  pub days : ℤ
  pub months : ℤ

pub record Run : Type 0 where
  pub id : String
  pub workspace_id : String
  pub process_id : String
  pub scheduled_at : ℤ
  pub state : State
  pub origin : Origin
  pub attempt : ℤ
  pub max_attempts : ℤ
  pub next_attempt_at : Option ℤ
  pub started_at : Option ℤ
  pub finished_at : Option ℤ
  pub duration_ms : Option ℤ
  pub exit_code : Option ℤ
  pub last_heartbeat_at : Option ℤ
  pub queue_reason : Option Message
  pub waiting_reason : Option Message
  pub actor_type : Option String
  pub actor_id : Option String
  pub killed_by_actor_type : Option String
  pub killed_by_actor_id : Option String
  pub triggered_by_run_id : Option String
  pub effective_config : Option String
  pub worker_id : Option String
  pub tags : List String
  pub execution_handle : Option String
  pub stdout_offset : ℤ
  pub stderr_offset : ℤ

pub record RunAttempt : Type 0 where
  pub id : String
  pub run_id : String
  pub attempt_number : ℤ
  pub started_at : Option ℤ
  pub finished_at : Option ℤ
  pub duration_ms : Option ℤ
  pub exit_code : Option ℤ
  pub error_message : Option Message

pub record RunOutput : Type 0 where
  pub id : String
  pub run_id : String
  pub stream : Stream
  pub content : Bytes

pub record Process : Type 0 where
  pub id : String
  pub workspace_id : String
  pub schedule_type : ScheduleType
  pub schedule : Option String
  pub delay_duration : Option Bytes
  pub timezone : Option String
  pub miss_policy : Option MissPolicy
  pub max_recovery_slots : ℤ
  pub allow_parallel : Bool
  pub on_overlap : OnOverlap
  pub execution_method : String
  pub runtime : Runtime
  pub worker_id : Option String
  pub worker_labels : Option String
  pub method_config : String
  pub max_attempts : ℤ
  pub retry_backoff : Option Bytes
  pub execution_timeout : Option Interval
  pub heartbeat_timeout : Option Interval
  pub timeout_action : TimeoutAction
  pub depends_on_process_id : Option String
  pub dependency_type : Option DependencyType
  pub tags : List String
  pub enabled : Bool

pub record Workspace : Type 0 where
  pub id : String
  pub state : WorkspaceState

pub record Job : Type 0 where
  pub id : String
  pub workspace_id : String
  pub queue_id : String
  pub runtime_override : Option Runtime
  pub worker_id_override : Option String
  pub worker_labels_override : Option String
  pub payload : String
  pub priority : ℤ
  pub max_attempts : Option ℤ
  pub attempt : ℤ
  pub retry_backoff : Option Bytes
  pub state : JobState.State
  pub scheduled_at : ℤ
  pub expires_at : Option ℤ
  pub next_attempt_at : Option ℤ
  pub reference : Option String
  pub idempotency_key : Option String
  pub replayed_from_job_id : Option String
  pub cancel_reason : Option String
  pub waiting_reason : Option Message
  pub actor_type : Option String
  pub actor_id : Option String
  pub effective_config : Option String
  pub tags : List String
  pub worker_id : Option String
  pub duration_ms : Option ℤ
  pub created_at : ℤ
  pub execution_handle : Option String
  pub stdout_offset : ℤ
  pub stderr_offset : ℤ

pub record JobAttempt : Type 0 where
  pub id : String
  pub job_id : String
  pub attempt_number : ℤ
  pub started_at : Option ℤ
  pub finished_at : Option ℤ
  pub duration_ms : Option ℤ
  pub request : String
  pub response_code : Option ℤ
  pub response_body : Option Bytes
  pub truncated : Bool
  pub original_size : Option ℤ
  pub error_message : Option String

pub record Queue : Type 0 where
  pub id : String
  pub workspace_id : String
  pub name : String
  pub execution_method : String
  pub runtime : Runtime
  pub method_config : String
  pub concurrency : ℤ
  pub max_attempts : ℤ
  pub retry_backoff : Bytes
  pub job_timeout : Interval
  pub max_response_size : ℤ
  pub ssh_credential_id : Option String
  pub ssm_profile_id : Option String
  pub k8s_cluster_id : Option String
  pub worker_id : Option String
  pub worker_labels : Option String
  pub tags : List String
  pub enabled : Bool

pub data WorkerStatus : Type 0 where
  online offline unhealthy : WorkerStatus

pub record Worker : Type 0 where
  pub id : String
  pub workspace_id : String
  pub name : String
  pub credential_hash : String
  pub labels : String
  pub capabilities : String
  pub max_concurrency : ℤ
  pub version : Option String
  pub enabled : Bool
  pub status : WorkerStatus
  pub last_heartbeat_at : Option ℤ
  pub consecutive_failures : ℤ
  pub consecutive_healthy : ℤ
  pub enrollment_token_hash : Option String
  pub enrollment_token_expires_at : Option ℤ

pub record Store : Type 0 where
  pub runs : List Run
  pub run_attempts : List RunAttempt
  pub run_output : List RunOutput
  pub processes : List Process
  pub workspaces : List Workspace
  pub jobs : List Job
  pub job_attempts : List JobAttempt
  pub queues : List Queue
  pub workers : List Worker
