-- ===== src/Lib.antt =====
-- CronControl schedules processes: it plans runs of cron expressions, keeps chains of runs with a
-- fixed delay, starts the runs that are due through methods of execution (HTTP, SSH, containers),
-- retries attempts that fail, starts dependent processes, and looks for runs that hang. It also
-- takes jobs from queues, and hands runs and jobs to workers that poll for them. All parts share one
-- PostgreSQL database.
--
-- Which file models what:
--
-- - RunState: internal/runstate/state.go, the state machine of runs. JobState:
--   internal/jobstate/state.go, that of queue jobs. `State` has a constructor for each constant and
--   `unknown` for any other string.
-- - Store: the rows and queries of internal/db (models.go, runs.sql.go, run_attempts.sql.go,
--   run_output.sql.go, processes.sql.go, jobs.sql.go, job_attempts.sql.go, queues.sql.go,
--   workers.sql.go), as
--   functions on a record of tables. A query that a
--   constraint can refuse returns `none`. Columns that no modelled code uses are left out.
-- - World: what a handler acts on, and the actions that every part uses. An action takes a world to
--   an answer and a new world. Each action on the outside takes the next number, and the environment
--   says for that number whether the database fails, what the clock reads, and which identifier is
--   drawn. World/Hoare has the rules for reasoning about actions.
-- - Executor: internal/executor. Method is method.go; Backoff, Terminal, Dispatch and Kill are
--   orchestrator.go (`calculateBackoff`, `handleTerminal`, `dispatch`, `tick`, `Kill`); Finalize and
--   Poll are async_runs.go (`finalizeRunResult`; `pollAsyncRun` and the rest). The map `running` is a
--   field of the world.
-- - Queue: internal/queue. Config is job_config.go; Dispatch and Expiration are processor.go
--   (`dispatch` and `tick`; `expirationLoop`); Finalize and Async are async_jobs.go
--   (`finalizeJobResult`; `pollAsyncJob`, `processAsyncJobs`, `processKillRequests`).
-- - Worker: internal/worker. Labels, Dispatcher, Results and Status are dispatcher.go
--   (`matchesWorkerLabels`; `Dispatch`, `selectWorker`, `PollTask`; `ProcessResult`;
--   `ProcessHeartbeat`, `checkStaleWorkers`); Enrollment is enrollment.go. The channels of the
--   workers are a field of the world.
-- - Dependency: internal/dependency/resolver.go. Planner: internal/planner/planner.go. Recovery:
--   internal/recovery/recovery.go. Monitor: internal/monitor/monitor.go.
-- - Wiring: main.go, the callbacks that lead from the orchestrator and the queue processor to the
--   worker dispatcher. Wiring/Round follows a job from there through a worker and back.
-- - Handler: handlers of internal/handler/service.go. Handler itself has those that cancel and kill a
--   run and pause and resume a process; Triggers those that trigger a process and replay a run; Jobs
--   those that cancel and replay a job and that a worker polls; Enqueue those that create jobs;
--   Queues those that create, change and read a queue; Workers the others of workers. Id:
--   internal/id/id.go.
-- - Tests: concrete values, and the theorems at them.
--
-- How the parts meet: the planner, recovery, the resolver and the end of a run create pending runs;
-- `tick` claims them and `dispatch` starts them; the method's result, or the polls of a method that
-- runs on its own, end the attempt; `handleTerminal` calls the hook that main.go fills with the
-- resolver; the monitor marks runs hung and calls the hook that main.go fills with `Kill`. The queue
-- processor claims jobs and starts them through the same methods, with `is_success` and the delays
-- of the executor, or through the callback that main.go fills with the worker dispatcher; a worker
-- takes its tasks from its channel, and its results settle the row of the run or job.
--
-- Code outside the repository is a parameter: the database driver, the clock, the drawing of
-- ULIDs and tokens, the hash of credentials, JSON coding and time.ParseDuration are fields of
-- `Env`; the methods of execution are records of functions that also take the number of the call;
-- the cron library is a function from a time to the next activation, and the test for ULIDs is one
-- on texts. An environment is reliable if the database never fails.
--
-- Goroutines that one tick starts run in the order of their rows; what other handlers do to the
-- store while a method runs is the field `others` of the environment. Times and durations are
-- integers of nanoseconds without overflow, but for the timeouts of the monitor, which wrap and
-- saturate at 64 bits; 32-bit numbers wrap, and logging is left out. The
-- loops over activations and over the chain of dependencies take fuel; for the
-- planner and for recovery two steps more than there are nanoseconds to walk through are enough,
-- since each activation is later than the one before, and one step of fuel is enough for the answer
-- of the check for cycles. The loops on tickers, the other HTTP handlers, the
-- authentication of users, the orchestras, the routing in main.go and the methods themselves are
-- not modelled.
pub mod Prelude
pub mod RunState
pub mod JobState
pub mod Store
pub mod World
pub mod Executor
pub mod Dependency
pub mod Planner
pub mod Queue
pub mod Worker
pub mod Wiring
pub mod Recovery
pub mod Monitor
pub mod Id
pub mod Handler
pub mod Tests
