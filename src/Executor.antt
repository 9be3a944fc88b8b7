-- ===== src/Executor.antt =====
-- internal/executor: the methods of execution, and the orchestrator that claims runs, starts them,
-- polls them and brings them to an end.
pub mod Method
pub mod Backoff
pub mod Terminal
pub mod Finalize
pub mod Poll
pub mod Dispatch
pub mod Kill
