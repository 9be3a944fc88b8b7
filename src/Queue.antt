-- ===== src/Queue.antt =====
-- internal/queue: the processor of queue jobs.
pub mod Config
pub mod Finalize
pub mod Outcome
pub mod Agreement
pub mod Concurrency
pub mod Chunks
pub mod Expired
pub mod Dispatch
pub mod Async
pub mod Expiration
