-- ===== src/Tests.antt =====
-- Concrete runs, processes and environments, and the theorems at them.
mod Samples
mod States
mod Tables
mod Attempts
mod Triggering
mod Planning
mod Requests
mod Queues
mod JobRequests
mod Workers
