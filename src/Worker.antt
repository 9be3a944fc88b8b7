-- ===== src/Worker.antt =====
-- internal/worker: the control plane's side of the workers.
pub mod Labels
pub mod Dispatcher
pub mod LeastLoaded
pub mod Results
pub mod Outcome
pub mod Status
pub mod Enrollment
pub mod SingleUse
