-- ===== src/Store.antt =====
-- The rows that the scheduler reads and writes: internal/db/models.go, with the columns that the
-- modelled code uses. A column that a CHECK constraint of migrations/00001_initial_setup.sql
-- restricts to a few words is a data type with these words. Times are nanoseconds since 1970.
mod Tables
mod Runs
mod Lists
mod Attempts
mod Processes
mod Jobs
mod Queues
mod NewJobs
mod JobAttempts
mod Workers
unfoldable pub use Tables.*
unfoldable pub use Runs.*
unfoldable pub use Lists.*
unfoldable pub use Attempts.*
unfoldable pub use Processes.*
unfoldable pub use Jobs.*
unfoldable pub use Queues.*
unfoldable pub use NewJobs.*
unfoldable pub use JobAttempts.*
unfoldable pub use Workers.*
pub mod Laws
pub mod JobLaws
pub mod Growth
pub mod Activity
pub mod Due
pub mod Claims
pub mod Bulk
