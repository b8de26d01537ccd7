-- ===== src/Examples.antt =====
-- Concrete instances of the interfaces, small databases, and each theorem at work on them.
pub mod Data
pub mod JobRuns
pub mod Queues
pub mod Grades
pub mod Submitted
pub mod WorkerRuns
pub mod CourseRuns
pub mod Accounts
pub mod Files
pub mod Lifecycles
pub mod Artifacts
pub mod Streams
pub mod Pools
pub mod Viewers
pub mod Stores
pub mod Buckets
