-- ===== src/RunQueue.antt =====
-- src/runtime/run-queue.ts, `RunQueueService`: what the command line asks the daemon to run. It
-- reads the integrations and puts runs into the table of Runs.
mod Target
mod Service
mod TargetKey
mod OneRun
mod Manual
mod Tests
unfoldable pub use Target.*
unfoldable pub use Service.*
pub use TargetKey.*
pub use OneRun.*
pub use Manual.*
