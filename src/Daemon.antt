-- ===== src/Daemon.antt =====
-- src/runtime/daemon/server.ts: the work queues of the background daemon. A queue is drained by a
-- callback; the callbacks are kept by Timer, the drains stand in Drains, and Steps has everything
-- that may happen between them.
mod Timer
mod Wakeups
mod AuthSessions
mod Queues
mod Drains
mod Ingest
mod Redrain
mod Steps
mod Work
mod Alone
mod Tracking
mod Promises
mod ProjectionRun
mod Waiting
mod Covering
mod CoveringTests
mod Tests
