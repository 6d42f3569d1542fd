-- ===== src/Runs.antt =====
-- src/db/database.ts: the table `sync_runs` and the methods of `CuedDatabase` that change it. A
-- run is queued, claimed by a worker under a lease, kept alive, and finished or failed; a claim
-- that was lost is fenced off by the attempt that it names.
mod Types
mod Queue
mod Claim
mod Finish
mod Delete
mod Rows
mod Schedule
mod Writes
mod Exclusive
mod Fencing
mod Recovery
mod Batch
mod Abandon
mod Tests
unfoldable pub use Types.*
unfoldable pub use Queue.*
unfoldable pub use Claim.*
unfoldable pub use Finish.*
unfoldable pub use Delete.*
unfoldable pub use Rows.*
unfoldable pub use Schedule.*
unfoldable pub use Writes.*
pub use Exclusive.*
unfoldable pub use Fencing.*
unfoldable pub use Recovery.*
unfoldable pub use Batch.*
unfoldable pub use Abandon.*
