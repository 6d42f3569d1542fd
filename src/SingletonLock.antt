-- ===== src/SingletonLock.antt =====
-- src/core/singleton-lock.ts: the lock file that keeps a second daemon from starting.
mod File
mod Lease
mod Holding
mod Safety
mod Torn
mod Tests
unfoldable pub use File.*
unfoldable pub use Lease.*
pub use Holding.*
pub use Safety.*
