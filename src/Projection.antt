-- ===== src/Projection.antt =====
-- src/runtime/projection/service.ts: the ranges of raw events that projection runs cover, and the
-- hooks on new messages, which wait until the rows before them are projected.
mod Details
mod Ranges
mod Hooks
mod Delivery
mod Undisturbed
mod Release
mod Tests
unfoldable pub use Details.*
pub use Ranges.*
unfoldable pub use Hooks.*
pub use Release.*
