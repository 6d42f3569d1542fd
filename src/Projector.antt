-- ===== src/Projector.antt =====
-- src/runtime/projection/projector.ts: how far the raw events are projected, and the caches that
-- are only written where a projection succeeds.
mod Cache
mod Overlay
mod Store
mod Ranges
mod Rebuild
mod Handled
mod NoGap
mod After
mod Rebuilding
mod Runs
mod Tests
