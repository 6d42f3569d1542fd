-- ===== src/Capabilities.antt =====
-- src/core/platform-capabilities.ts: whether a platform can be used on a host, and what it lacks.
mod Availability
mod Laws
mod Permission
mod Tests
