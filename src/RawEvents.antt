-- ===== src/RawEvents.antt =====
-- src/runtime/projection/events.ts: the schemas of raw events, which payloads may be written under
-- them, and how stored events of older schemas are brought to them.
mod Payload
mod Canonical
mod Schema
mod ReadBack
mod Laws
mod Written
mod Tests
