-- ===== src/RawEvents/Written.antt =====
-- src/runtime/projection/events.ts: how an event that was written is read.
use cued.Base.{
  true, false, String, Option, none, some, ◌≡◌, refl, sym, Bool-cases, inl, inr, string_eq, or_else,
  trim, is_empty,
}
use mathlib.Core.Bool.{false≢true}
use cued.Platform.{EntityKind}
use cued.RawEvents.Payload.{Json}
use cued.RawEvents.Schema.{
  build_normalized_raw_event_schema, is_supported, supported_normalized_schemas,
}
use cued.RawEvents.Canonical.{
  NormalizedEvent, normalized, normalize_stored_raw_event_for_projection, stored_schema,
  assert_canonical_raw_event_payload_for_write,
}
use cued.RawEvents.ReadBack.{IsReadAs, IsRead, AllRead-any, supported_read}

written_schema :
    (entity : EntityKind) (kind : String) (given : Option String)
    → trim (or_else given (build_normalized_raw_event_schema entity kind))
      ≡ or_else given (build_normalized_raw_event_schema entity kind)
    → is_empty (or_else given (build_normalized_raw_event_schema entity kind)) ≡ false
    → stored_schema entity kind given
      ≡ or_else given (build_normalized_raw_event_schema entity kind)
unfolding stored_schema
written_schema entity kind none t e = refl
written_schema entity kind (some s) t e = rw (t, e) refl

written_schema-is_supported :
    (entity : EntityKind) (kind : String) (given : Option String) (body : Json)
    → assert_canonical_raw_event_payload_for_write entity kind given body ≡ true
    → is_supported (or_else given (build_normalized_raw_event_schema entity kind)) ≡ true
unfolding assert_canonical_raw_event_payload_for_write
written_schema-is_supported entity kind given body h =
    elim (Bool-cases
      (is_supported (or_else given (build_normalized_raw_event_schema entity kind)))) [
        | inl yes_it ↦ yes_it
        | inr not_it ↦
            absurd (false≢true (rw (not_it, assert_canonical_raw_event_payload_for_write) at h))
      ]

read_as_written :
    (entity : EntityKind) (kind : String) (given : Option String) (body : Json)
    → IsRead (or_else given (build_normalized_raw_event_schema entity kind))
    → (e : NormalizedEvent) × (normalize_stored_raw_event_for_projection entity kind given body
        ≡ some e)
      × (e.payload ≡ body)
      × (e.normalized_schema ≡ or_else given (build_normalized_raw_event_schema entity kind))
unfolding normalize_stored_raw_event_for_projection IsRead IsReadAs normalized
read_as_written entity kind given body read = (
  normalized read.0 read.1 body,
  rw (written_schema entity kind given read.2.3 read.2.4) (read.2.2 body),
  refl,
  sym read.2.0,
)

-- An event that the check before a write lets pass is accepted for projection with its payload as
-- it was written, under the schema that it was given or, when it was given none, that of its entity
-- and kind.
pub assert_canonical_raw_event_payload_for_write-normalize :
    (entity : EntityKind) (kind : String) (given : Option String) (body : Json)
    → assert_canonical_raw_event_payload_for_write entity kind given body ≡ true
    → (e : NormalizedEvent) × (normalize_stored_raw_event_for_projection entity kind given body
        ≡ some e)
      × (e.payload ≡ body)
      × (e.normalized_schema ≡ or_else given (build_normalized_raw_event_schema entity kind))
unfolding supported_normalized_schemas is_supported
assert_canonical_raw_event_payload_for_write-normalize entity kind given body h =
    read_as_written entity kind given body (
      AllRead-any (or_else given (build_normalized_raw_event_schema entity kind))
        supported_normalized_schemas supported_read
        (written_schema-is_supported entity kind given body h))
