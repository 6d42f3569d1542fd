-- ===== src/RawEvents/Tests.antt =====
-- src/runtime/projection/events.ts at concrete events.
use cued.Base.{
  String, Option, none, some, trim, pos, finite, ◌≡◌, refl, or_else, String-discrete, ℕ_discrete,
  true,
}
use cued.Platform.{timeline_event, message, reaction, participant}
use cued.RawEvents.Payload.{
  spread, Json, text, number, object, field, no_fields, build_participant_payload, get_field,
}
use cued.RawEvents.Schema.{
  build_normalized_raw_event_schema, is_supported, supported_normalized_schemas,
  parse_normalized_schema,
}
use cued.RawEvents.Canonical.{
  NormalizedEvent, normalized, normalize_stored_raw_event_for_projection,
  assert_canonical_raw_event_payload_for_write, holds, legacy_rules, parsed_event, upcast_event,
  canonicalize_projected_schema, normalized_if, stored_schema, write_rules,
}
use cued.RawEvents.ReadBack.{IsSettled}
use cued.RawEvents.Written.{assert_canonical_raw_event_payload_for_write-normalize}
use cued.RawEvents.Laws.{normalize_stored_raw_event_for_projection-IsSettled}

abbrev joined : Json
joined = object (
    field "sourceEventKey" (text "ev-1") (
      field "sourceConversationKey" (text "c-1") (
        field "subjectSourceKey" (text "") (
          field "actorSourceKey" (text "ada") (
            field "eventKind" (text "participant_joined")
              (field "eventAt" (number (finite (pos 7))) no_fields))))))

abbrev joined_payload : Json
joined_payload = object (
    field "sourceConversationKey" (text "c-1") (
      field "participantSourceKey" (text "ada") (
        field "eventAt" (number (finite (pos 7))) (
          field "metadata"
            (object (field "legacyTimelineEventKind" (text "participant_joined") no_fields))
            no_fields))))

joined_rebuilt : build_participant_payload joined ≡ some joined_payload
unfolding build_participant_payload String-discrete
joined_rebuilt = refl

abbrev legacy_schema : Option String
legacy_schema = some " timeline_event.participant_joined@1 "

joined_upcast :
    normalize_stored_raw_event_for_projection timeline_event "participant_joined" legacy_schema
      joined
    ≡ some (normalized participant "joined" joined_payload)
unfolding normalize_stored_raw_event_for_projection canonicalize_projected_schema legacy_rules
    upcast_event normalized_if build_participant_payload stored_schema String-discrete ℕ_discrete
    trim
joined_upcast = refl

normalize_stored_raw_event_for_projection-IsSettled_example :
    IsSettled (normalized participant "joined" joined_payload)
normalize_stored_raw_event_for_projection-IsSettled_example =
    normalize_stored_raw_event_for_projection-IsSettled timeline_event "participant_joined"
      legacy_schema joined (normalized participant "joined" joined_payload) joined_upcast

-- A kind that no entity has.
unsupported_refused :
    normalize_stored_raw_event_for_projection message "archived" none joined ≡ none
unfolding normalize_stored_raw_event_for_projection canonicalize_projected_schema legacy_rules
    parsed_event stored_schema String-discrete ℕ_discrete trim parse_normalized_schema is_supported
    build_normalized_raw_event_schema
unsupported_refused = refl

abbrev added : Json
added = object (
    field "sourceMessageKey" (text "m-1")
      (field "sourceConversationKey" (text "c-1") (field "emoji" (text "+1") no_fields)))

added_accepted : assert_canonical_raw_event_payload_for_write reaction "added" none added ≡ true
unfolding assert_canonical_raw_event_payload_for_write write_rules holds is_supported
    supported_normalized_schemas build_normalized_raw_event_schema String-discrete ℕ_discrete trim
    get_field
added_accepted = refl

assert_canonical_raw_event_payload_for_write-normalize_example :
    (e : NormalizedEvent) × (normalize_stored_raw_event_for_projection reaction "added" none added
      ≡ some e)
    × (e.payload ≡ added)
    × (e.normalized_schema ≡ or_else none (build_normalized_raw_event_schema reaction "added"))
assert_canonical_raw_event_payload_for_write-normalize_example =
    assert_canonical_raw_event_payload_for_write-normalize reaction "added" none added
      added_accepted

-- Metadata that is a text of eleven characters gets a key for each of them.
last_of_eleven : get_field "10" (object (spread (some (text "abcdefghijk")))) ≡ some (text "k")
unfolding spread get_field String-discrete ℕ_discrete
last_of_eleven = refl
