-- ===== src/RawEvents/Canonical.antt =====
-- src/runtime/projection/events.ts: which raw events may be written, and how a stored raw event is
-- read for projection, `assertCanonicalRawEventPayloadForWrite` and
-- `normalizeStoredRawEventForProjection`. No answer stands for an exception.
use cued.Base.{
  Bool, true, false, ◌&&◌, String, List, [], ◌∷◌, Option, none, some, all, find_by, is_empty, not,
  trim, finite, ◌==◌, string_eq, if◌then◌else◌, or_else,
}
use cued.Platform.{EntityKind, message, reaction, participant, timeline_event}
use cued.RawEvents.Payload.{
  Json, text, boolean, number, object, get_field, build_system_message_payload,
  build_participant_payload,
}
use cued.RawEvents.Schema.{build_normalized_raw_event_schema, is_supported, parse_normalized_schema}

-- `assertStringField` or `assertNumberField` of a field.
pub data FieldCheck : Type 0 where
  string_field number_field : String → FieldCheck

unfoldable pub holds : FieldCheck → Json → Bool
unfolding get_field trim
holds (string_field name) payload = elim (get_field name payload) [
  | some (text value) ↦ not (is_empty (trim value))
  | _ ↦ false
]
holds (number_field name) payload = elim (get_field name payload) [
  | some (number (finite n)) ↦ true
  | _ ↦ false
]

abbrev pub is_object : Json → Bool
is_object (object entries) = true
is_object _ = false

pub record WriteRule : Type 0 where
  pub schema : String
  pub required : List FieldCheck

abbrev in_conversation : List FieldCheck
in_conversation = string_field "sourceConversationKey" ∷ []

abbrev of_message : List FieldCheck
of_message = string_field "sourceMessageKey" ∷ in_conversation

abbrev of_reaction : List FieldCheck
of_reaction =
    string_field "sourceMessageKey"
    ∷ string_field "sourceConversationKey"
    ∷ string_field "emoji"
    ∷ []

abbrev of_participant : List FieldCheck
of_participant = string_field "sourceConversationKey" ∷ string_field "participantSourceKey" ∷ []

-- The cases of the switch.
unfoldable pub write_rules : List WriteRule
write_rules =
    record {
      schema = "contact.aliased@1";
      required = string_field "aliasSourceEntityKey" ∷ string_field "canonicalSourceEntityKey" ∷ [];
    }
    ∷ record { schema = "contact.observed@1"; required = string_field "sourceEntityKey" ∷ [] }
    ∷ record { schema = "conversation.observed@1"; required = in_conversation }
    ∷ record { schema = "conversation.removed@1"; required = in_conversation }
    ∷ record {
      schema = "call.observed@1";
      required =
          string_field "sourceCallKey"
          ∷ string_field "sourceConversationKey"
          ∷ number_field "startedAt"
          ∷ [];
    }
    ∷ record { schema = "call.deleted@1"; required = in_conversation }
    ∷ record { schema = "message.created@1"; required = of_message }
    ∷ record { schema = "message.updated@1"; required = of_message }
    ∷ record { schema = "message.deleted@1"; required = of_message }
    ∷ record { schema = "message.read_receipt@1"; required = of_message }
    ∷ record { schema = "reaction.added@1"; required = of_reaction }
    ∷ record { schema = "reaction.removed@1"; required = of_reaction }
    ∷ record { schema = "participant.joined@1"; required = of_participant }
    ∷ record { schema = "participant.left@1"; required = of_participant }
    ∷ record {
      schema = "timeline_event.system_message@1";
      required = string_field "sourceEventKey" ∷ string_field "sourceConversationKey" ∷ [];
    }
    ∷ []

-- Whether the check before a write lets the event pass.
unfoldable pub assert_canonical_raw_event_payload_for_write :
    EntityKind → String → Option String → Json → Bool
unfolding build_normalized_raw_event_schema is_supported write_rules holds
assert_canonical_raw_event_payload_for_write entity_kind event_kind given payload =
    let normalized_schema =
      or_else given (build_normalized_raw_event_schema entity_kind event_kind) in
    is_supported normalized_schema
    && is_object payload
    && elim (find_by (λ r. r.schema == normalized_schema) write_rules) [
      | none ↦ false
      | some rule ↦ all (λ check. holds check payload) rule.required
    ]

pub record NormalizedEvent : Type 0 where
  pub entity_kind : EntityKind
  pub event_kind : String
  pub normalized_schema : String
  pub payload : Json

unfoldable pub normalized : EntityKind → String → Json → NormalizedEvent
unfolding build_normalized_raw_event_schema
normalized entity kind body = record {
  entity_kind = entity;
  event_kind = kind;
  normalized_schema = build_normalized_raw_event_schema entity kind;
  payload = body;
}

-- What the switch does with a payload: keeps it, rebuilds it, or reads the kind off it.
pub data Upcast : Type 0 where
  renamed : EntityKind → String → Upcast
  as_system_message : String → Upcast
  as_participant : String → Upcast
  as_reaction : Upcast

pub record LegacyRule : Type 0 where
  pub schema : String
  pub upcast : Upcast

unfoldable pub legacy_rules : List LegacyRule
legacy_rules =
    record { schema = "message.message_created@1"; upcast = renamed message "created" }
    ∷ record { schema = "message.message_updated@1"; upcast = renamed message "updated" }
    ∷ record { schema = "message.message_deleted@1"; upcast = renamed message "deleted" }
    ∷ record { schema = "message.message_read_receipt@1"; upcast = renamed message "read_receipt" }
    ∷ record {
      schema = "message.message_observed@1";
      upcast = as_system_message "message_observed";
    }
    ∷ record { schema = "reaction.created@1"; upcast = as_reaction }
    ∷ record { schema = "reaction.reaction_added@1"; upcast = renamed reaction "added" }
    ∷ record { schema = "reaction.reaction_removed@1"; upcast = renamed reaction "removed" }
    ∷ record {
      schema = "timeline_event.linkedin_system_message@1";
      upcast = as_system_message "linkedin_system_message";
    }
    ∷ record {
      schema = "timeline_event.linkedin_group_read_receipt@1";
      upcast = as_system_message "linkedin_group_read_receipt";
    }
    ∷ record {
      schema = "timeline_event.linkedin_conversation_removed@1";
      upcast = as_system_message "linkedin_conversation_removed";
    }
    ∷ record { schema = "timeline_event.participant_joined@1"; upcast = as_participant "joined" }
    ∷ record { schema = "timeline_event.participant_left@1"; upcast = as_participant "left" }
    ∷ []

abbrev pub kind_if_active : Option Json → String
kind_if_active (some (boolean false)) = "removed"
kind_if_active _ = "added"

unfoldable pub reaction_kind : Json → String
unfolding get_field
reaction_kind payload = kind_if_active (get_field "isActive" payload)

unfoldable pub normalized_if : EntityKind → String → Option Json → Option NormalizedEvent
unfolding normalized
normalized_if entity kind none = none
normalized_if entity kind (some body) = some (normalized entity kind body)

unfoldable pub upcast_event : Upcast → Json → Option NormalizedEvent
unfolding normalized_if normalized reaction_kind
upcast_event (renamed entity kind) body = some (normalized entity kind body)
upcast_event (as_system_message label) body =
    normalized_if timeline_event "system_message" (build_system_message_payload body label)
upcast_event (as_participant kind) body =
    normalized_if participant kind (build_participant_payload body)
upcast_event as_reaction body = some (normalized reaction (reaction_kind body) body)

-- The default case of the switch.
unfoldable pub parsed_event : String → Json → Option NormalizedEvent
unfolding parse_normalized_schema is_supported
parsed_event schema body = elim (parse_normalized_schema schema) [
  | none ↦ none
  | some parsed ↦
      if is_supported schema
      then some (record {
        entity_kind = parsed.entity_kind;
        event_kind = parsed.event_kind;
        normalized_schema = schema;
        payload = body;
      })
      else none
]

unfoldable pub canonicalize_projected_schema : String → Json → Option NormalizedEvent
unfolding legacy_rules upcast_event parsed_event
canonicalize_projected_schema schema body = elim (find_by (λ r. r.schema == schema) legacy_rules) [
  | some rule ↦ upcast_event rule.upcast body
  | none ↦ parsed_event schema body
]

-- `normalizedSchema?.trim() || …`
unfoldable pub stored_schema : EntityKind → String → Option String → String
unfolding trim build_normalized_raw_event_schema
stored_schema entity kind none = build_normalized_raw_event_schema entity kind
stored_schema entity kind (some given) =
    if is_empty (trim given) then build_normalized_raw_event_schema entity kind else trim given

unfoldable pub normalize_stored_raw_event_for_projection :
    EntityKind → String → Option String → Json → Option NormalizedEvent
unfolding stored_schema canonicalize_projected_schema
normalize_stored_raw_event_for_projection entity kind given body =
    canonicalize_projected_schema (stored_schema entity kind given) body
