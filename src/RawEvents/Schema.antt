-- ===== src/RawEvents/Schema.antt =====
-- src/runtime/projection/events.ts: the schemas of raw events, the check before a write and the
-- reading of stored events; src/core/types/provider.ts, `buildNormalizedRawEventSchema`. No answer
-- stands for an exception.
use Prim.Native.Char.{Char, code}
use Prim.Native.String.{◌++◌ as append}
use cued.Base.{
  Bool, ◌&&◌, ◌||◌, String, List, [], ◌∷◌, ◌++◌, map, Option, none, some, any, is_empty, leb, ◌==◌,
  string_eq, nat_eq, if◌then◌else◌,
}
use cued.Platform.{
  EntityKind, contact, conversation, call, message, reaction, participant, timeline_event,
}

unfoldable pub entity_word : EntityKind → String
entity_word contact = "contact"
entity_word conversation = "conversation"
entity_word call = "call"
entity_word message = "message"
entity_word reaction = "reaction"
entity_word participant = "participant"
entity_word timeline_event = "timeline_event"

-- With the version 1, which every call leaves at its default.
unfoldable pub build_normalized_raw_event_schema : EntityKind → String → String
unfolding entity_word
build_normalized_raw_event_schema entity_kind event_kind =
    append (entity_word entity_kind) (append "." (append event_kind "@1"))

abbrev pub entity_kind_values : List EntityKind
entity_kind_values =
    contact ∷ conversation ∷ call ∷ message ∷ reaction ∷ participant ∷ timeline_event ∷ []

unfoldable pub canonical_kinds : EntityKind → List String
canonical_kinds contact = "observed" ∷ "aliased" ∷ []
canonical_kinds conversation = "observed" ∷ "removed" ∷ []
canonical_kinds call = "observed" ∷ "deleted" ∷ []
canonical_kinds message = "created" ∷ "updated" ∷ "deleted" ∷ "read_receipt" ∷ []
canonical_kinds reaction = "added" ∷ "removed" ∷ []
canonical_kinds participant = "joined" ∷ "left" ∷ []
canonical_kinds timeline_event = "system_message" ∷ []

schemas_of : List EntityKind → List String
unfolding canonical_kinds build_normalized_raw_event_schema
schemas_of [] = []
schemas_of (entity ∷ rest) =
    map (build_normalized_raw_event_schema entity) (canonical_kinds entity) ++ schemas_of rest

unfoldable pub supported_normalized_schemas : List String
unfolding schemas_of
supported_normalized_schemas = schemas_of entity_kind_values

unfoldable pub is_supported : String → Bool
unfolding supported_normalized_schemas
is_supported schema = any (λ s. s == schema) supported_normalized_schemas

-- What follows a text that starts with the given one.
strip_prefix : String → String → Option String
strip_prefix String.[] value = some value
strip_prefix (String.◌∷◌ c prefix) String.[] = none
strip_prefix (String.◌∷◌ c prefix) (String.◌∷◌ d value) =
    let rest = strip_prefix prefix value in if code c == code d then rest else none

is_kind_character : Char → Bool
is_kind_character c = (leb 97 (code c) && leb (code c) 122) || code c == 95

-- The event kind of a text `[a-z_]*@1`.
strip_version : String → Option String
unfolding is_kind_character
strip_version String.[] = none
strip_version (String.◌∷◌ c value) =
    let below = strip_version value in
    if String.◌∷◌ c value == "@1"
    then some ""
    else if is_kind_character c
    then elim below [ none ↦ none | some kind ↦ some (String.◌∷◌ c kind) ]
    else none

pub record ParsedSchema : Type 0 where
  pub entity_kind : EntityKind
  pub event_kind : String

with_entity : EntityKind → Option String → Option ParsedSchema
with_entity entity none = none
with_entity entity (some kind) =
    if is_empty kind then none else some (record { entity_kind = entity; event_kind = kind })

-- The alternatives of the expression, one after the other.
match_schema : List EntityKind → String → Option ParsedSchema
unfolding strip_prefix strip_version with_entity entity_word
match_schema [] schema = none
match_schema (entity ∷ others) schema =
    let below = match_schema others schema in
    elim (strip_prefix (append (entity_word entity) ".") schema) [
      | none ↦ below
      | some rest ↦ elim (with_entity entity (strip_version rest)) [
        | none ↦ below
        | some parsed ↦ some parsed
      ]
    ]

unfoldable pub parse_normalized_schema : String → Option ParsedSchema
unfolding match_schema
parse_normalized_schema schema = match_schema entity_kind_values schema
