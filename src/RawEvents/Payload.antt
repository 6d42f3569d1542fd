-- ===== src/RawEvents/Payload.antt =====
-- src/runtime/projection/events.ts, `buildSystemMessagePayload` and `buildParticipantPayload`, over
-- the values that `JSON.parse` gives. No answer stands for an exception.
-- Of a number only its whole part is kept, and no more of it is read here.
use Prim.Native.String.{◌++◌ as append}
use cued.Base.{
  ℕ, zero, suc, ltb, drop, ◌/◌, ◌%◌, [], ◌∷◌, Bool, String, Option, none, some, Number, is_empty,
  ◌==◌, string_eq, if◌then◌else◌,
}

mutual
  pub data Json : Type 0 where
    null : Json
    boolean : Bool → Json
    number : Number → Json
    text : String → Json
    array : Items → Json
    object : Fields → Json

  pub data Items : Type 0 where
    no_items : Items
    item : Json → Items → Items

  pub data Fields : Type 0 where
    no_fields : Fields
    field : String → Json → Fields → Fields

unfoldable pub get_in : String → Fields → Option Json
get_in key no_fields = none
get_in key (field name value rest) =
    let below = get_in key rest in if name == key then some value else below

-- A field that is there keeps its place.
unfoldable pub put_in : String → Json → Fields → Fields
put_in key value no_fields = field key value no_fields
put_in key value (field name old rest) =
    let below = put_in key value rest in
    if name == key then field key value rest else field name old below

unfoldable pub take_out : String → Fields → Fields
take_out key no_fields = no_fields
take_out key (field name value rest) =
    let below = take_out key rest in if name == key then rest else field name value below

-- `payload.key`, for any payload.
unfoldable pub get_field : String → Json → Option Json
unfolding get_in
get_field key (object entries) = get_in key entries
get_field key _ = none

abbrev pub as_text : Option Json → Option String
as_text (some (text s)) = some s
as_text _ = none

abbrev pub as_number : Option Json → Option Number
as_number (some (number n)) = some n
as_number _ = none

-- Of a number below ten.
digit_text : ℕ → String
digit_text n =
    elim (drop {A = String} n ("0" ∷ "1" ∷ "2" ∷ "3" ∷ "4" ∷ "5" ∷ "6" ∷ "7" ∷ "8" ∷ "9" ∷ [])) [
      | [] ↦ ""
      | digit ∷ _ ↦ digit
    ]

decimal : ℕ → ℕ → String
unfolding digit_text
decimal zero n = ""
decimal (suc rounds) n =
    let before = decimal rounds (n / 10) in
    if ltb n 10 then digit_text n else append before (digit_text (n % 10))

-- The key of a place in an array or a text; a number has fewer digits than `n + 1`.
index_key : ℕ → String
unfolding decimal
index_key n = decimal (suc n) n

spread_items : ℕ → Items → Fields
unfolding index_key
spread_items n no_items = no_fields
spread_items n (item value rest) = field (index_key n) value (spread_items (suc n) rest)

spread_text : ℕ → String → Fields
unfolding index_key
spread_text n String.[] = no_fields
spread_text n (String.◌∷◌ c s) =
    field (index_key n) (text (String.◌∷◌ c "")) (spread_text (suc n) s)

-- `{ ...(value ?? {}) }`, for texts of the basic plane
unfoldable pub spread : Option Json → Fields
unfolding spread_items spread_text
spread (some (object entries)) = entries
spread (some (array items)) = spread_items 0 items
spread (some (text s)) = spread_text 0 s
spread _ = no_fields

abbrev pub fields_of : Json → Fields
fields_of (object entries) = entries
fields_of _ = no_fields

-- A field whose value may be `undefined`, which no JSON text keeps.
abbrev pub field_if : String → Option Json → Fields → Fields
field_if key none rest = rest
field_if key (some value) rest = field key value rest

system_metadata : String → Fields → Json
unfolding put_in
system_metadata legacy_event_kind fields =
    object (put_in "legacyEventKind" (text legacy_event_kind) fields)

-- A payload of a timeline event is kept, but for its kind and its metadata.
from_timeline : Json → String → Json
unfolding put_in system_metadata get_field spread
from_timeline payload legacy_event_kind = object (
    put_in "metadata" (system_metadata legacy_event_kind (spread (get_field "metadata" payload)))
      (put_in "eventKind" (text "system_message") (fields_of payload)))

-- A payload of a message is made into one.
from_message : Json → String → String → String → Number → Json
unfolding get_field
from_message payload legacy_event_kind message_key conversation_key sent_at = object (
    field "sourceEventKey" (text message_key) (
      field "sourceConversationKey" (text conversation_key) (
        field "eventKind" (text "system_message") (
          field "eventAt" (number sent_at) (
            field "text"
              (elim (as_text (get_field "content" payload)) [
                | none ↦ null
                | some content ↦ text content
              ])
              (field "metadata"
                (object (
                  field "legacyEventKind" (text legacy_event_kind)
                    (field "sourceMessageKey" (text message_key) no_fields)))
                no_fields))))))

message_or_none : Json → String → Option String → Option String → Option Number → Option Json
unfolding from_message
message_or_none payload legacy (some message) (some conversation) (some sent_at) =
    some (from_message payload legacy message conversation sent_at)
message_or_none payload legacy _ _ _ = none

timeline_or_message : Json → String → Option String → Option String → Option Number → Option Json
unfolding message_or_none from_timeline get_field
timeline_or_message payload legacy (some event) (some conversation) (some event_at) =
    some (from_timeline payload legacy)
timeline_or_message payload legacy _ _ _ =
    message_or_none payload legacy (as_text (get_field "sourceMessageKey" payload))
      (as_text (get_field "sourceConversationKey" payload)) (as_number (get_field "sentAt" payload))

unfoldable pub build_system_message_payload : Json → String → Option Json
unfolding timeline_or_message
build_system_message_payload payload legacy_event_kind =
    timeline_or_message payload legacy_event_kind (as_text (get_field "sourceEventKey" payload))
      (as_text (get_field "sourceConversationKey" payload))
      (as_number (get_field "eventAt" payload))

nonempty : Option String → Option String
nonempty none = none
nonempty (some key) = if is_empty key then none else some key

-- The first of the two that is a text and not empty.
first_key : Option String → Option String → Option String
unfolding nonempty
first_key subject actor = elim (nonempty subject) [ none ↦ nonempty actor | some key ↦ some key ]

unfoldable pub build_participant_payload : Json → Option Json
unfolding get_field put_in take_out first_key spread
build_participant_payload payload = elim (as_text (get_field "sourceConversationKey" payload)) [
  | none ↦ none
  | some conversation ↦
      elim (first_key (as_text (get_field "subjectSourceKey" payload))
        (as_text (get_field "actorSourceKey" payload))) [
          | none ↦ none
          | some participant ↦ some (
              object (
                field "sourceConversationKey" (text conversation) (
                  field "participantSourceKey" (text participant) (
                    field_if "eventAt" (get_field "eventAt" payload) (
                      field "metadata"
                        (object (elim (get_field "eventKind" payload) [
                          | none ↦
                              take_out "legacyTimelineEventKind"
                                (spread (get_field "metadata" payload))
                          | some kind ↦
                              put_in "legacyTimelineEventKind" kind
                                (spread (get_field "metadata" payload))
                        ]))
                        no_fields)))))
        ]
]
