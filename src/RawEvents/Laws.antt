-- ===== src/RawEvents/Laws.antt =====
-- src/runtime/projection/events.ts: what the normalisation of a stored event gives.
use cued.Base.{
  false, String, List, [], ◌∷◌, Option, none, some, find_by, all, ◌≡◌, ◌⊎◌, refl, subst, Bool-cases,
  Option-cases, inl, inr, arith, String-discrete, ℕ_discrete, ◌==◌, string_eq, trim,
}
use cued.Platform.{EntityKind, reaction, participant, timeline_event}
use cued.RawEvents.Payload.{
  Json, boolean, get_field, build_system_message_payload, build_participant_payload,
}
use cued.RawEvents.Schema.{
  build_normalized_raw_event_schema, is_supported, supported_normalized_schemas,
  parse_normalized_schema,
}
use cued.RawEvents.Canonical.{
  NormalizedEvent, normalized, canonicalize_projected_schema, upcast_event, Upcast, LegacyRule,
  renamed, as_system_message, as_participant, as_reaction,
  normalize_stored_raw_event_for_projection, stored_schema, reaction_kind, kind_if_active,
  legacy_rules, parsed_event, normalized_if,
}
use cued.RawEvents.ReadBack.{IsReadAs, IsSettled, normalized-IsSettled, parsed-IsSettled}

-- The schema that an upcast gives is read back.
UpcastIsRead : Upcast → Type 0
UpcastIsRead (renamed entity kind) =
    IsReadAs entity kind (build_normalized_raw_event_schema entity kind)
UpcastIsRead (as_system_message label) = Unit
UpcastIsRead (as_participant kind) =
    IsReadAs participant kind (build_normalized_raw_event_schema participant kind)
UpcastIsRead as_reaction = Unit

AllUpcast : List LegacyRule → Type 0
AllUpcast [] = Unit
AllUpcast (r ∷ rest) = UpcastIsRead r.upcast × AllUpcast rest

AllUpcast-find :
    (s : String) (rules : List LegacyRule) (found : LegacyRule)
    → AllUpcast rules
    → find_by (λ r. r.schema == s) rules ≡ some found
    → UpcastIsRead found.upcast
unfolding AllUpcast
AllUpcast-find s [] found all h = absurd (cc)
AllUpcast-find s (r ∷ rest) found all h = elim (Bool-cases (r.schema == s)) [
  | inl here ↦
      let same : r ≡ found = grind (arith, rw here at h) in
      subst (λ (x : LegacyRule). UpcastIsRead x.upcast) same all.0
  | inr other ↦ AllUpcast-find s rest found all.1 (rw other at h)
]

legacy_read : AllUpcast legacy_rules
unfolding AllUpcast UpcastIsRead IsReadAs is_supported canonicalize_projected_schema normalized
    build_normalized_raw_event_schema supported_normalized_schemas trim String-discrete ℕ_discrete
    parsed_event parse_normalized_schema legacy_rules
legacy_read = (
  (refl, refl, λ body. refl, refl, refl),
  (
    (refl, refl, λ body. refl, refl, refl),
    (
      (refl, refl, λ body. refl, refl, refl),
      (
        (refl, refl, λ body. refl, refl, refl),
        (
          tt,
          (
            tt,
            (
              (refl, refl, λ body. refl, refl, refl),
              (
                (refl, refl, λ body. refl, refl, refl),
                (
                  tt,
                  (
                    tt,
                    (
                      tt,
                      (
                        (refl, refl, λ body. refl, refl, refl),
                        ((refl, refl, λ body. refl, refl, refl), tt),
                      ),
                    ),
                  ),
                ),
              ),
            ),
          ),
        ),
      ),
    ),
  ),
)

kind_if_active-cases :
    (active : Option Json) → (kind_if_active active ≡ "added") ⊎ (kind_if_active active ≡ "removed")
kind_if_active-cases (some (boolean false)) = inr refl
kind_if_active-cases _ = inl refl

reaction_kind-cases :
    (body : Json) → (reaction_kind body ≡ "added") ⊎ (reaction_kind body ≡ "removed")
unfolding reaction_kind
reaction_kind-cases body = kind_if_active-cases (get_field "isActive" body)

system_message_read :
    IsReadAs timeline_event "system_message"
      (build_normalized_raw_event_schema timeline_event "system_message")
unfolding IsReadAs is_supported canonicalize_projected_schema normalized
    build_normalized_raw_event_schema supported_normalized_schemas trim String-discrete ℕ_discrete
    parsed_event parse_normalized_schema legacy_rules
system_message_read = (refl, refl, λ body. refl, refl, refl)

reaction_read :
    (body : Json)
    → IsReadAs reaction
        (reaction_kind body)
        (build_normalized_raw_event_schema reaction (reaction_kind body))
unfolding IsReadAs is_supported canonicalize_projected_schema normalized
    build_normalized_raw_event_schema supported_normalized_schemas trim String-discrete ℕ_discrete
    parsed_event parse_normalized_schema legacy_rules
reaction_read body = elim (reaction_kind-cases body) [
  | inl is_added ↦ rw is_added (refl, refl, λ body. refl, refl, refl)
  | inr is_removed ↦ rw is_removed (refl, refl, λ body. refl, refl, refl)
]

normalized_if-IsSettled :
    (entity : EntityKind) (kind : String) (made : Option Json) (e : NormalizedEvent)
    → IsReadAs entity kind (build_normalized_raw_event_schema entity kind)
    → normalized_if entity kind made ≡ some e
    → IsSettled e
unfolding normalized_if
normalized_if-IsSettled entity kind none e read h = absurd (cc)
normalized_if-IsSettled entity kind (some body) e read h =
    let same : normalized entity kind body ≡ e = grind (arith, h) in
    subst IsSettled same
      (normalized-IsSettled entity kind (build_normalized_raw_event_schema entity kind) body read)

upcast-IsSettled :
    (u : Upcast) (body : Json) (e : NormalizedEvent)
    → UpcastIsRead u
    → upcast_event u body ≡ some e
    → IsSettled e
unfolding upcast_event normalized_if UpcastIsRead
upcast-IsSettled (renamed entity kind) body e read h =
    normalized_if-IsSettled entity kind (some body) e read h
upcast-IsSettled (as_system_message label) body e read h =
    normalized_if-IsSettled timeline_event "system_message"
      (build_system_message_payload body label) e system_message_read h
upcast-IsSettled (as_participant kind) body e read h =
    normalized_if-IsSettled participant kind (build_participant_payload body) e read h
upcast-IsSettled as_reaction body e read h =
    normalized_if-IsSettled reaction (reaction_kind body) (some body) e (reaction_read body) h

canonicalize-IsSettled :
    (s : String) (body : Json) (e : NormalizedEvent)
    → canonicalize_projected_schema s body ≡ some e
    → IsSettled e
unfolding canonicalize_projected_schema
canonicalize-IsSettled s body e h =
    elim (Option-cases (find_by (λ r. r.schema == s) legacy_rules)) [
      | inl miss ↦ parsed-IsSettled s body e miss h
      | inr found ↦
          upcast-IsSettled found.0.upcast body e
            (AllUpcast-find s legacy_rules found.0 legacy_read found.1)
            (rw (found.1, canonicalize_projected_schema) at h)
    ]

-- A stored event that is accepted for projection, whatever schema it is stored under, comes out under
-- one of the supported schemas, the one of its entity and kind. Normalising the result once more gives
-- the result: with its schema stored beside any entity and kind, or without a stored schema.
pub normalize_stored_raw_event_for_projection-IsSettled :
    (entity : EntityKind) (kind : String) (given : Option String) (body : Json)
    (e : NormalizedEvent)
    → normalize_stored_raw_event_for_projection entity kind given body ≡ some e
    → IsSettled e
unfolding normalize_stored_raw_event_for_projection
normalize_stored_raw_event_for_projection-IsSettled entity kind given body e h =
    canonicalize-IsSettled (stored_schema entity kind given) body e h
