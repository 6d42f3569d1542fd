-- ===== src/RawEvents/ReadBack.antt =====
-- src/runtime/projection/events.ts: how the supported schemas are read back.
use cued.Base.{
  true, false, String, List, [], ◌∷◌, none, some, any, find_by, all, ◌≡◌, refl, subst, Bool-cases,
  Option-cases, inl, inr, arith, String-discrete, ℕ_discrete, ◌==◌, string_eq, trim, is_empty,
}
use cued.Platform.{
  EntityKind, contact, conversation, call, message, reaction, participant, timeline_event,
}
use cued.RawEvents.Payload.{Json}
use cued.RawEvents.Schema.{
  build_normalized_raw_event_schema, is_supported, supported_normalized_schemas,
  parse_normalized_schema,
}
use cued.RawEvents.Canonical.{
  NormalizedEvent, normalized, canonicalize_projected_schema,
  normalize_stored_raw_event_for_projection, stored_schema, legacy_rules, parsed_event,
}

-- An event under the schema of its entity and kind, one of the supported.
unfoldable pub IsCanonical : NormalizedEvent → Type 0
IsCanonical e =
    (e.normalized_schema ≡ build_normalized_raw_event_schema e.entity_kind e.event_kind)
    × (is_supported e.normalized_schema ≡ true)

-- How a schema that may be written is read back.
unfoldable pub IsReadAs : EntityKind → String → String → Type 0
IsReadAs entity kind s =
    (s ≡ build_normalized_raw_event_schema entity kind)
    × (is_supported s ≡ true)
    × ((body : Json) → canonicalize_projected_schema s body ≡ some (normalized entity kind body))
    × (trim s ≡ s)
    × (is_empty s ≡ false)

unfoldable pub IsRead : String → Type 0
IsRead s = (entity : EntityKind) × (kind : String) × IsReadAs entity kind s

equal_texts : (s t : String) → (s == t) ≡ true → s ≡ t
equal_texts s t h = grind arith

unfoldable pub AllRead : List String → Type 0
AllRead [] = Unit
AllRead (s ∷ rest) = IsRead s × AllRead rest

pub AllRead-any :
    (t : String) (ss : List String) → AllRead ss → any (λ s. s == t) ss ≡ true → IsRead t
unfolding AllRead
AllRead-any t [] all h = absurd (cc)
AllRead-any t (s ∷ rest) all h = elim (Bool-cases (s == t)) [
  | inl same ↦ subst IsRead (equal_texts s t same) all.0
  | inr other ↦ AllRead-any t rest all.1 (rw other at h)
]

pub supported_read : AllRead supported_normalized_schemas
unfolding AllRead IsRead IsReadAs is_supported canonicalize_projected_schema normalized
    build_normalized_raw_event_schema supported_normalized_schemas trim String-discrete ℕ_discrete
    parsed_event parse_normalized_schema legacy_rules
supported_read = (
  (contact, "observed", (refl, refl, λ body. refl, refl, refl)),
  (
    (contact, "aliased", (refl, refl, λ body. refl, refl, refl)),
    (
      (conversation, "observed", (refl, refl, λ body. refl, refl, refl)),
      (
        (conversation, "removed", (refl, refl, λ body. refl, refl, refl)),
        (
          (call, "observed", (refl, refl, λ body. refl, refl, refl)),
          (
            (call, "deleted", (refl, refl, λ body. refl, refl, refl)),
            (
              (message, "created", (refl, refl, λ body. refl, refl, refl)),
              (
                (message, "updated", (refl, refl, λ body. refl, refl, refl)),
                (
                  (message, "deleted", (refl, refl, λ body. refl, refl, refl)),
                  (
                    (message, "read_receipt", (refl, refl, λ body. refl, refl, refl)),
                    (
                      (reaction, "added", (refl, refl, λ body. refl, refl, refl)),
                      (
                        (reaction, "removed", (refl, refl, λ body. refl, refl, refl)),
                        (
                          (participant, "joined", (refl, refl, λ body. refl, refl, refl)),
                          (
                            (participant, "left", (refl, refl, λ body. refl, refl, refl)),
                            (
                              (
                                timeline_event,
                                "system_message",
                                (refl, refl, λ body. refl, refl, refl),
                              ),
                              tt,
                            ),
                          ),
                        ),
                      ),
                    ),
                  ),
                ),
              ),
            ),
          ),
        ),
      ),
    ),
  ),
)

-- An event that is read as itself.
unfoldable pub IsSettled : NormalizedEvent → Type 0
IsSettled e =
    IsCanonical e
    × ((entity : EntityKind) (kind : String)
        → normalize_stored_raw_event_for_projection entity kind (some e.normalized_schema) e.payload
          ≡ some e)
    × (normalize_stored_raw_event_for_projection e.entity_kind e.event_kind none e.payload ≡ some e)

pub normalized-IsSettled :
    (entity : EntityKind) (kind s : String) (body : Json)
    → IsReadAs entity kind s
    → IsSettled (normalized entity kind body)
unfolding IsSettled IsCanonical IsReadAs normalized normalize_stored_raw_event_for_projection
    stored_schema
normalized-IsSettled entity kind s body h =
    let back : s ≡ build_normalized_raw_event_schema entity kind = h.0 in
    let read : IsReadAs entity kind (build_normalized_raw_event_schema entity kind) =
      subst (IsReadAs entity kind) back h in
    ((refl, read.1), λ other word. rw (read.3, read.4, read.2 body) refl, read.2 body)

pub supported-IsSettled :
    (s : String) (body : Json) (e : NormalizedEvent)
    → is_supported s ≡ true
    → canonicalize_projected_schema s body ≡ some e
    → IsSettled e
unfolding is_supported IsRead IsReadAs
supported-IsSettled s body e h c =
    let read : IsRead s = AllRead-any s supported_normalized_schemas supported_read h in
    let same : normalized read.0 read.1 body ≡ e = grind (arith, read.2.2 body, c) in
    subst IsSettled same (normalized-IsSettled read.0 read.1 s body read.2)

pub parsed-IsSettled :
    (s : String) (body : Json) (e : NormalizedEvent)
    → find_by (λ r. r.schema == s) legacy_rules ≡ none
    → canonicalize_projected_schema s body ≡ some e
    → IsSettled e
unfolding parsed_event canonicalize_projected_schema
parsed-IsSettled s body e miss c = elim (Bool-cases (is_supported s)) [
  | inl yes_it ↦ supported-IsSettled s body e yes_it c
  | inr not_it ↦ absurd (ground (arith, c, miss, not_it, Option-cases (parse_normalized_schema s)))
]
