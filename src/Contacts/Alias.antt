-- ===== src/Contacts/Alias.antt =====
-- src/db/database.ts: the map of aliases that the merge decisions make, and
-- `resolveCanonicalContactIdFromAliases`. A `Map` is the list of the settings made on it, where the
-- last one for a key counts.
use cued.Base.{
  if◌then◌else◌, ℕ, zero, suc, ◌+◌, leb, ltb, Bool, true, ◌||◌, ◌&&◌, String, List, [], ◌∷◌, ◌++◌,
  map, Option, none, some, any, filter_by, sort_by, length, or_else, is_some, ◌==◌, string_eq,
  is_empty, text_le,
}
use cued.Contacts.Types.{
  ContactMergeDecision, ContactTables, Resolution, canonical, alias_cycle, out_of_rounds,
}

abbrev pub AliasMap : Type 0
AliasMap = List (String × String)

-- `aliasMap.get`
unfoldable pub alias_of : AliasMap → String → Option String
alias_of [] c = none
alias_of ((key, value) ∷ m) c =
    let later = alias_of m c in
    if is_some later then later else if key == c then some value else none

-- `aliasMap.set`
unfoldable pub set_alias : String → String → AliasMap → AliasMap
set_alias key value m = m ++ (key, value) ∷ []

-- `!next` holds of an identifier that is missing and of the empty text.
unfoldable pub next_alias : AliasMap → String → String
unfolding alias_of
next_alias m c = or_else (alias_of m c) ""

unfoldable pub is_end : AliasMap → String → Bool
unfolding next_alias
is_end m c = is_empty (next_alias m c) || next_alias m c == c

-- The loop: `seen` holds the identifiers that it has passed.
unfoldable pub resolve_from : ℕ → AliasMap → List String → String → Resolution
unfolding is_end
resolve_from zero m seen current = out_of_rounds
resolve_from (suc rounds) m seen current =
    let rest = resolve_from rounds m (current ∷ seen) (next_alias m current) in
    if any (λ s. s == current) seen
    then alias_cycle current
    else if is_end m current
    then canonical current
    else rest

-- Every round but the last passes a key of the map for the first time.
unfoldable pub resolve_canonical : AliasMap → String → Resolution
unfolding resolve_from
resolve_canonical m contact_id = resolve_from (length m + 1) m [] contact_id

-- `ORDER BY created_at, id`
unfoldable pub decided_before : ContactMergeDecision → ContactMergeDecision → Bool
decided_before d e =
    if ltb d.created_at e.created_at
    then true
    else leb d.created_at e.created_at && text_le d.id e.id

abbrev pub alias_pair : ContactMergeDecision → String × String
alias_pair d = (d.secondary_contact_id, d.canonical_contact_id)

unfoldable pub list_contact_merge_aliases : ContactTables → AliasMap
unfolding decided_before
list_contact_merge_aliases db = map alias_pair (
    sort_by decided_before (filter_by (λ d. d.decision_type == "merge") db.contact_merge_decisions))

unfoldable pub resolve_canonical_contact_id : ContactTables → String → Resolution
unfolding resolve_canonical list_contact_merge_aliases
resolve_canonical_contact_id db contact_id =
    resolve_canonical (list_contact_merge_aliases db) contact_id
