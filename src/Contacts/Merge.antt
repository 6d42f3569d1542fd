-- ===== src/Contacts/Merge.antt =====
-- src/db/database.ts: `planContactMergeDecisions` and the methods that record what is planned. The
-- identifiers that `randomUUID` draws come with the inputs.
use cued.Base.{
  if◌then◌else◌, ℕ, ◌||◌, not, String, List, [], ◌∷◌, ◌++◌, map, Option, some, or_else, any, ◌⊎◌,
  inl, inr, ◌==◌, string_eq, is_empty, trim,
}
use cued.Contacts.Types.{
  ContactMergeDecision, ContactMemory, ContactTables, MergeInput, PlannedMerge, Resolution,
  canonical, primary, secondary, MergeError, no_merges, missing_id, merge_into_itself,
  contact_not_found, already_merged, not_resolved, and_then,
}
use cued.Contacts.Alias.{AliasMap, set_alias, resolve_canonical, list_contact_merge_aliases}

-- The last lines of the loop's body: the new alias is set, and resolved once to find a cycle.
unfoldable pub plan_canonical :
    String → Option String → AliasMap → Resolution → Resolution → MergeError ⊎ PlannedMerge
plan_canonical id reason m (canonical p) (canonical s) =
    let checked = resolve_canonical (set_alias s p m) s in
    if p == s then inl (already_merged p) else elim checked [
      | canonical _ ↦ inr (record {
        decision_id = id;
        primary_contact_id = p;
        secondary_contact_id = s;
        canonical_contact_id = p;
        reason = reason;
      })
      | failed ↦ inl (not_resolved failed)
    ]
plan_canonical id reason m (canonical p) failed = inl (not_resolved failed)
plan_canonical id reason m failed _ = inl (not_resolved failed)

-- One round of the loop of `planContactMergeDecisions`.
unfoldable pub plan_merge : List String → AliasMap → String × MergeInput → MergeError ⊎ PlannedMerge
unfolding plan_canonical
plan_merge contacts m (id, merge) =
    let p = trim merge.primary_contact_id in
    let s = trim merge.secondary_contact_id in
    let exists = λ (c : String). any (λ d. d == c) contacts in
    if is_empty p || is_empty s
    then inl missing_id
    else if p == s
    then inl merge_into_itself
    else if not (exists p)
    then inl (contact_not_found primary p)
    else if not (exists s)
    then inl (contact_not_found secondary s)
    else plan_canonical id merge.reason m (resolve_canonical m p) (resolve_canonical m s)

unfoldable pub plan_merges :
    List String → AliasMap → List (String × MergeInput) → MergeError ⊎ List PlannedMerge
unfolding plan_merge
plan_merges contacts m [] = inr []
plan_merges contacts m (merge ∷ merges) = and_then (plan_merge contacts m merge) (λ d.
    and_then
      (plan_merges contacts (set_alias d.secondary_contact_id d.canonical_contact_id m) merges)
      (λ ds. inr (d ∷ ds)))

unfoldable pub plan_contact_merge_decisions :
    List (String × MergeInput) → ContactTables → MergeError ⊎ List PlannedMerge
unfolding plan_merges
plan_contact_merge_decisions [] db = inl no_merges
plan_contact_merge_decisions (merge ∷ merges) db =
    plan_merges db.contacts (list_contact_merge_aliases db) (merge ∷ merges)

unfoldable pub decision_row : ℕ → Option String → PlannedMerge → ContactMergeDecision
decision_row timestamp created_by d = record {
  id = d.decision_id;
  decision_type = "merge";
  primary_contact_id = d.primary_contact_id;
  secondary_contact_id = d.secondary_contact_id;
  canonical_contact_id = d.canonical_contact_id;
  reason = d.reason;
  created_by = some (or_else created_by "cli");
  created_at = timestamp;
}

-- The UPDATE of `contact_memories`.
unfoldable pub moved_memory : ℕ → PlannedMerge → ContactMemory → ContactMemory
moved_memory timestamp d memory =
    if memory.contact_id == d.secondary_contact_id
    then record memory { contact_id = d.canonical_contact_id; updated_at = timestamp }
    else memory

-- One round of the transaction.
unfoldable pub record_merge : ℕ → Option String → PlannedMerge → ContactTables → ContactTables
unfolding decision_row moved_memory
record_merge timestamp created_by d db = record db {
  contact_merge_decisions = db.contact_merge_decisions ++ decision_row timestamp created_by d ∷ [];
  contact_memories = map (moved_memory timestamp d) db.contact_memories;
}

unfoldable pub record_merges : ℕ → Option String → List PlannedMerge → ContactTables → ContactTables
unfolding record_merge
record_merges timestamp created_by [] db = db
record_merges timestamp created_by (d ∷ ds) db =
    record_merges timestamp created_by ds (record_merge timestamp created_by d db)

-- `recordContactMergeDecisionsBatch`: an exception leaves the tables alone.
unfoldable pub record_contact_merge_decisions_batch :
    ℕ
    → List (String × MergeInput)
    → Option String
    → ContactTables
    → MergeError ⊎ (ContactTables × List PlannedMerge)
unfolding plan_contact_merge_decisions record_merges
record_contact_merge_decisions_batch timestamp merges created_by db =
    and_then (plan_contact_merge_decisions merges db)
      (λ ds. inr (record_merges timestamp created_by ds db, ds))

-- `recordContactMergeDecision`: a batch of one.
unfoldable pub record_contact_merge_decision :
    ℕ
    → String
    → MergeInput
    → Option String
    → ContactTables
    → MergeError ⊎ (ContactTables × List PlannedMerge)
unfolding record_contact_merge_decisions_batch
record_contact_merge_decision timestamp id merge created_by db =
    record_contact_merge_decisions_batch timestamp ((id, merge) ∷ []) created_by db
