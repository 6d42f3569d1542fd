-- ===== src/Contacts/Tests.antt =====
-- src/db/database.ts, contact merges, at concrete tables.
use cued.Base.{
  ℕ, String, List, [], ◌∷◌, none, ◌≡◌, ◌≢◌, ◌↔◌, refl, inr, String-discrete, ℕ_discrete, trim,
}
use cued.Contacts.Types.{
  ContactTables, ContactMemory, MergeInput, PlannedMerge, canonical, alias_cycle, out_of_rounds,
}
use cued.Contacts.Alias.{
  AliasMap, set_alias, alias_of, resolve_canonical, resolve_canonical_contact_id,
  list_contact_merge_aliases,
}
use cued.Contacts.Merge.{
  record_contact_merge_decision, record_contact_merge_decisions_batch, record_merges,
}
use cued.Contacts.Resolution.{Leads, resolve_canonical_iff}
use cued.Contacts.Plan.{NoCycle, merged}
use cued.Contacts.Listing.{Distinct}
use cued.Contacts.Record.{IsValid, unordered_aliases, record_batch-IsValid, record_batch-resolves}
use cued.Contacts.Memories.{
  IsAttached, IsCanonical, record_batch-IsAttached, record_batch-NoCycle, record_merge-unites,
}

abbrev looped : AliasMap
looped = ("a", "b") ∷ ("b", "a") ∷ []

looped_found : resolve_canonical looped "a" ≡ alias_cycle "a"
unfolding resolve_canonical String-discrete
looped_found = refl

resolve_canonical_iff_example :
    (resolve_canonical looped "a" ≢ out_of_rounds)
    × ((resolve_canonical looped "a" ≡ canonical "b") ↔ ((n : ℕ) × Leads looped "a" "b" n))
resolve_canonical_iff_example = resolve_canonical_iff looped "a" "b"

abbrev note : ContactMemory
note = record {
  id = "m";
  contact_id = "c";
  body = "met in May";
  source_kind = "manual";
  evidence_json = none;
  confidence = none;
  supersedes_memory_id = none;
  stale_at = none;
  created_by = none;
  created_at = 1;
  updated_at = 1;
}

abbrev three : ContactTables
three = record {
  contacts = "a" ∷ "b" ∷ "c" ∷ [];
  contact_merge_decisions = [];
  contact_memories = note ∷ [];
}

three-IsValid : IsValid three
unfolding IsValid unordered_aliases Distinct resolve_canonical alias_of
three-IsValid = (tt, λ c. (c, refl))

three-IsAttached : IsAttached (IsCanonical three) three.contact_memories
unfolding IsAttached IsCanonical resolve_canonical_contact_id resolve_canonical
three-IsAttached = (refl, tt)

abbrev merge_of : String → String → MergeInput
merge_of p s = record { primary_contact_id = p; secondary_contact_id = s; reason = none }

-- The second merge names a contact that the first has merged.
abbrev chain : List (String × MergeInput)
chain = ("d1", merge_of " b" "c") ∷ ("d2", merge_of "a" "c ") ∷ []

abbrev chain_plan : List PlannedMerge
chain_plan =
    record {
      decision_id = "d1";
      primary_contact_id = "b";
      secondary_contact_id = "c";
      canonical_contact_id = "b";
      reason = none;
    }
    ∷ record {
      decision_id = "d2";
      primary_contact_id = "a";
      secondary_contact_id = "b";
      canonical_contact_id = "a";
      reason = none;
    }
    ∷ []

abbrev chained : ContactTables
chained = record_merges 9 none chain_plan three

chain_recorded : record_contact_merge_decisions_batch 9 chain none three ≡ inr (chained, chain_plan)
unfolding record_contact_merge_decisions_batch resolve_canonical String-discrete ℕ_discrete trim
    list_contact_merge_aliases set_alias
chain_recorded = refl

record_batch-IsValid_example : IsValid chained
record_batch-IsValid_example =
    record_batch-IsValid 9 chain none three chained chain_plan three-IsValid chain_recorded

c_alone : resolve_canonical_contact_id three "c" ≡ canonical "c"
unfolding resolve_canonical_contact_id resolve_canonical
c_alone = refl

record_batch-resolves_example :
    resolve_canonical_contact_id chained "c" ≡ canonical (merged chain_plan "c")
record_batch-resolves_example =
    record_batch-resolves 9 chain none three chained chain_plan "c" "c" three-IsValid chain_recorded
      c_alone

c_merged : merged chain_plan "c" ≡ "a"
unfolding merged String-discrete
c_merged = refl

record_batch-IsAttached_example : IsAttached (IsCanonical chained) chained.contact_memories
record_batch-IsAttached_example =
    record_batch-IsAttached 9 chain none three chained chain_plan three-IsValid three-IsAttached
      chain_recorded

record_batch-NoCycle_example : NoCycle (record_contact_merge_decisions_batch 9 chain none three)
record_batch-NoCycle_example = record_batch-NoCycle 9 chain none three three-IsValid

abbrev first_plan : List PlannedMerge
first_plan =
    record {
      decision_id = "d1";
      primary_contact_id = "b";
      secondary_contact_id = "c";
      canonical_contact_id = "b";
      reason = none;
    }
    ∷ []

one_recorded :
    record_contact_merge_decision 9 "d1" (merge_of "b" "c") none three
    ≡ inr (record_merges 9 none first_plan three, first_plan)
unfolding record_contact_merge_decision record_contact_merge_decisions_batch resolve_canonical
    String-discrete ℕ_discrete trim list_contact_merge_aliases set_alias
one_recorded = refl

record_merge-unites_example :
    (r : String) × (resolve_canonical_contact_id three (trim "b") ≡ canonical r)
    × (resolve_canonical_contact_id (record_merges 9 none first_plan three) (trim "b")
        ≡ canonical r)
    × (resolve_canonical_contact_id (record_merges 9 none first_plan three) (trim "c")
        ≡ canonical r)
record_merge-unites_example =
    record_merge-unites 9 "d1" (merge_of "b" "c") none three (record_merges 9 none first_plan three)
      first_plan three-IsValid one_recorded
