-- ===== src/Contacts/Record.antt =====
-- src/db/database.ts, `recordContactMergeDecisionsBatch` and `resolveCanonicalContactId`: what a
-- recorded batch does to the contacts that identifiers stand for.
use cued.Base.{
  ℕ, Bool, true, String, List, [], ◌∷◌, ◌++◌, map, Option, filter_by, ◌==◌, string_eq,
  String-discrete, ◌≡◌, refl, sym, subst, ap, ◌∙◌, inr, arith,
}
use cued.Contacts.Types.{ContactMergeDecision, ContactTables, MergeInput, PlannedMerge, canonical}
use cued.Contacts.Alias.{
  AliasMap, set_alias, resolve_canonical, alias_pair, decided_before, list_contact_merge_aliases,
  resolve_canonical_contact_id,
}
use cued.Contacts.Merge.{
  plan_merges, plan_contact_merge_decisions, decision_row, record_merge, record_merges,
  record_contact_merge_decisions_batch,
}
use cued.Contacts.Resolution.{resolve_canonical_iff}
use cued.Contacts.Union.{Same, Same-Leads}
use cued.Contacts.Plan.{
  Steps, Resolves, merged, settings, and_then_cases, plan_merges-Steps, resolve_settings,
}
use cued.Contacts.Listing.{Distinct, Distinct-settings, alias_of-sort_by}

abbrev pub is_merge : ContactMergeDecision → Bool
is_merge d = d.decision_type == "merge"

-- The aliases in the order of the rows.
unfoldable pub unordered_aliases : ContactTables → AliasMap
unordered_aliases db = map alias_pair (filter_by is_merge db.contact_merge_decisions)

-- Every contact was merged at most once, and no chain of merges is a cycle.
unfoldable pub IsValid : ContactTables → Type 0
IsValid db = Distinct (unordered_aliases db) × Resolves (unordered_aliases db)

pub Same-aliases :
    (db : ContactTables) → IsValid db → Same (list_contact_merge_aliases db) (unordered_aliases db)
unfolding IsValid unordered_aliases list_contact_merge_aliases
Same-aliases db valid c =
    alias_of-sort_by decided_before (filter_by is_merge db.contact_merge_decisions) c valid.0

pub resolve-Same :
    (m u : AliasMap) (c r : String)
    → Same m u
    → resolve_canonical m c ≡ canonical r
    → resolve_canonical u c ≡ canonical r
resolve-Same m u c r same h =
    let (n, path) = (resolve_canonical_iff m c r).1.0 h in
    (resolve_canonical_iff u c r).1.1 (n, Same-Leads m u c r n same path)

abbrev merge_type : String
merge_type = "merge"

merge_word : (merge_type == "merge") ≡ true
unfolding String-discrete
merge_word = refl

aliases_of_row :
    (timestamp : ℕ) (created_by : Option String) (d : PlannedMerge)
    (rows : List ContactMergeDecision)
    → map alias_pair (filter_by is_merge (rows ++ decision_row timestamp created_by d ∷ []))
      ≡ set_alias d.secondary_contact_id d.canonical_contact_id
          (map alias_pair (filter_by is_merge rows))
unfolding decision_row set_alias
aliases_of_row timestamp created_by d [] = rw merge_word refl
aliases_of_row timestamp created_by d (row ∷ rows) =
    ground (arith, aliases_of_row timestamp created_by d rows)

aliases-record_merges :
    (timestamp : ℕ) (created_by : Option String) (ds : List PlannedMerge) (db : ContactTables)
    → unordered_aliases (record_merges timestamp created_by ds db)
      ≡ settings ds (unordered_aliases db)
unfolding unordered_aliases record_merges record_merge settings
aliases-record_merges timestamp created_by [] db = refl
aliases-record_merges timestamp created_by (d ∷ ds) db =
    aliases-record_merges timestamp created_by ds (record_merge timestamp created_by d db)
    ∙ ap (settings ds) (aliases_of_row timestamp created_by d db.contact_merge_decisions)

pub batch_cases :
    (timestamp : ℕ) (merges : List (String × MergeInput)) (created_by : Option String)
    (db after : ContactTables) (ds : List PlannedMerge)
    → IsValid db
    → record_contact_merge_decisions_batch timestamp merges created_by db ≡ inr (after, ds)
    → Steps (unordered_aliases db) ds × (record_merges timestamp created_by ds db ≡ after)
unfolding record_contact_merge_decisions_batch plan_contact_merge_decisions
batch_cases timestamp [] created_by db after ds valid h = cc
batch_cases timestamp (merge ∷ merges) created_by db after ds valid h =
    let aliases = list_contact_merge_aliases db in
    let plan = plan_merges db.contacts aliases (merge ∷ merges) in
    let (planned, e, done) = and_then_cases plan _ h in
    let same : planned ≡ ds = ground (arith, done) in
    (
      plan_merges-Steps db.contacts aliases (unordered_aliases db) (merge ∷ merges) ds
          (Same-aliases db valid) (e ∙ ap inr same),
      sym (ap (λ x. record_merges timestamp created_by x db) same) ∙ ground (arith, done),
    )

-- On valid tables a batch that is recorded leaves valid tables: every contact was merged at most
-- once, never into itself, and every chain of merges ends.
pub record_batch-IsValid :
    (timestamp : ℕ) (merges : List (String × MergeInput)) (created_by : Option String)
    (db after : ContactTables) (ds : List PlannedMerge)
    → IsValid db
    → record_contact_merge_decisions_batch timestamp merges created_by db ≡ inr (after, ds)
    → IsValid after
unfolding IsValid
record_batch-IsValid timestamp merges created_by db after ds valid h =
    let (steps, recorded) = batch_cases timestamp merges created_by db after ds valid h in
    let m = unordered_aliases db in
    subst (λ m'. Distinct m' × Resolves m')
      (sym (aliases-record_merges timestamp created_by ds db) ∙ ap unordered_aliases recorded)
      (
        Distinct-settings m ds valid.0 steps,
        λ c. (merged ds (valid.1 c).0, resolve_settings m ds c (valid.1 c).0 steps (valid.1 c).1),
      )

-- On valid tables a recorded batch moves every identifier from the contact that it stood for to the
-- one that the planned merges, taken in their order, put in that contact's place.
pub record_batch-resolves :
    (timestamp : ℕ) (merges : List (String × MergeInput)) (created_by : Option String)
    (db after : ContactTables) (ds : List PlannedMerge) (c r : String)
    → IsValid db
    → record_contact_merge_decisions_batch timestamp merges created_by db ≡ inr (after, ds)
    → resolve_canonical_contact_id db c ≡ canonical r
    → resolve_canonical_contact_id after c ≡ canonical (merged ds r)
unfolding resolve_canonical_contact_id
record_batch-resolves timestamp merges created_by db after ds c r valid h found =
    let (steps, recorded) = batch_cases timestamp merges created_by db after ds valid h in
    let m = unordered_aliases db in
    let after_valid = record_batch-IsValid timestamp merges created_by db after ds valid h in
    let moved =
      resolve_settings m ds c r steps
        (resolve-Same (list_contact_merge_aliases db) m c r (Same-aliases db valid) found) in
    let listed =
      subst (λ m'. resolve_canonical m' c ≡ canonical (merged ds r))
        (sym (aliases-record_merges timestamp created_by ds db) ∙ ap unordered_aliases recorded)
        moved in
    resolve-Same (unordered_aliases after) (list_contact_merge_aliases after) c (merged ds r)
      (λ x. sym (Same-aliases after after_valid x)) listed
