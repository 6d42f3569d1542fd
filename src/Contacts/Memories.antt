-- ===== src/Contacts/Memories.antt =====
-- src/db/database.ts, `recordContactMergeDecisionsBatch` and `recordContactMergeDecision`: the
-- memories follow the merges, and the two contacts become one.
use cued.Base.{
  ℕ, String, List, [], ◌∷◌, map, Option, string_eq, trim, ◌≡◌, refl, sym, subst, ap, ◌∙◌, inr,
  arith,
}
use cued.Contacts.Types.{ContactMemory, ContactTables, MergeInput, PlannedMerge, canonical}
use cued.Contacts.Alias.{
  AliasMap, resolve_canonical, list_contact_merge_aliases, resolve_canonical_contact_id,
}
use cued.Contacts.Merge.{
  plan_merge, plan_merges, plan_contact_merge_decisions, moved_memory, record_merge, record_merges,
  record_contact_merge_decisions_batch, record_contact_merge_decision,
}
use cued.Contacts.Resolution.{Leads-end, resolve_canonical_iff, Leads}
use cued.Contacts.Union.{joined}
use cued.Contacts.Plan.{NoCycle, merged, and_then_cases, plan_merge-Joins}
use cued.Contacts.NoCycle.{plan_merges-NoCycle, NoCycle-and_then}
use cued.Contacts.Record.{
  IsValid, record_batch-resolves, batch_cases, Same-aliases, resolve-Same, unordered_aliases,
}

-- Every memory is attached to a contact that stands for itself.
unfoldable pub IsAttached : (String → Type 0) → List ContactMemory → Type 0
IsAttached P [] = Unit
IsAttached P (memory ∷ memories) = P memory.contact_id × IsAttached P memories

IsAttached-map :
    (P Q : String → Type 0) (memories : List ContactMemory)
    → ((c : String) → P c → Q c)
    → IsAttached P memories
    → IsAttached Q memories
unfolding IsAttached
IsAttached-map P Q [] f h = tt
IsAttached-map P Q (memory ∷ memories) f h =
    (f memory.contact_id h.0, IsAttached-map P Q memories f h.1)

IsAttached-move :
    (timestamp : ℕ) (d : PlannedMerge) (P Q : String → Type 0) (memories : List ContactMemory)
    → ((c : String) → P c → Q (joined d.secondary_contact_id d.canonical_contact_id c))
    → IsAttached P memories
    → IsAttached Q (map (moved_memory timestamp d) memories)
unfolding IsAttached moved_memory
IsAttached-move timestamp d P Q [] f h = tt
IsAttached-move timestamp d P Q (memory ∷ memories) f h = (
  subst Q (ground arith) (f memory.contact_id h.0),
  IsAttached-move timestamp d P Q memories f h.1,
)

IsAttached-record :
    (timestamp : ℕ) (created_by : Option String) (ds : List PlannedMerge) (P Q : String → Type 0)
    (db : ContactTables)
    → ((c : String) → P c → Q (merged ds c))
    → IsAttached P db.contact_memories
    → IsAttached Q (record_merges timestamp created_by ds db).contact_memories
unfolding merged record_merges record_merge
IsAttached-record timestamp created_by [] P Q db f h = IsAttached-map P Q db.contact_memories f h
IsAttached-record timestamp created_by (d ∷ ds) P Q db f h =
    let s = d.secondary_contact_id in
    let p = d.canonical_contact_id in
    IsAttached-record timestamp created_by ds (λ c. (b : String) × P b × (joined s p b ≡ c)) Q
      (record_merge timestamp created_by d db)
      (λ c (b, held, e). subst (λ x. Q (merged ds x)) e (f b held))
      (IsAttached-move timestamp d P (λ c. (b : String) × P b × (joined s p b ≡ c))
        db.contact_memories (λ b held. (b, held, refl)) h)

resolve_end :
    (m : AliasMap) (c r : String)
    → resolve_canonical m c ≡ canonical r
    → resolve_canonical m r ≡ canonical r
unfolding Leads
resolve_end m c r h =
    let (n, path) = (resolve_canonical_iff m c r).1.0 h in
    (resolve_canonical_iff m r r).1.1 (0, (Leads-end m c r n path, refl))

-- A contact that stands for itself.
unfoldable pub IsCanonical : ContactTables → String → Type 0
IsCanonical db c = resolve_canonical_contact_id db c ≡ canonical c

-- On valid tables where every memory is attached to a contact that stands for itself, this is so
-- after a recorded batch too, however its merges follow one another.
pub record_batch-IsAttached :
    (timestamp : ℕ) (merges : List (String × MergeInput)) (created_by : Option String)
    (db after : ContactTables) (ds : List PlannedMerge)
    → IsValid db
    → IsAttached (IsCanonical db) db.contact_memories
    → record_contact_merge_decisions_batch timestamp merges created_by db ≡ inr (after, ds)
    → IsAttached (IsCanonical after) after.contact_memories
unfolding IsCanonical resolve_canonical_contact_id
record_batch-IsAttached timestamp merges created_by db after ds valid attached h =
    let (_, recorded) = batch_cases timestamp merges created_by db after ds valid h in
    subst (λ (t : ContactTables). IsAttached (IsCanonical after) t.contact_memories) recorded
      (IsAttached-record timestamp created_by ds (IsCanonical db) (IsCanonical after) db
        (λ c held.
          resolve_end (list_contact_merge_aliases after) c (merged ds c)
            (record_batch-resolves timestamp merges created_by db after ds c c valid h held))
        attached)

-- On valid tables no batch meets the exceptions about a cycle of merges, or the model's bound.
pub record_batch-NoCycle :
    (timestamp : ℕ) (merges : List (String × MergeInput)) (created_by : Option String)
    (db : ContactTables)
    → IsValid db
    → NoCycle (record_contact_merge_decisions_batch timestamp merges created_by db)
unfolding record_contact_merge_decisions_batch plan_contact_merge_decisions IsValid
record_batch-NoCycle timestamp [] created_by db valid = tt
record_batch-NoCycle timestamp (merge ∷ merges) created_by db valid =
    let aliases = list_contact_merge_aliases db in
    NoCycle-and_then (plan_merges db.contacts aliases (merge ∷ merges)) _
      (plan_merges-NoCycle db.contacts aliases (merge ∷ merges) (λ c.
        let (r, found) = valid.1 c in
        (
          r,
          resolve-Same (unordered_aliases db) aliases c r (λ x. sym (Same-aliases db valid x))
              found,
        )))
      (λ ds _. tt)

-- On valid tables a recorded merge of two contacts makes the two stand for one contact, which is
-- the one that the first of them stood for.
pub record_merge-unites :
    (timestamp : ℕ) (id : String) (merge : MergeInput) (created_by : Option String)
    (db after : ContactTables) (ds : List PlannedMerge)
    → IsValid db
    → record_contact_merge_decision timestamp id merge created_by db ≡ inr (after, ds)
    → (r : String) × (resolve_canonical_contact_id db (trim merge.primary_contact_id) ≡ canonical r)
      × (resolve_canonical_contact_id after (trim merge.primary_contact_id) ≡ canonical r)
      × (resolve_canonical_contact_id after (trim merge.secondary_contact_id) ≡ canonical r)
unfolding record_contact_merge_decision record_contact_merge_decisions_batch
    plan_contact_merge_decisions plan_merges merged resolve_canonical_contact_id
record_merge-unites timestamp id merge created_by db after ds valid h =
    let aliases = list_contact_merge_aliases db in
    let (planned, e, done) =
      and_then_cases (plan_merges db.contacts aliases ((id, merge) ∷ [])) _ h in
    let (d, first, only) = and_then_cases (plan_merge db.contacts aliases (id, merge)) _ e in
    let s = d.secondary_contact_id in
    let p = d.canonical_contact_id in
    let (joins, p_found, s_found) = plan_merge-Joins db.contacts aliases id merge first in
    let one : d ∷ [] ≡ ds = ground (arith, only, done) in
    let moves : (c r : String)
        → resolve_canonical aliases c ≡ canonical r
        → resolve_canonical (list_contact_merge_aliases after) c ≡ canonical (joined s p r) =
      λ c r found.
        record_batch-resolves timestamp ((id, merge) ∷ []) created_by db after ds c r valid h found
        ∙ sym (ap (λ x. canonical (merged x r)) one) in
    (
      p,
      p_found,
      moves (trim merge.primary_contact_id) p p_found ∙ ap canonical (ground (arith, joins.3)),
      moves (trim merge.secondary_contact_id) s s_found ∙ ap canonical (ground arith),
    )
