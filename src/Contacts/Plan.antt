-- ===== src/Contacts/Plan.antt =====
-- src/db/database.ts, `planContactMergeDecisions`: what a plan that it returns holds.
use cued.Base.{
  ℕ, zero, suc, false, String, List, [], ◌∷◌, Option, ◌==◌, string_eq, is_empty, trim, ◌≡◌, refl,
  sym, subst, ◌∙◌, ◌⊎◌, inl, inr, arith, Bool-cases,
}
use cued.Contacts.Types.{
  MergeInput, PlannedMerge, Resolution, canonical, alias_cycle, out_of_rounds, MergeError, and_then,
  not_resolved,
}
use cued.Contacts.Alias.{AliasMap, set_alias, next_alias, is_end, resolve_canonical}
use cued.Contacts.Merge.{plan_canonical, plan_merge, plan_merges}
use cued.Contacts.Resolution.{Leads, Leads-end, resolve_canonical_iff}
use cued.Contacts.Union.{Same, Same-set_alias, Same-is_end, Joins, joined, Leads-set_alias}

pub and_then_cases {ℓ} :
    {A B : Type ℓ} (x : MergeError ⊎ A) (f : A → MergeError ⊎ B) {b : B}
    → and_then x f ≡ inr b
    → (a : A) × (x ≡ inr a) × (f a ≡ inr b)
and_then_cases (inl e) f h = cc
and_then_cases (inr a) f h = (a, refl, h)

-- The settings of a plan, each on the map that the ones before it leave.
unfoldable pub Steps : AliasMap → List PlannedMerge → Type 0
Steps m [] = Unit
Steps m (d ∷ ds) =
    Joins m d.secondary_contact_id d.canonical_contact_id
    × Steps (set_alias d.secondary_contact_id d.canonical_contact_id m) ds

-- The contact that stands for a contact after the merges of a plan.
unfoldable pub merged : List PlannedMerge → String → String
merged [] r = r
merged (d ∷ ds) r = merged ds (joined d.secondary_contact_id d.canonical_contact_id r)

unfoldable pub settings : List PlannedMerge → AliasMap → AliasMap
settings [] m = m
settings (d ∷ ds) m = settings ds (set_alias d.secondary_contact_id d.canonical_contact_id m)

pub Leads-settings :
    (m : AliasMap) (ds : List PlannedMerge) (c r : String) (n : ℕ)
    → Steps m ds
    → Leads m c r n
    → (k : ℕ) × Leads (settings ds m) c (merged ds r) k
unfolding Steps merged settings
Leads-settings m [] c r n steps path = (n, path)
Leads-settings m (d ∷ ds) c r n steps path =
    let s = d.secondary_contact_id in
    let p = d.canonical_contact_id in
    let (k, next) = Leads-set_alias m s p c r n steps.0 path in
    Leads-settings (set_alias s p m) ds c (joined s p r) k steps.1 next

pub Leads-filled :
    (m : AliasMap) (c r : String) (n : ℕ) → is_empty c ≡ false → Leads m c r n → is_empty r ≡ false
unfolding Leads
Leads-filled m c r zero filled h = rw (sym h.1) filled
Leads-filled m c r (suc n) filled h = Leads-filled m (next_alias m c) r n (next_filled h.0) h.1
  where
    next_filled : is_end m c ≡ false → is_empty (next_alias m c) ≡ false
    next_filled e = unfold is_end in ground (arith, e)

Same-Joins : (m u : AliasMap) (s p : String) → Same m u → Joins m s p → Joins u s p
Same-Joins m u s p same (a, b, filled, apart) =
    (sym (Same-is_end m u s same) ∙ a, sym (Same-is_end m u p same) ∙ b, filled, apart)

plan_canonical_cases :
    (id : String) (reason : Option String) (m : AliasMap) (x y : Resolution) {d : PlannedMerge}
    → plan_canonical id reason m x y ≡ inr d
    → (x ≡ canonical d.canonical_contact_id)
      × (y ≡ canonical d.secondary_contact_id)
      × ((d.canonical_contact_id == d.secondary_contact_id) ≡ false)
      × (d.primary_contact_id ≡ d.canonical_contact_id)
unfolding plan_canonical
plan_canonical_cases id reason m (canonical p) (canonical s) h = ground (arith, h)
plan_canonical_cases id reason m (canonical p) (alias_cycle s) h = cc
plan_canonical_cases id reason m (canonical p) out_of_rounds h = cc
plan_canonical_cases id reason m (alias_cycle p) y h = cc
plan_canonical_cases id reason m out_of_rounds y h = cc

plan_merge_cases :
    (contacts : List String) (m : AliasMap) (id : String) (merge : MergeInput) {d : PlannedMerge}
    → plan_merge contacts m (id, merge) ≡ inr d
    → (is_empty (trim merge.primary_contact_id) ≡ false)
      × (plan_canonical id merge.reason m
            (resolve_canonical m (trim merge.primary_contact_id))
            (resolve_canonical m (trim merge.secondary_contact_id))
          ≡ inr d)
unfolding plan_merge
plan_merge_cases contacts m id merge h = (ground (arith, h), ground (arith, h))

-- A planned merge names the contacts that the two of the input stand for.
pub plan_merge-Joins :
    (contacts : List String) (m : AliasMap) (id : String) (merge : MergeInput) {d : PlannedMerge}
    → plan_merge contacts m (id, merge) ≡ inr d
    → Joins m d.secondary_contact_id d.canonical_contact_id
      × (resolve_canonical m (trim merge.primary_contact_id) ≡ canonical d.canonical_contact_id)
      × (resolve_canonical m (trim merge.secondary_contact_id) ≡ canonical d.secondary_contact_id)
plan_merge-Joins contacts m id merge {d} h =
    let p = trim merge.primary_contact_id in
    let s = trim merge.secondary_contact_id in
    let (filled, reached) = plan_merge_cases contacts m id merge h in
    let (p_found, s_found, apart, _) =
      plan_canonical_cases id merge.reason m (resolve_canonical m p) (resolve_canonical m s)
        reached in
    let (n, p_path) = (resolve_canonical_iff m p d.canonical_contact_id).1.0 p_found in
    let (k, s_path) = (resolve_canonical_iff m s d.secondary_contact_id).1.0 s_found in
    (
      (
        Leads-end m s d.secondary_contact_id k s_path,
        Leads-end m p d.canonical_contact_id n p_path,
        Leads-filled m p d.canonical_contact_id n filled p_path,
        apart,
      ),
      p_found,
      s_found,
    )

-- The plan of a batch is a sequence of such settings on every map that answers as the given one.
pub plan_merges-Steps :
    (contacts : List String) (m u : AliasMap) (merges : List (String × MergeInput))
    (ds : List PlannedMerge)
    → Same m u
    → plan_merges contacts m merges ≡ inr ds
    → Steps u ds
unfolding plan_merges Steps
plan_merges-Steps contacts m u [] ds same h =
    let e : [] ≡ ds = ground (arith, h) in subst (Steps u) e tt
plan_merges-Steps contacts m u ((id, merge) ∷ merges) ds same h =
    let (d, first, more) = and_then_cases (plan_merge contacts m (id, merge)) _ h in
    let s = d.secondary_contact_id in
    let p = d.canonical_contact_id in
    let (rest, planned, all_of) =
      and_then_cases (plan_merges contacts (set_alias s p m) merges) _ more in
    let joins = (plan_merge-Joins contacts m id merge first).0 in
    let e : d ∷ rest ≡ ds = ground (arith, all_of) in
    subst (Steps u) e (
      Same-Joins m u s p same joins,
      plan_merges-Steps contacts (set_alias s p m) (set_alias s p u) merges rest
          (Same-set_alias m u s p same) planned,
    )

-- Every contact stands for some contact.
abbrev pub Resolves : AliasMap → Type 0
Resolves m = (c : String) → (r : String) × (resolve_canonical m c ≡ canonical r)

pub resolve_settings :
    (m : AliasMap) (ds : List PlannedMerge) (c r : String)
    → Steps m ds
    → resolve_canonical m c ≡ canonical r
    → resolve_canonical (settings ds m) c ≡ canonical (merged ds r)
resolve_settings m ds c r steps h =
    let (n, path) = (resolve_canonical_iff m c r).1.0 h in
    (resolve_canonical_iff (settings ds m) c (merged ds r)).1.1
      (Leads-settings m ds c r n steps path)

pub resolve_set_alias :
    (m : AliasMap) (s p c r : String)
    → Joins m s p
    → resolve_canonical m c ≡ canonical r
    → resolve_canonical (set_alias s p m) c ≡ canonical (joined s p r)
resolve_set_alias m s p c r joins h =
    let (n, path) = (resolve_canonical_iff m c r).1.0 h in
    (resolve_canonical_iff (set_alias s p m) c (joined s p r)).1.1
      (Leads-set_alias m s p c r n joins path)

-- No exception about a cycle.
abbrev pub NoCycle {ℓ} : {A : Type ℓ} → MergeError ⊎ A → Type 0
NoCycle (inl (not_resolved r)) = ⊥
NoCycle _ = Unit

pub plan_canonical-NoCycle :
    (id : String) (reason : Option String) (m : AliasMap) (p s : String)
    → Resolves m
    → ((p == s) ≡ false → Joins m s p)
    → NoCycle (plan_canonical id reason m (canonical p) (canonical s))
unfolding plan_canonical
plan_canonical-NoCycle id reason m p s forest joins = elim (Bool-cases (p == s)) [
  | inl same ↦ rw same tt
  | inr apart ↦
      let (r, found) = forest s in rw (apart, resolve_set_alias m s p s r (joins apart) found) tt
]
