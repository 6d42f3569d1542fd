-- ===== src/Contacts/Resolution.antt =====
-- src/db/database.ts, `resolveCanonicalContactIdFromAliases`: the loop ends, and what it finds.
use cued.Base.{
  if◌then◌else◌, ℕ, zero, suc, ◌+◌, ◌≤◌, ◌<◌, true, false, String, List, [], ◌∷◌, any, length,
  is_some, ◌==◌, string_eq, ◌≡◌, refl, ◌≢◌, ◌↔◌, subst, inl, inr, arith, Bool-cases, Option-cases,
  sym, ◌∙◌, ap,
}
use mathlib.Core.Bool.{false≢true}
use cued.Contacts.Types.{Resolution, canonical, alias_cycle, out_of_rounds}
use cued.Contacts.Alias.{AliasMap, alias_of, next_alias, is_end, resolve_from, resolve_canonical}

-- How many entries of the map have a key that the loop has not passed.
fresh : List String → AliasMap → ℕ
fresh seen [] = 0
fresh seen (e ∷ m) = let rest = fresh seen m in if any (λ s. s == e.0) seen then rest else suc rest

fresh_le : (seen : List String) (m : AliasMap) → fresh seen m ≤ length m
unfolding fresh
fresh_le seen [] = omega arith
fresh_le seen (e ∷ m) = ground (arith, fresh_le seen m)

fresh_more : (seen : List String) (c : String) (m : AliasMap) → fresh (c ∷ seen) m ≤ fresh seen m
unfolding fresh
fresh_more seen c [] = omega arith
fresh_more seen c (e ∷ m) = ground (arith, fresh_more seen c m)

-- Passing a key for the first time leaves one entry less.
fresh_less :
    (seen : List String) (c : String) (m : AliasMap)
    → any (λ s. s == c) seen ≡ false
    → is_some (alias_of m c) ≡ true
    → fresh (c ∷ seen) m < fresh seen m
unfolding fresh alias_of
fresh_less seen c [] new key = cc
fresh_less seen c (e ∷ m) new key = elim (Bool-cases (is_some (alias_of m c))) [
  | inl later ↦ ground (arith, new, fresh_less seen c m new later)
  | inr last ↦ ground (arith, new, last, fresh_more seen c m)
]

goes_on : (m : AliasMap) (c : String) → is_end m c ≡ false → is_some (alias_of m c) ≡ true
unfolding is_end next_alias
goes_on m c h = elim (Option-cases (alias_of m c)) [
  | inl missing ↦ absurd (false≢true (sym h ∙ rw missing refl))
  | inr (next, found) ↦ rw found refl
]

Ends : Resolution → Type 0
Ends (canonical c) = Unit
Ends (alias_cycle c) = Unit
Ends out_of_rounds = ⊥

resolve_from-Ends :
    (rounds : ℕ) (m : AliasMap) (seen : List String) (c : String)
    → fresh seen m < rounds
    → Ends (resolve_from rounds m seen c)
unfolding resolve_from Ends
resolve_from-Ends zero m seen c h = ground arith
resolve_from-Ends (suc rounds) m seen c h = elim (Bool-cases (any (λ s. s == c) seen)) [
  | inl old ↦ rw old tt
  | inr new ↦ elim (Bool-cases (is_end m c)) [
    | inl e ↦ rw (new, e) tt
    | inr e ↦
        let less = fresh_less seen c m new (goes_on m c e) in
        rw (new, e)
          (resolve_from-Ends rounds m (c ∷ seen) (next_alias m c) (omega (arith, less, h)))
  ]
]

-- The aliases lead from one identifier to another in so many steps, where they end.
unfoldable pub Leads : AliasMap → String → String → ℕ → Type 0
Leads m c r zero = (is_end m c ≡ true) × (c ≡ r)
Leads m c r (suc n) = (is_end m c ≡ false) × Leads m (next_alias m c) r n

pub Leads-unique :
    (m : AliasMap) (c r s : String) (n k : ℕ) → Leads m c r n → Leads m c s k → (r ≡ s) × (n ≡ k)
unfolding Leads
Leads-unique m c r s zero zero h j = (sym h.1 ∙ j.1, refl)
Leads-unique m c r s zero (suc k) h j = absurd (false≢true (sym j.0 ∙ h.0))
Leads-unique m c r s (suc n) zero h j = absurd (false≢true (sym h.0 ∙ j.0))
Leads-unique m c r s (suc n) (suc k) h j =
    let rest = Leads-unique m (next_alias m c) r s n k h.1 j.1 in (rest.0, ap suc rest.1)

pub Leads-end : (m : AliasMap) (c r : String) (n : ℕ) → Leads m c r n → is_end m r ≡ true
unfolding Leads
Leads-end m c r zero h = rw (sym h.1) h.0
Leads-end m c r (suc n) h = Leads-end m (next_alias m c) r n h.1

-- The identifiers passed are further from the end than the one at hand.
Further : AliasMap → String → ℕ → List String → Type 0
Further m r n [] = Unit
Further m r n (s ∷ seen) = ((k : ℕ) × (n < k) × Leads m s r k) × Further m r n seen

Further-less :
    (m : AliasMap) (r : String) (n : ℕ) (seen : List String)
    → Further m r (suc n) seen
    → Further m r n seen
unfolding Further
Further-less m r n [] h = tt
Further-less m r n (s ∷ seen) ((k, lt, path), h) =
    ((k, omega arith, path), Further-less m r n seen h)

Further-new :
    (m : AliasMap) (c r : String) (n : ℕ) (seen : List String)
    → Leads m c r n
    → Further m r n seen
    → any (λ s. s == c) seen ≡ false
unfolding Further
Further-new m c r n [] path h = refl
Further-new m c r n (s ∷ seen) path ((k, lt, old), h) = elim (Bool-cases (s == c)) [
  | inl same ↦
      let e : s ≡ c = ground (arith, same) in
      let distance = (Leads-unique m c r r n k path (subst (λ x. Leads m x r k) e old)).1 in
      absurd (omega (arith, distance, lt))
  | inr other ↦ ground (arith, other, Further-new m c r n seen path h)
]

Leads-resolve_from :
    (rounds : ℕ) (m : AliasMap) (seen : List String) (c r : String) (n : ℕ)
    → fresh seen m < rounds
    → Leads m c r n
    → Further m r n seen
    → resolve_from rounds m seen c ≡ canonical r
unfolding resolve_from Leads Further
Leads-resolve_from zero m seen c r n lt path h = ground arith
Leads-resolve_from (suc rounds) m seen c r zero lt path h =
    let new = Further-new m c r zero seen path h in rw (new, path.0, path.1) refl
Leads-resolve_from (suc rounds) m seen c r (suc n) lt path h =
    let new = Further-new m c r (suc n) seen path h in
    let less = fresh_less seen c m new (goes_on m c path.0) in
    let passed : Further m r n (c ∷ seen) =
      ((suc n, omega arith, path), Further-less m r n seen h) in
    rw (new, path.0)
      (Leads-resolve_from rounds m (c ∷ seen) (next_alias m c) r n (omega (arith, less, lt)) path.1
        passed)

resolve_from-Leads :
    (rounds : ℕ) (m : AliasMap) (seen : List String) (c r : String)
    → resolve_from rounds m seen c ≡ canonical r
    → (n : ℕ) × Leads m c r n
unfolding resolve_from Leads
resolve_from-Leads zero m seen c r h = cc
resolve_from-Leads (suc rounds) m seen c r h = elim (Bool-cases (any (λ s. s == c) seen)) [
  | inl old ↦ absurd (ground (arith, old))
  | inr new ↦ elim (Bool-cases (is_end m c)) [
    | inl e ↦ (0, (e, ground (arith, new, e)))
    | inr e ↦
        let (n, path) =
          resolve_from-Leads rounds m (c ∷ seen) (next_alias m c) r (ground (arith, new, e)) in
        (suc n, (e, path))
  ]
]

-- On every map the loop ends within its rounds. It answers an identifier exactly when the aliases
-- lead there and end there.
pub resolve_canonical_iff :
    (m : AliasMap) (c r : String)
    → (resolve_canonical m c ≢ out_of_rounds)
      × ((resolve_canonical m c ≡ canonical r) ↔ ((n : ℕ) × Leads m c r n))
unfolding resolve_canonical Ends Further
resolve_canonical_iff m c r =
    let enough : fresh [] m < length m + 1 = omega (arith, fresh_le [] m) in
    (
      λ h. subst Ends h (resolve_from-Ends (length m + 1) m [] c enough),
      (
        λ h. resolve_from-Leads (length m + 1) m [] c r h,
        λ (n, path). Leads-resolve_from (length m + 1) m [] c r n enough path tt,
      ),
    )
