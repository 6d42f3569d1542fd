-- ===== src/Contacts/Listing.antt =====
-- src/db/database.ts, `listContactMergeAliases`: the order of the rows does not matter to the map.
use cued.Base.{
  Bool, true, false, String, List, [], ◌∷◌, map, none, insert_by, sort_by, ◌==◌, string_eq,
  is_empty, ◌≡◌, refl, ◌∙◌, inl, inr, arith, Bool-cases, Option-cases,
}
use cued.Contacts.Types.{ContactMergeDecision, PlannedMerge}
use cued.Contacts.Alias.{AliasMap, alias_of, set_alias, next_alias, is_end, alias_pair}
use cued.Contacts.Union.{alias_of-set_alias}
use cued.Contacts.Plan.{Steps, settings}

-- No contact is merged twice, into itself or into nothing.
unfoldable pub Distinct : AliasMap → Type 0
Distinct [] = Unit
Distinct ((s, p) ∷ m) =
    (alias_of m s ≡ none) × (is_empty p ≡ false) × ((p == s) ≡ false) × Distinct m

end_unset : (m : AliasMap) (c : String) → Distinct m → is_end m c ≡ true → alias_of m c ≡ none
unfolding Distinct is_end next_alias alias_of
end_unset [] c h e = refl
end_unset ((s, p) ∷ m) c h e = elim (Option-cases (alias_of m c)) [
  | inl unset ↦ ground (arith, e, unset, h.1, h.2)
  | inr (q, found) ↦
      let later : alias_of m c ≡ none = end_unset m c h.3 (ground (arith, e, found)) in
      absurd (ground (arith, found, later))
]

Distinct-set_alias :
    (m : AliasMap) (s p : String)
    → Distinct m
    → alias_of m s ≡ none
    → is_empty p ≡ false
    → (p == s) ≡ false
    → Distinct (set_alias s p m)
unfolding Distinct set_alias alias_of
Distinct-set_alias [] s p h unset filled apart = (refl, filled, apart, tt)
Distinct-set_alias ((t, q) ∷ m) s p h unset filled apart =
    let later : alias_of m s ≡ none = ground (arith, unset) in
    let other : (s == t) ≡ false = ground (arith, unset, later) in
    (
      unfold set_alias in ground (arith, alias_of-set_alias m s p t, h.0, other),
      h.1,
      h.2,
      Distinct-set_alias m s p h.3 later filled apart,
    )

pub Distinct-settings :
    (m : AliasMap) (ds : List PlannedMerge) → Distinct m → Steps m ds → Distinct (settings ds m)
unfolding Steps settings
Distinct-settings m [] h steps = h
Distinct-settings m (d ∷ ds) h steps =
    let s = d.secondary_contact_id in
    let p = d.canonical_contact_id in
    let (s_end, _, filled, apart) = steps.0 in
    Distinct-settings (set_alias s p m) ds
      (Distinct-set_alias m s p h (end_unset m s h s_end) filled apart) steps.1

-- Where each contact is merged once, sorting the rows leaves the map as it was.
module _ (before : ContactMergeDecision → ContactMergeDecision → Bool) where
  alias_of-insert_by :
      (d : ContactMergeDecision) (rows : List ContactMergeDecision) (c : String)
      → alias_of (map alias_pair rows) d.secondary_contact_id ≡ none
      → alias_of (map alias_pair (insert_by before d rows)) c
        ≡ alias_of (map alias_pair (d ∷ rows)) c
  unfolding alias_of
  alias_of-insert_by d [] c unset = refl
  alias_of-insert_by d (e ∷ rows) c unset = elim (Bool-cases (before d e)) [
    | inl first ↦ rw first refl
    | inr later ↦
        let rest = alias_of-insert_by d rows c (ground (arith, unset)) in
        rw later (ground (arith, rest, unset))
  ]

  pub alias_of-sort_by :
      (rows : List ContactMergeDecision) (c : String)
      → Distinct (map alias_pair rows)
      → alias_of (map alias_pair (sort_by before rows)) c ≡ alias_of (map alias_pair rows) c
  unfolding Distinct alias_of
  alias_of-sort_by [] c h = refl
  alias_of-sort_by (d ∷ rows) c h =
      let unset : alias_of (map alias_pair (sort_by before rows)) d.secondary_contact_id ≡ none =
        alias_of-sort_by rows d.secondary_contact_id h.3 ∙ h.0 in
      let rest = alias_of-sort_by rows c h.3 in
      alias_of-insert_by d (sort_by before rows) c unset ∙ ground (arith, rest)
