-- ===== src/Contacts/Union.antt =====
-- src/db/database.ts, the loop of `planContactMergeDecisions`: what its settings do to the map.
use cued.Base.{
  if◌then◌else◌, ℕ, zero, suc, true, false, String, [], ◌∷◌, some, or_else, ◌==◌, string_eq,
  is_empty, ◌≡◌, refl, sym, ap, ◌∙◌, subst, inl, inr, arith, Bool-cases,
}
use cued.Contacts.Alias.{AliasMap, alias_of, set_alias, next_alias, is_end}
use cued.Contacts.Resolution.{Leads}

-- Two maps that give the same answers.
abbrev pub Same : AliasMap → AliasMap → Type 0
Same m u = (c : String) → alias_of m c ≡ alias_of u c

pub alias_of-set_alias :
    (m : AliasMap) (s p c : String)
    → alias_of (set_alias s p m) c ≡ (if s == c then some p else alias_of m c)
unfolding alias_of set_alias
alias_of-set_alias [] s p c = ground arith
alias_of-set_alias (e ∷ m) s p c = ground (arith, alias_of-set_alias m s p c)

pub Same-set_alias :
    (m u : AliasMap) (s p : String) → Same m u → Same (set_alias s p m) (set_alias s p u)
Same-set_alias m u s p same c =
    ground (arith, same c, alias_of-set_alias m s p c, alias_of-set_alias u s p c)

pub Same-is_end : (m u : AliasMap) (c : String) → Same m u → is_end m c ≡ is_end u c
unfolding is_end next_alias
Same-is_end m u c same = rw (same c) refl

pub Same-Leads : (m u : AliasMap) (c r : String) (n : ℕ) → Same m u → Leads m c r n → Leads u c r n
unfolding Leads next_alias
Same-Leads m u c r zero same h = (sym (Same-is_end m u c same) ∙ h.0, h.1)
Same-Leads m u c r (suc n) same h = (
  sym (Same-is_end m u c same) ∙ h.0,
  subst (λ x. Leads u x r n) (ap (λ o. or_else o "") (same c))
      (Same-Leads m u (next_alias m c) r n same h.1),
)

-- What one round of the loop sets: from the end of one chain to the end of another.
abbrev pub Joins : AliasMap → String → String → Type 0
Joins m s p = (is_end m s ≡ true) × (is_end m p ≡ true) × (is_empty p ≡ false) × ((p == s) ≡ false)

next_alias-set_alias :
    (m : AliasMap) (s p c : String)
    → next_alias (set_alias s p m) c ≡ (if s == c then p else next_alias m c)
unfolding next_alias
next_alias-set_alias m s p c = rw (alias_of-set_alias m s p c) (ground arith)

is_end-set_alias :
    (m : AliasMap) (s p c : String)
    → Joins m s p
    → is_end (set_alias s p m) c ≡ (if s == c then false else is_end m c)
unfolding is_end
is_end-set_alias m s p c (s_end, p_end, filled, apart) =
    ground (arith, next_alias-set_alias m s p c, filled, apart)

abbrev pub joined : String → String → String → String
joined s p r = if s == r then p else r

-- The chains that ended at the one end now end at the other; no chain is broken or made a cycle.
pub Leads-set_alias :
    (m : AliasMap) (s p c r : String) (n : ℕ)
    → Joins m s p
    → Leads m c r n
    → (k : ℕ) × Leads (set_alias s p m) c (joined s p r) k
unfolding Leads
Leads-set_alias m s p c r zero joins (c_end, same) = elim (Bool-cases (s == c)) [
  | inl hit ↦
      let target : joined s p r ≡ p = ground (arith, hit, same) in
      let p_end : is_end (set_alias s p m) p ≡ true =
        ground (arith, is_end-set_alias m s p p joins, joins.1, joins.3) in
      (
        1,
        (
          ground (arith, is_end-set_alias m s p c joins, hit),
          (
            subst (λ x. is_end (set_alias s p m) x ≡ true)
                (sym (next_alias-set_alias m s p c ∙ rw hit refl)) p_end,
            next_alias-set_alias m s p c ∙ rw hit (sym target),
          ),
        ),
      )
  | inr miss ↦
      (0, (ground (arith, is_end-set_alias m s p c joins, miss), ground (arith, same, miss)))
]
Leads-set_alias m s p c r (suc n) joins (more, h) =
    let (k, path) = Leads-set_alias m s p (next_alias m c) r n joins h in
    let other : (s == c) ≡ false = ground (arith, more, joins.0) in
    let step : next_alias m c ≡ next_alias (set_alias s p m) c =
      sym (next_alias-set_alias m s p c ∙ rw other refl) in
    (
      suc k,
      (
        ground (arith, is_end-set_alias m s p c joins, other, more),
        subst (λ x. Leads (set_alias s p m) x (joined s p r) k) step path,
      ),
    )
