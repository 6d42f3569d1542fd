-- ===== src/Runs/Rows.antt =====
-- src/db/database.ts, table `sync_runs`: what an UPDATE and an ordered SELECT leave true of the
-- rows, whatever the method.
use mathlib.Core.List.{Memᴰ}
use cued.Base.{
  ltb, Bool, true, false, List, [], ◌∷◌, ◌++◌, none, some, any, filter_by, ◌≡◌, refl, sym, ap, ◌∙◌,
  subst, ◌⊎◌, inl, inr, arith, Bool-cases, nat_eq,
}
use cued.Runs.Types.{SyncRun, update_where, count_where, earlier, first_by}
use cued.Runs.Claim.{goes_before}

-- A property of every row.
abbrev pub All : (SyncRun → Type 0) → List SyncRun → Type 0
All P [] = Unit
All P (r ∷ rs) = P r × All P rs

pub All-map :
    {P Q : SyncRun → Type 0} (rows : List SyncRun)
    → ((r : SyncRun) → P r → Q r)
    → All P rows
    → All Q rows
All-map [] f h = tt
All-map (r ∷ rs) f h = (f r h.0, All-map rs f h.1)

pub All-mem :
    (P : SyncRun → Type 0) (rows : List SyncRun) {r : SyncRun} → All P rows → Memᴰ r rows → P r
All-mem P [] h m = elim m [ ]
All-mem P (r ∷ rs) h (Memᴰ.head e) = subst P (sym e) h.0
All-mem P (r ∷ rs) h (Memᴰ.tail m) = All-mem P rs h.1 m

pub All-append :
    (P : SyncRun → Type 0) (xs ys : List SyncRun) → All P xs → All P ys → All P (xs ++ ys)
All-append P [] ys h k = k
All-append P (x ∷ xs) ys h k = (h.0, All-append P xs ys h.1 k)

pub All-filter_by :
    (P : SyncRun → Type 0) (keep : SyncRun → Bool) (rows : List SyncRun)
    → All P rows
    → All P (filter_by keep rows)
All-filter_by P keep [] h = tt
All-filter_by P keep (r ∷ rs) h = elim (Bool-cases (keep r)) [
  | inl e ↦ rw e (h.0, All-filter_by P keep rs h.1)
  | inr e ↦ rw e (All-filter_by P keep rs h.1)
]

module _ (p : SyncRun → Bool) (f : SyncRun → SyncRun) where
  -- A property that the written rows gain and the others have.
  pub All-update_where :
      {P Q : SyncRun → Type 0} (rows : List SyncRun)
      → ((r : SyncRun) → P r → p r ≡ true → Q (f r))
      → ((r : SyncRun) → P r → p r ≡ false → Q r)
      → All P rows
      → All Q (update_where p f rows)
  All-update_where [] hit miss h = tt
  All-update_where {P} {Q} (r ∷ rs) hit miss h = elim (Bool-cases (p r)) [
    | inl e ↦ (rw e (hit r h.0 e), All-update_where {P = P} {Q = Q} rs hit miss h.1)
    | inr e ↦ (rw e (miss r h.0 e), All-update_where {P = P} {Q = Q} rs hit miss h.1)
  ]

  -- Where no row fits, nothing is written.
  pub update_where_none :
      (rows : List SyncRun) → All (λ r. p r ≡ false) rows → update_where p f rows ≡ rows
  update_where_none [] h = refl
  update_where_none (r ∷ rs) h = ground (arith, h.0, update_where_none rs h.1)

  pub mem-update_where :
      (rows : List SyncRun) {r : SyncRun}
      → Memᴰ r rows
      → p r ≡ true
      → Memᴰ (f r) (update_where p f rows)
  mem-update_where [] m h = elim m [ ]
  mem-update_where (s ∷ rs) (Memᴰ.head e) h = Memᴰ.head (rw (ap p (sym e) ∙ h) (ap f e))
  mem-update_where (s ∷ rs) (Memᴰ.tail m) h = Memᴰ.tail (mem-update_where rs m h)

pub count_where_none :
    (p : SyncRun → Bool) (rows : List SyncRun)
    → All (λ r. p r ≡ false) rows
    → count_where p rows ≡ 0
count_where_none p [] h = refl
count_where_none p (r ∷ rs) h = ground (arith, h.0, count_where_none p rs h.1)

pub count_where-any :
    (p : SyncRun → Bool) (rows : List SyncRun) → ltb 0 (count_where p rows) ≡ any p rows
count_where-any p [] = refl
count_where-any p (r ∷ rs) = ground (arith, count_where-any p rs)

pub any_mem :
    (p : SyncRun → Bool) (rows : List SyncRun) {r : SyncRun}
    → Memᴰ r rows
    → p r ≡ true
    → any p rows ≡ true
any_mem p [] m h = elim m [ ]
any_mem p (r ∷ rs) (Memᴰ.head e) h = ground (arith, ap p e)
any_mem p (r ∷ rs) (Memᴰ.tail m) h = ground (arith, any_mem p rs m h)

-- `goes_before` is a strict weak order.
before_irrefl : (r : SyncRun) → goes_before r r ≡ false
unfolding goes_before
before_irrefl r = ground arith

before_trans :
    (r s t : SyncRun) → goes_before t s ≡ false → goes_before s r ≡ false → goes_before t r ≡ false
unfolding goes_before
before_trans r s t h k = ground arith

before_asym : (r s : SyncRun) → goes_before s r ≡ true → goes_before r s ≡ false
unfolding goes_before
before_asym r s h = ground arith

-- What an ordered SELECT with LIMIT 1 answers.
pub record IsFirst (keep : SyncRun → Bool) (rows : List SyncRun) (r : SyncRun) : Type 0 where
  pub member : Memᴰ r rows
  pub kept : keep r ≡ true
  pub first : All (λ s. keep s ≡ true → goes_before s r ≡ false) rows

IsFirst-of_earlier :
    (keep : SyncRun → Bool) (r : SyncRun) (rs : List SyncRun) (s : SyncRun)
    → keep r ≡ true
    → IsFirst keep rs s
    → IsFirst keep (r ∷ rs) (earlier goes_before r (some s))
IsFirst-of_earlier keep r rs s k h = elim (Bool-cases (goes_before s r)) [
  | inl e ↦ rw e (record {
    member = Memᴰ.tail h.member;
    kept = h.kept;
    first = (λ _. before_asym r s e, h.first);
  })
  | inr e ↦ rw e (record {
    member = Memᴰ.head refl;
    kept = k;
    first = (λ _. before_irrefl r, All-map rs (λ t w kt. before_trans r s t (w kt) e) h.first);
  })
]

pub first_by-cases :
    (keep : SyncRun → Bool) (rows : List SyncRun)
    → ((first_by goes_before (filter_by keep rows) ≡ none) × All (λ s. keep s ≡ false) rows)
      ⊎ ((r : SyncRun) × (first_by goes_before (filter_by keep rows) ≡ some r)
          × IsFirst keep rows r)
first_by-cases keep [] = inl (refl, tt)
first_by-cases keep (r ∷ rs) = elim (Bool-cases (keep r)) [
  | inl k ↦ elim (first_by-cases keep rs) [
    | inl (e, none_kept) ↦ inr (
      r,
      rw (k, e),
      record {
        member = Memᴰ.head refl;
        kept = k;
        first = (λ _. before_irrefl r, All-map rs (λ s ks kt. cc) none_kept);
      },
    )
    | inr (s, e, h) ↦
        inr (earlier goes_before r (some s), rw (k, e), IsFirst-of_earlier keep r rs s k h)
  ]
  | inr k ↦ elim (first_by-cases keep rs) [
    | inl (e, none_kept) ↦ inl (rw (k, e), (k, none_kept))
    | inr (s, e, h) ↦ inr (
      s,
      rw (k, e),
      record { member = Memᴰ.tail h.member; kept = h.kept; first = (λ kt. cc, h.first) },
    )
  ]
]
