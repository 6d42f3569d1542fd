-- ===== src/Projector/After.antt =====
-- src/runtime/projection/projector.ts, `rebuildProjectedState`: the rows that a query behind a
-- row finds.
use cued.Base.{
  ℕ, zero, suc, ◌≤◌, ◌<◌, length, ltb, true, List, [], ◌∷◌, Option, none, some, filter_by, ◌≡◌, inl,
  inr, refl, sym, subst, arith, Bool-cases, ◌==◌, nat_eq, Number, finite, not_finite, pos, negsuc,
}
use cued.Projector.Store.{RawEventRow, limited}
use cued.Projector.Ranges.{last_rowid}
use cued.Projector.Rebuild.{rebuild_batch_size}
use cued.Projector.Handled.{has_row, Ascending, Ascending-from}

-- A limit that lets at least one row through.
abbrev pub IsLimit : Option ℕ → Type 0
IsLimit none = Unit
IsLimit (some n) = 1 ≤ n

pub rebuild_batch_size-IsLimit : (limit : Option Number) → IsLimit (rebuild_batch_size limit)
rebuild_batch_size-IsLimit none = tt
rebuild_batch_size-IsLimit (some not_finite) = tt
rebuild_batch_size-IsLimit (some (finite (pos zero))) = tt
rebuild_batch_size-IsLimit (some (finite (pos (suc n)))) = omega arith
rebuild_batch_size-IsLimit (some (finite (negsuc n))) = tt

abbrev pub after : ℕ → List RawEventRow → List RawEventRow
after row rows = filter_by (λ r. ltb row r.rowid) rows

pub filter_is_empty :
    (row n : ℕ) (rows : List RawEventRow) → after row rows ≡ [] → has_row n rows ≡ true → n ≤ row
filter_is_empty row n [] e h = absurd (ground (arith, h))
filter_is_empty row n (r ∷ rs) e h = elim (Bool-cases (ltb row r.rowid)) [
  | inl k ↦ absurd (ground (arith, e, k))
  | inr k ↦ elim (Bool-cases (r.rowid == n)) [
    | inl here ↦ ground (arith, k, here)
    | inr miss ↦ filter_is_empty row n rs (rw k at e) (ground (arith, h, miss))
  ]
]

pub limited_is_empty :
    (limit : Option ℕ) (rows : List RawEventRow)
    → IsLimit limit
    → limited limit rows ≡ []
    → rows ≡ []
limited_is_empty none rows l e = e
limited_is_empty (some k) [] l e = refl
limited_is_empty (some zero) (r ∷ rs) l e = absurd (omega (arith, l))
limited_is_empty (some (suc k)) (r ∷ rs) l e = absurd (cc e)

-- The rows behind a later row are fewer, where one stands between.
after_later :
    (row later : ℕ) (rows : List RawEventRow)
    → row ≤ later
    → length (after later rows) ≤ length (after row rows)
after_later row later [] le = omega arith
after_later row later (r ∷ rs) le = ground (arith, after_later row later rs le)

pub limited_first :
    (limit : Option ℕ) (rows : List RawEventRow) (r : RawEventRow) (rs : List RawEventRow)
    → limited limit rows ≡ r ∷ rs
    → (rest : List RawEventRow) × (rows ≡ r ∷ rest)
limited_first none rows r rs e = (rs, e)
limited_first (some zero) rows r rs e = absurd (cc e)
limited_first (some (suc k)) [] r rs e = absurd (cc e)
limited_first (some (suc k)) (x ∷ xs) r rs e = (xs, cc e)

pub after_first :
    (row later : ℕ) (rows : List RawEventRow) (r : RawEventRow) (rest : List RawEventRow)
    → after row rows ≡ r ∷ rest
    → r.rowid ≤ later
    → row ≤ later
    → length (after later rows) < length (after row rows)
after_first row later [] r rest e le lt = absurd (cc e)
after_first row later (s ∷ ss) r rest e le lt = elim (Bool-cases (ltb row s.rowid)) [
  | inl k ↦
      let same = subst (λ x. x.rowid ≤ later) (sym (first_same s r _ rest (rw k at e))) le in
      ground (arith, k, same, after_later row later ss lt)
  | inr k ↦ ground (arith, k, lt, after_first row later ss r rest (rw k at e) le lt)
]
  where
    first_same : (s r : RawEventRow) (ss rs : List RawEventRow) → s ∷ ss ≡ r ∷ rs → s ≡ r
    first_same s r ss rs e = cc e

Ascending-after :
    (row before : ℕ) (rows : List RawEventRow)
    → Ascending before rows
    → Ascending before (after row rows)
Ascending-after row before [] a = tt
Ascending-after row before (r ∷ rs) a = elim (Bool-cases (ltb row r.rowid)) [
  | inl k ↦ rw k (a.0, Ascending-after row r.rowid rs a.1)
  | inr k ↦
      rw k
        (Ascending-after row before rs (Ascending-from before r.rowid rs (omega (arith, a.0)) a.1))
]

pub Ascending-past :
    (row before : ℕ) (rows : List RawEventRow)
    → Ascending before rows
    → Ascending row (after row rows)
Ascending-past row before [] a = tt
Ascending-past row before (r ∷ rs) a = elim (Bool-cases (ltb row r.rowid)) [
  | inl k ↦ rw k (ground (arith, k), Ascending-after row r.rowid rs a.1)
  | inr k ↦ rw k (Ascending-past row r.rowid rs a.1)
]

pub Ascending-limited :
    (limit : Option ℕ) (before : ℕ) (rows : List RawEventRow)
    → Ascending before rows
    → Ascending before (limited limit rows)
Ascending-limited none before rows a = a
Ascending-limited (some zero) before rows a = tt
Ascending-limited (some (suc k)) before [] a = tt
Ascending-limited (some (suc k)) before (r ∷ rs) a =
    (a.0, Ascending-limited (some k) r.rowid rs a.1)

pub Ascending-last :
    (before : ℕ) (rows : List RawEventRow) → Ascending before rows → before ≤ last_rowid before rows
Ascending-last before [] a = omega arith
Ascending-last before (r ∷ rs) a = omega (arith, a.0, Ascending-last r.rowid rs a.1)
