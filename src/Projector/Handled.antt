-- ===== src/Projector/Handled.antt =====
-- src/runtime/projection/projector.ts, `projectEventBatch`: which events have been projected or
-- quarantined, and which the two queries of events find.
use cued.Base.{
  ℕ, zero, suc, ◌≤◌, ◌<◌, Bool, true, false, ◌||◌, List, [], ◌∷◌, ◌++◌, Option, none, some, any,
  any-append, filter_by, take, ◌≡◌, inl, inr, refl, sym, subst, arith, Bool-cases, ◌==◌, nat_eq,
  if◌then◌else◌,
}
use cued.Projector.Store.{
  RawEventRow, ProjectionStore, Fare, is_malformed, is_rejected, is_applied, faring, Batch,
  project_event_batch, limited, upsert_projection_state,
}
use cued.Projector.Ranges.{last_rowid}

abbrev pub has_row : ℕ → List RawEventRow → Bool
has_row n rows = any (λ r. r.rowid == n) rows

-- The event of the row was projected, or it stands among the failures.
abbrev pub is_handled : ℕ → ProjectionStore → Bool
is_handled n s = has_row n s.projected || has_row n s.quarantined

-- The rows stand in the order of their identifiers, which are greater than `before`.
abbrev pub Ascending : ℕ → List RawEventRow → Type 0
Ascending before [] = Unit
Ascending before (r ∷ rs) = before < r.rowid × Ascending r.rowid rs

upsert-is_handled :
    (now n : ℕ) (watermark last_rebuild_at : Option ℕ) (s : ProjectionStore)
    → is_handled n (upsert_projection_state now watermark last_rebuild_at s) ≡ is_handled n s
unfolding upsert_projection_state
upsert-is_handled now n none last_rebuild_at s = refl
upsert-is_handled now n (some w) last_rebuild_at s = refl

module _ (fare : RawEventRow → Fare) where
  has_row-faring :
      (n : ℕ) (rows : List RawEventRow)
      → has_row n rows ≡ (
          has_row n (faring fare is_malformed rows)
          || (has_row n (faring fare is_applied rows) || has_row n (faring fare is_rejected rows)))
  has_row-faring n [] = refl
  has_row-faring n (r ∷ rs) = ground (arith, has_row-faring n rs)

  module _ (now : ℕ) (b : Batch) (s : ProjectionStore) (n : ℕ) where
    -- Every event of a batch that is committed is handled.
    pub batch_handles :
        has_row n b.raw_events ≡ true
        → is_handled n (project_event_batch fare now true b s).0 ≡ true
    unfolding project_event_batch upsert_projection_state
    batch_handles h =
        let ok = faring fare is_applied b.raw_events in
        let bad = faring fare is_malformed b.raw_events in
        let thrown = faring fare is_rejected b.raw_events in
        let is_here = λ (r : RawEventRow). r.rowid == n in
        rw (upsert-is_handled now n b.projection_watermark b.last_rebuild_at _) (
          ground (
            arith,
            h,
            has_row-faring n b.raw_events,
            any-append is_here (if b.clear_state then [] else s.projected) ok,
            any-append is_here (s.quarantined ++ bad) thrown,
            any-append is_here s.quarantined bad,
          ))

    -- What was handled stays handled, where the state is not cleared.
    pub batch_keeps :
        (is_committed : Bool)
        → b.clear_state ≡ false
        → is_handled n s ≡ true
        → is_handled n (project_event_batch fare now is_committed b s).0 ≡ true
    unfolding project_event_batch upsert_projection_state
    batch_keeps true c h =
        let ok = faring fare is_applied b.raw_events in
        let bad = faring fare is_malformed b.raw_events in
        let thrown = faring fare is_rejected b.raw_events in
        let is_here = λ (r : RawEventRow). r.rowid == n in
        rw (upsert-is_handled now n b.projection_watermark b.last_rebuild_at _, c)
          (ground (
            arith,
            h,
            any-append is_here s.projected ok,
            any-append is_here (s.quarantined ++ bad) thrown,
            any-append is_here s.quarantined bad,
          ))
    batch_keeps false c h = ground (
      arith,
      h,
      any-append (λ r. r.rowid == n) s.quarantined (faring fare is_malformed b.raw_events),
    )

pub Ascending-from :
    (low before : ℕ) (rows : List RawEventRow)
    → low ≤ before
    → Ascending before rows
    → Ascending low rows
Ascending-from low before [] le h = tt
Ascending-from low before (r ∷ rs) le h = (omega (arith, le, h.0), h.1)

pub Ascending-has_row :
    (before n : ℕ) (rows : List RawEventRow)
    → Ascending before rows
    → has_row n rows ≡ true
    → before < n
Ascending-has_row before n [] h e = absurd (ground (arith, e))
Ascending-has_row before n (r ∷ rs) h e = elim (Bool-cases (r.rowid == n)) [
  | inl here ↦ ground (arith, here, h.0)
  | inr miss ↦
      let below = Ascending-has_row r.rowid n rs h.1 (ground (arith, e, miss)) in
      omega (arith, h.0, below)
]

-- A query on the identifiers finds every row that it asks for, up to the last one that it finds.
module _ (wanted : ℕ → Bool) (n : ℕ) (w : wanted n ≡ true) where
  wanted_here : (r : RawEventRow) → r.rowid == n ≡ true → wanted r.rowid ≡ true
  wanted_here r here = subst (λ m. wanted m ≡ true) (sym (ground (arith, here))) w

  not_here :
      (r : RawEventRow) (rs : List RawEventRow)
      → wanted r.rowid ≡ false
      → has_row n (r ∷ rs) ≡ true
      → has_row n rs ≡ true
  not_here r rs e h = elim (Bool-cases (r.rowid == n)) [
    | inl here ↦ absurd (cc (wanted_here r here, e))
    | inr miss ↦ ground (arith, h, miss)
  ]

  filter_finds :
      (rows : List RawEventRow)
      → has_row n rows ≡ true
      → has_row n (filter_by (λ r. wanted r.rowid) rows) ≡ true
  filter_finds [] h = h
  filter_finds (r ∷ rs) h = elim (Bool-cases (wanted r.rowid)) [
    | inr e ↦ rw e (filter_finds rs (not_here r rs e h))
    | inl e ↦ elim (Bool-cases (r.rowid == n)) [
      | inl here ↦ rw (e, here) refl
      | inr miss ↦ rw (e, miss) (filter_finds rs (ground (arith, h, miss)))
    ]
  ]

  take_finds :
      (k before : ℕ) (rows : List RawEventRow)
      → Ascending before rows
      → has_row n rows ≡ true
      → n ≤ last_rowid before (take k (filter_by (λ r. wanted r.rowid) rows))
      → has_row n (take k (filter_by (λ r. wanted r.rowid) rows)) ≡ true
  take_finds zero before rows a h le =
      absurd (omega (arith, le, Ascending-has_row before n rows a h))
  take_finds (suc k) before [] a h le = absurd (ground (arith, h))
  take_finds (suc k) before (r ∷ rs) a h le = elim (Bool-cases (wanted r.rowid)) [
    | inr e ↦ rw e (
        take_finds (suc k) before rs (Ascending-from before r.rowid rs (omega (arith, a.0)) a.1)
          (not_here r rs e h) (rw e at le))
    | inl e ↦ elim (Bool-cases (r.rowid == n)) [
      | inl here ↦ rw (e, here) refl
      | inr miss ↦ rw (e, miss) (take_finds k r.rowid rs a.1 (ground (arith, h, miss)) (rw e at le))
    ]
  ]

  pub limited_finds :
      (limit : Option ℕ) (before : ℕ) (rows : List RawEventRow)
      → Ascending before rows
      → has_row n rows ≡ true
      → n ≤ last_rowid before (limited limit (filter_by (λ r. wanted r.rowid) rows))
      → has_row n (limited limit (filter_by (λ r. wanted r.rowid) rows)) ≡ true
  limited_finds none before rows a h le = filter_finds rows h
  limited_finds (some k) before rows a h le = take_finds k before rows a h le
