-- ===== src/Projector/Rebuilding.antt =====
-- src/runtime/projection/projector.ts, `rebuildProjectedState`: a rebuild ends, and it handles every
-- event.
use cued.Base.{
  ℕ, zero, suc, ◌+◌, ◌≤◌, ◌<◌, length, ltb, Bool, true, false, List, [], ◌∷◌, Option, some, is_some,
  ◌≡◌, ◌⊎◌, inl, inr, refl, sym, ◌∙◌, subst, arith, Bool-cases, nat_eq, Number,
}
use cued.Projector.Store.{
  RawEventRow, ProjectionStore, Fare, Batch, project_event_batch, limited, list_raw_events_after,
}
use cued.Projector.Ranges.{last_rowid}
use cued.Projector.Rebuild.{rebuild_batch_size, rebuild_from, rebuild_projected_state}
use cued.Projector.Handled.{
  has_row, is_handled, Ascending, Ascending-has_row, batch_handles, batch_keeps, limited_finds,
}
use cued.Projector.NoGap.{IsHandledTo, batch-raw_events}
use cued.Projector.After.{
  IsLimit, rebuild_batch_size-IsLimit, after, filter_is_empty, limited_is_empty, limited_first,
  after_first, Ascending-past, Ascending-limited, Ascending-last,
}

module _ (fare : RawEventRow → Fare) (now : ℕ) (size : Option ℕ) (l : IsLimit size) where
  -- The batch of a round, and what it leaves.
  abbrev batch : Bool → RawEventRow → List RawEventRow → Batch
  batch clear r rs = record {
    raw_events = r ∷ rs;
    projection_watermark = some (last_rowid r.rowid rs);
    last_rebuild_at = some now;
    clear_state = clear;
  }

  abbrev next : Bool → RawEventRow → List RawEventRow → ProjectionStore → ProjectionStore
  next clear r rs s = (project_event_batch fare now true (batch clear r rs) s).0

  -- Nothing was handled before, or everything up to the row and nothing is cleared any more.
  abbrev Begun : ℕ → Bool → ProjectionStore → Type 0
  Begun low clear s = (low ≡ 0) ⊎ ((clear ≡ false) × IsHandledTo low s)

  next-IsHandledTo :
      (low : ℕ) (clear : Bool) (r : RawEventRow) (rs : List RawEventRow) (s : ProjectionStore)
      → Ascending 0 s.raw_events
      → limited size (after low s.raw_events) ≡ r ∷ rs
      → Begun low clear s
      → IsHandledTo (last_rowid r.rowid rs) (next clear r rs s)
  next-IsHandledTo low clear r rs s a e begun n le h =
      let here = rw (batch-raw_events fare now true (batch clear r rs) s) at h in
      elim (Bool-cases (ltb low n)) [
        | inl past ↦ batch_handles fare now (batch clear r rs) s n (
            subst (λ x. has_row n x ≡ true) e
              (limited_finds (λ m. ltb low m) n past size 0 s.raw_events a here
                (subst (λ x. n ≤ last_rowid 0 x) (sym e) le)))
        | inr old ↦ elim begun [
          | inl z ↦ absurd (ground (arith, old, z, Ascending-has_row 0 n s.raw_events a here))
          | inr (c, handled) ↦
              batch_keeps fare now (batch clear r rs) s n true c
                (handled n (ground (arith, old)) here)
        ]
      ]

  next-fewer :
      (low : ℕ) (clear : Bool) (r : RawEventRow) (rs : List RawEventRow) (s : ProjectionStore)
      → Ascending 0 s.raw_events
      → limited size (after low s.raw_events) ≡ r ∷ rs
      → length (after (last_rowid r.rowid rs) (next clear r rs s).raw_events)
        < length (after low s.raw_events)
  next-fewer low clear r rs s a e =
      let (rest, whole) = limited_first size (after low s.raw_events) r rs e in
      let found =
        subst (λ x. Ascending low x) e
          (Ascending-limited size low (after low s.raw_events)
            (Ascending-past low 0 s.raw_events a)) in
      let on = Ascending-last r.rowid rs found.1 in
      rw (batch-raw_events fare now true (batch clear r rs) s) (
        after_first low (last_rowid r.rowid rs) s.raw_events r rest whole on
          (omega (arith, found.0, on)))

  -- Enough rounds are given, and in the end every event is handled.
  rebuild_from-handles :
      (rounds low done : ℕ) (clear : Bool) (events : List RawEventRow) (s : ProjectionStore)
      → Ascending 0 s.raw_events
      → limited size (after low s.raw_events) ≡ events
      → Begun low clear s
      → length (after low s.raw_events) ≤ rounds
      → let out = rebuild_from fare (λ _. true) now rounds size clear events done s in
        (is_some out.1 ≡ true)
        × (out.0.raw_events ≡ s.raw_events)
        × ((n : ℕ) → has_row n s.raw_events ≡ true → is_handled n out.0 ≡ true)
  unfolding rebuild_from project_event_batch list_raw_events_after
  rebuild_from-handles rounds low done clear [] s a e begun le = (
    refl,
    refl,
    λ n h.
        let behind =
          filter_is_empty low n s.raw_events (limited_is_empty size (after low s.raw_events) l e)
            h in
        elim begun [
          | inl z ↦ absurd (ground (arith, z, behind, Ascending-has_row 0 n s.raw_events a h))
          | inr (_, handled) ↦ handled n behind h
        ],
  )
  rebuild_from-handles zero low done clear (r ∷ rs) s a e begun le =
      let (rest, whole) = limited_first size (after low s.raw_events) r rs e in
      absurd (ground (arith, le, whole))
  rebuild_from-handles (suc rounds) low done clear (r ∷ rs) s a e begun le =
      let raw = batch-raw_events fare now true (batch clear r rs) s in
      let (ends, same, all) =
        rebuild_from-handles rounds (last_rowid r.rowid rs) (done + length (r ∷ rs)) false _
          (next clear r rs s) (rw raw a) refl
          (inr (refl, next-IsHandledTo low clear r rs s a e begun))
          (omega (arith, le, next-fewer low clear r rs s a e)) in
      (ends, same ∙ raw, λ n h. all n (rw raw h))

length-after : (row : ℕ) (rows : List RawEventRow) → length (after row rows) ≤ length rows
length-after row [] = omega arith
length-after row (r ∷ rs) = ground (arith, length-after row rs)

no_rows :
    (size : Option ℕ) (s : ProjectionStore)
    → IsLimit size
    → Ascending 0 s.raw_events
    → limited size (after 0 s.raw_events) ≡ []
    → (n : ℕ) → has_row n s.raw_events ≡ true
    → ⊥
no_rows size s l a e n h =
    let none_behind =
      filter_is_empty 0 n s.raw_events (limited_is_empty size (after 0 s.raw_events) l e) h in
    omega (arith, none_behind, Ascending-has_row 0 n s.raw_events a h)

-- A rebuild whose transactions all commit comes to an end, leaves the raw events alone, and has
-- every one of them projected or among the failures, whatever became of them before.
pub rebuild_projected_state-handles :
    (fare : RawEventRow → Fare) (now : ℕ) (limit : Option Number) (s : ProjectionStore)
    → Ascending 0 s.raw_events
    → let (rebuilt, answer) = rebuild_projected_state fare (λ _. true) now limit s in
      (is_some answer ≡ true)
      × (rebuilt.raw_events ≡ s.raw_events)
      × ((n : ℕ) → has_row n s.raw_events ≡ true → is_handled n rebuilt ≡ true)
unfolding rebuild_projected_state list_raw_events_after project_event_batch
rebuild_projected_state-handles fare now limit s a =
    by_events (limited (rebuild_batch_size limit) (after 0 s.raw_events)) refl
  where
    by_events :
        (events : List RawEventRow)
        → limited (rebuild_batch_size limit) (after 0 s.raw_events) ≡ events
        → let (rebuilt, answer) = rebuild_projected_state fare (λ _. true) now limit s in
          (is_some answer ≡ true)
          × (rebuilt.raw_events ≡ s.raw_events)
          × ((n : ℕ) → has_row n s.raw_events ≡ true → is_handled n rebuilt ≡ true)
    by_events [] e =
        rw (e, rebuild_projected_state)
          (
            refl,
            refl,
            λ n h.
                absurd
                  (no_rows (rebuild_batch_size limit) s (rebuild_batch_size-IsLimit limit) a e n h),
          )
    by_events (r ∷ rs) e =
        rw (e, rebuild_projected_state)
          (rebuild_from-handles fare now (rebuild_batch_size limit)
            (rebuild_batch_size-IsLimit limit) (length s.raw_events) 0 0 true (r ∷ rs) s a e
            (inl refl) (length-after 0 s.raw_events))
