-- ===== src/Projection/Ranges.antt =====
-- src/runtime/projection/service.ts, `mergeProjectionRunDetails`: no row is lost, none is projected
-- twice.
use cued.Base.{
  ℕ, ◌+◌, ◌≤◌, ◌<◌, max, ltb, Option, none, some, ◌⊎◌, ◌↔◌, inl, inr, arith, Bool-cases,
}
use cued.Projection.Details.{
  ProjectionRunDetails, clamp_projection_run_details, merge_normalized,
  merge_projection_run_details, clamp_existing,
}

-- A row of the range of a run.
abbrev pub Covers : ProjectionRunDetails → ℕ → Type 0
Covers d row = (d.start_row_id ≤ row) × (row ≤ d.end_row_id)

abbrev pub CoversSome : Option ProjectionRunDetails → ℕ → Type 0
CoversSome none row = ⊥
CoversSome (some d) row = Covers d row

clamp-Covers :
    (d : ProjectionRunDetails) (watermark row : ℕ)
    → CoversSome (clamp_projection_run_details d watermark) row ↔ (Covers d row × (watermark < row))
unfolding clamp_projection_run_details
clamp-Covers d watermark row =
    elim (Bool-cases (ltb d.end_row_id (max d.start_row_id (watermark + 1)))) [
      | inl e ↦ rw e (λ h. absurd h, λ h. ground (arith, e, h.0.0, h.0.1, h.1))
      | inr e ↦ rw e (
        λ h. ((omega (arith, h.0), h.1), omega (arith, h.0)),
        λ h. (omega (arith, h.0.0, h.1), h.0.1),
      )
    ]

clamp_existing-Covers :
    (existing : Option ProjectionRunDetails) (watermark row : ℕ)
    → CoversSome (clamp_existing existing watermark) row
      ↔ (CoversSome existing row × (watermark < row))
clamp_existing-Covers none watermark row = (λ h. absurd h, λ h. absurd h.0)
clamp_existing-Covers (some d) watermark row = clamp-Covers d watermark row

-- A property of the first and the last row of a range, if there is one.
abbrev pub AtEnds : (ℕ → Type 0) → Option ProjectionRunDetails → Type 0
AtEnds P none = Unit
AtEnds P (some d) = P d.start_row_id × P d.end_row_id

clamp-AtEnds :
    (d : ProjectionRunDetails) (watermark : ℕ)
    → AtEnds
        (CoversSome (clamp_projection_run_details d watermark))
        (clamp_projection_run_details d watermark)
unfolding clamp_projection_run_details
clamp-AtEnds d watermark =
    elim (Bool-cases (ltb d.end_row_id (max d.start_row_id (watermark + 1)))) [
      | inl e ↦ rw e tt
      | inr e ↦ rw e ((omega arith, ground (arith, e)), (ground (arith, e), omega arith))
    ]

clamp_existing-AtEnds :
    (existing : Option ProjectionRunDetails) (watermark : ℕ)
    → AtEnds (CoversSome (clamp_existing existing watermark)) (clamp_existing existing watermark)
clamp_existing-AtEnds none watermark = tt
clamp_existing-AtEnds (some d) watermark = clamp-AtEnds d watermark

-- The rows of either range.
abbrev Either : Option ProjectionRunDetails → Option ProjectionRunDetails → ℕ → Type 0
Either existing incoming row = CoversSome existing row ⊎ CoversSome incoming row

merge_keeps :
    (watermark max_rowid : ℕ) (existing incoming : Option ProjectionRunDetails) (row : ℕ)
    → Either existing incoming row
    → CoversSome (merge_normalized watermark max_rowid existing incoming) row
unfolding merge_normalized
merge_keeps watermark max_rowid existing none row (inl h) = h
merge_keeps watermark max_rowid existing none row (inr h) = absurd h
merge_keeps watermark max_rowid none (some i) row (inl h) = absurd h
merge_keeps watermark max_rowid none (some i) row (inr h) = h
merge_keeps watermark max_rowid (some e) (some i) row (inl h) =
    (omega (arith, h.0), omega (arith, h.1))
merge_keeps watermark max_rowid (some e) (some i) row (inr h) =
    (omega (arith, h.0), omega (arith, h.1))

merge-AtEnds :
    (watermark max_rowid : ℕ) (existing incoming : Option ProjectionRunDetails)
    → AtEnds (CoversSome existing) existing
    → AtEnds (CoversSome incoming) incoming
    → AtEnds (Either existing incoming) (merge_normalized watermark max_rowid existing incoming)
unfolding merge_normalized
merge-AtEnds watermark max_rowid none none h k = tt
merge-AtEnds watermark max_rowid (some e) none h k = (inl h.0, inl h.1)
merge-AtEnds watermark max_rowid none (some i) h k = (inr k.0, inr k.1)
merge-AtEnds watermark max_rowid (some e) (some i) h k = (
  elim (Bool-cases (ltb e.start_row_id i.start_row_id)) [
    | inl lt ↦ inl (ground (arith, lt), ground (arith, lt, h.0.1))
    | inr ge ↦ inr (ground (arith, ge), ground (arith, ge, k.0.1))
  ],
  elim (Bool-cases (ltb e.end_row_id i.end_row_id)) [
    | inl lt ↦ inr (ground (arith, lt, k.1.0), ground (arith, lt))
    | inr ge ↦ inl (ground (arith, ge, h.1.0), ground (arith, ge))
  ],
)

-- A row that one of the two runs covers and that is past the watermark.
abbrev pub IsWanted : Option ProjectionRunDetails → ProjectionRunDetails → ℕ → ℕ → Type 0
IsWanted existing incoming watermark row =
    (CoversSome existing row ⊎ Covers incoming row) × (watermark < row)

IsWanted-iff :
    (existing : Option ProjectionRunDetails) (incoming : ProjectionRunDetails) (watermark row : ℕ)
    → IsWanted existing incoming watermark row
      ↔ Either
          (clamp_existing existing watermark)
          (clamp_projection_run_details incoming watermark)
          row
IsWanted-iff existing incoming watermark row = (to, from)
  where
    to :
        IsWanted existing incoming watermark row
        → Either
            (clamp_existing existing watermark)
            (clamp_projection_run_details incoming watermark)
            row
    to (inl h, past) = inl ((clamp_existing-Covers existing watermark row).1 (h, past))
    to (inr h, past) = inr ((clamp-Covers incoming watermark row).1 (h, past))

    from :
        Either
          (clamp_existing existing watermark)
          (clamp_projection_run_details incoming watermark)
          row
        → IsWanted existing incoming watermark row
    from (inl h) =
        let (c, past) = (clamp_existing-Covers existing watermark row).0 h in (inl c, past)
    from (inr h) = let (c, past) = (clamp-Covers incoming watermark row).0 h in (inr c, past)

-- The merged range covers every row past the watermark that one of the two ranges covers, and it
-- starts and ends at such rows. So nothing is left to do only if there is no such row.
pub merge_projection_run_details-IsWanted :
    (existing : Option ProjectionRunDetails) (incoming : ProjectionRunDetails)
    (watermark max_rowid : ℕ)
    → ((row : ℕ)
        → IsWanted existing incoming watermark row
        → CoversSome (merge_projection_run_details existing incoming watermark max_rowid) row)
      × AtEnds
          (IsWanted existing incoming watermark)
          (merge_projection_run_details existing incoming watermark max_rowid)
unfolding merge_projection_run_details
merge_projection_run_details-IsWanted existing incoming watermark max_rowid =
    let e = clamp_existing existing watermark in
    let i = clamp_projection_run_details incoming watermark in
    (
      λ row h.
          merge_keeps watermark max_rowid e i row
            ((IsWanted-iff existing incoming watermark row).0 h),
      AtEnds-map (Either e i) (IsWanted existing incoming watermark)
          (merge_normalized watermark max_rowid e i)
          (λ row h. (IsWanted-iff existing incoming watermark row).1 h)
          (merge-AtEnds watermark max_rowid e i (clamp_existing-AtEnds existing watermark)
            (clamp-AtEnds incoming watermark)),
    )
  where
    AtEnds-map :
        (P Q : ℕ → Type 0) (d : Option ProjectionRunDetails)
        → ((row : ℕ) → P row → Q row)
        → AtEnds P d
        → AtEnds Q d
    AtEnds-map P Q none f h = tt
    AtEnds-map P Q (some d) f h = (f d.start_row_id h.0, f d.end_row_id h.1)
