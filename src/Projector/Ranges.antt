-- ===== src/Projector/Ranges.antt =====
-- src/runtime/projection/projector.ts: `projectRangeInternal` and the functions that call it, and
-- the choice of `runProjectionWorker` in src/runtime/projection/worker.ts.
use cued.Base.{
  ℕ, zero, suc, ◌+◌, ◌-◌, max, length, leb, ltb, Bool, true, false, List, [], ◌∷◌, Option, none,
  some, or_else, ◌==◌, nat_eq, if◌then◌else◌,
}
use cued.Platform.{run_type_eq}
use cued.Projector.Store.{
  RawEventRow, ProjectionStore, Fare, project_event_batch, list_raw_events_in_range,
  pending_raw_events, max_rowid,
}

pub data ProjectionMode : Type 0 where
  realtime deferred : ProjectionMode

-- What the callers read of a `ProjectionRangeResult`.
pub record RangeResult : Type 0 where
  pub applied_raw_events : ℕ
  pub projection_watermark : ℕ
  pub completed : Bool
  pub next_start_row_id : Option ℕ

-- The `rowid` of the last event.
abbrev pub last_rowid : ℕ → List RawEventRow → ℕ
last_rowid before [] = before
last_rowid before (r ∷ rs) = last_rowid r.rowid rs

-- Realtime events move the watermark only if they follow on it.
unfoldable pub committed_watermark : ProjectionMode → ℕ → ℕ → ℕ → Option ℕ
committed_watermark ProjectionMode.deferred start watermark applied_end =
    some (max watermark applied_end)
committed_watermark ProjectionMode.realtime start watermark applied_end =
    if start == watermark + 1 then some (max watermark applied_end) else none

module _ (fare : RawEventRow → Fare) where
  unfoldable pub range_events :
      ℕ
      → Bool
      → ProjectionMode
      → ℕ
      → ℕ
      → List RawEventRow
      → ProjectionStore
      → ProjectionStore × Option RangeResult
  unfolding committed_watermark
  range_events now is_committed mode start end [] s = (
    s,
    some (record {
      applied_raw_events = 0;
      projection_watermark = s.projection_watermark;
      completed = true;
      next_start_row_id = none;
    }),
  )
  range_events now is_committed mode start end (r ∷ rs) s =
      let applied_end = last_rowid r.rowid rs in
      let completed = leb end applied_end in
      let (after, projected) =
        project_event_batch fare now is_committed
          (record {
            raw_events = r ∷ rs;
            projection_watermark =
                committed_watermark mode start s.projection_watermark applied_end;
            last_rebuild_at = none;
            clear_state = false;
          })
          s in
      (
        after,
        elim projected [
          | none ↦ none
          | some events ↦ some (record {
            applied_raw_events = length events;
            projection_watermark =
                or_else (committed_watermark mode start s.projection_watermark applied_end)
                  after.projection_watermark;
            completed = completed;
            next_start_row_id = if completed then none else some (applied_end + 1);
          })
        ],
      )

  -- No answer stands for an exception of the transaction.
  unfoldable pub project_range_internal :
      ℕ
      → Bool
      → ProjectionMode
      → ℕ
      → ℕ
      → Option ℕ
      → ProjectionStore
      → ProjectionStore × Option RangeResult
  unfolding range_events
  project_range_internal now is_committed mode start end limit s =
      range_events now is_committed mode start end (list_raw_events_in_range start end limit s) s

  unfoldable pub project_deferred_range :
      ℕ → Bool → ℕ → ℕ → Option ℕ → ProjectionStore → ProjectionStore × Option RangeResult
  project_deferred_range now is_committed start end limit s =
      project_range_internal now is_committed ProjectionMode.deferred start end limit s

  -- `projectPendingRawEvents`: nothing is done where nothing is pending.
  unfoldable pub project_pending_raw_events :
      ℕ → Bool → Option ℕ → ProjectionStore → ProjectionStore × Option RangeResult
  unfolding project_deferred_range
  project_pending_raw_events now is_committed limit s =
      if ltb 0 (pending_raw_events s)
      then project_deferred_range now is_committed (s.projection_watermark + 1)
          (max_rowid s.raw_events) limit s
      else (
        s,
        some (record {
          applied_raw_events = 0;
          projection_watermark = s.projection_watermark;
          completed = true;
          next_start_row_id = none;
        }),
      )

  -- The result of a batch, with the events that the batches before it projected.
  abbrev pub with_applied : ℕ → RangeResult → RangeResult
  with_applied before r = record r { applied_raw_events = before + r.applied_raw_events }

  -- The `while` loop of `projectRealtimeRange`, for at most `rounds` batches; `commits` tells
  -- whether the transaction of the batch that starts at a row commits.
  unfoldable pub realtime_from :
      (ℕ → Bool)
      → ℕ
      → ℕ
      → ℕ
      → Option ℕ
      → ℕ
      → RangeResult
      → ProjectionStore
      → ProjectionStore × Option RangeResult
  realtime_from commits now zero end batch_size start last s = (s, some last)
  realtime_from commits now (suc rounds) end batch_size start last s = elim (ltb end start) [
    | true ↦ (s, some last)
    | false ↦
        let (after, result) =
          project_range_internal now (commits start) ProjectionMode.realtime start end batch_size
            s in
        elim result [
          | none ↦ (after, none)
          | some r ↦ elim r.next_start_row_id [
            | none ↦ (after, some (with_applied last.applied_raw_events r))
            | some next ↦
                realtime_from commits now rounds end batch_size next
                  (with_applied last.applied_raw_events r) after
          ]
        ]
  ]

  -- A batch starts behind the one before it, so there are no more batches than rows in the range.
  unfoldable pub project_realtime_range :
      (ℕ → Bool) → ℕ → ℕ → ℕ → Option ℕ → ProjectionStore → ProjectionStore × Option RangeResult
  unfolding realtime_from
  project_realtime_range commits now start end batch_size s =
      let (after, result) =
        realtime_from commits now (suc end - start) end batch_size start
          (record {
            applied_raw_events = 0;
            projection_watermark = s.projection_watermark;
            completed = true;
            next_start_row_id = none;
          })
          s in
      (
        after,
        elim result [
          | none ↦ none
          | some r ↦ some (record r { completed = true; next_start_row_id = none })
        ],
      )
