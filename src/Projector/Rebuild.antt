-- ===== src/Projector/Rebuild.antt =====
-- src/runtime/projection/projector.ts, `rebuildProjectedState`, and
-- src/runtime/projection/worker.ts, `runProjectionWorker`: what a projection run projects. A batch
-- size of `Number.MAX_SAFE_INTEGER` is no limit.
use cued.Base.{
  ℕ, zero, suc, ◌+◌, length, Bool, true, false, List, [], ◌∷◌, Option, none, some, Number, finite,
  not_finite, pos, pos_part, ◌==◌, if◌then◌else◌,
}
use cued.Platform.{SyncRunType, rebuild, run_type_eq}
use cued.Projection.{ProjectionRunDetails}
use cued.Projector.Store.{
  RawEventRow, ProjectionStore, Fare, project_event_batch, list_raw_events_after,
}
use cued.Projector.Ranges.{last_rowid, project_deferred_range, project_pending_raw_events}

-- `limit != null && Number.isFinite(limit) && limit > 0 ? Math.trunc(limit) : …`
abbrev pub rebuild_batch_size : Option Number → Option ℕ
rebuild_batch_size none = none
rebuild_batch_size (some not_finite) = none
rebuild_batch_size (some (finite z)) = elim (pos_part z) [ zero ↦ none | suc n ↦ some (suc n) ]

module _ (fare : RawEventRow → Fare) where
  -- The `while` loop, for at most `rounds` batches: the projected state is cleared by the first
  -- one. `commits` tells whether the transaction of the batch that ends at a row commits.
  unfoldable pub rebuild_from :
      (ℕ → Bool)
      → ℕ
      → ℕ
      → Option ℕ
      → Bool
      → List RawEventRow
      → ℕ
      → ProjectionStore
      → ProjectionStore × Option ℕ
  rebuild_from commits now rounds size clear [] done s = (s, some done)
  rebuild_from commits now zero size clear (r ∷ rs) done s = (s, none)
  rebuild_from commits now (suc rounds) size clear (r ∷ rs) done s =
      let watermark = last_rowid r.rowid rs in
      let (after, projected) =
        project_event_batch fare now (commits watermark)
          (record {
            raw_events = r ∷ rs;
            projection_watermark = some watermark;
            last_rebuild_at = some now;
            clear_state = clear;
          })
          s in
      elim projected [
        | none ↦ (after, none)
        | some _ ↦
            rebuild_from commits now rounds size false (list_raw_events_after watermark size after)
              (done + length (r ∷ rs)) after
      ]

  -- The answer is the number of events that were read, or none where a transaction throws. A batch
  -- takes at least one event, so there are no more batches than events.
  unfoldable pub rebuild_projected_state :
      (ℕ → Bool) → ℕ → Option Number → ProjectionStore → ProjectionStore × Option ℕ
  unfolding rebuild_from
  rebuild_projected_state commits now limit s =
      let size = rebuild_batch_size limit in
      elim (list_raw_events_after 0 size s) [
        | [] ↦
            let (after, projected) =
              project_event_batch fare now (commits 0)
                (record {
                  raw_events = [];
                  projection_watermark = some 0;
                  last_rebuild_at = some now;
                  clear_state = true;
                })
                s in
            (after, elim projected [ none ↦ none | some _ ↦ some 0 ])
        | r ∷ rs ↦ rebuild_from commits now (length s.raw_events) size true (r ∷ rs) 0 s
      ]

  -- `range` is what `parseProjectionRunDetails` reads of the run's details.
  unfoldable pub run_projection_worker :
      (ℕ → Bool)
      → ℕ
      → ℕ
      → SyncRunType
      → Option ProjectionRunDetails
      → ProjectionStore
      → ProjectionStore
  unfolding rebuild_projected_state
  run_projection_worker commits now batch_size run_type range s =
      if run_type == rebuild
      then (rebuild_projected_state commits now (some (finite (pos batch_size))) s).0
      else elim range [
        | some d ↦
            (project_deferred_range fare now (commits d.start_row_id) d.start_row_id d.end_row_id
              (some batch_size) s).0
        | none ↦
            (project_pending_raw_events fare now (commits (s.projection_watermark + 1))
              (some batch_size) s).0
      ]
