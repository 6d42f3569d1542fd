-- ===== src/Projector/Runs.antt =====
-- src/runtime/projection/worker.ts and src/runtime/projection/projector.ts: projection runs whose
-- ranges src/runtime/projection/service.ts has merged, and events that are projected as they come.
use cued.Base.{
  ℕ, suc, ◌+◌, ◌-◌, ◌≤◌, max, ltb, Bool, Option, none, some, inl, inr, arith, Bool-cases,
}
use cued.Platform.{project, SyncRunType-discrete}
use cued.Projection.{
  ProjectionRunDetails, clamp_projection_run_details, clamp_existing, merge_normalized,
  merge_projection_run_details,
}
use cued.Projector.Store.{RawEventRow, ProjectionStore, Fare, max_rowid, pending_raw_events}
use cued.Projector.Ranges.{
  ProjectionMode, project_deferred_range, project_pending_raw_events, project_realtime_range,
}
use cued.Projector.Rebuild.{run_projection_worker}
use cued.Projector.NoGap.{HasNoGap, project_range_internal-HasNoGap, realtime_from-HasNoGap}

-- The range of a run, if it has one, starts no later than right behind the row.
abbrev pub StartsBy : ℕ → Option ProjectionRunDetails → Type 0
StartsBy row none = Unit
StartsBy row (some d) = d.start_row_id ≤ row + 1

clamp-StartsBy :
    (d : ProjectionRunDetails) (watermark : ℕ)
    → d.start_row_id ≤ watermark + 1
    → StartsBy watermark (clamp_projection_run_details d watermark)
unfolding clamp_projection_run_details
clamp-StartsBy d watermark le =
    elim (Bool-cases (ltb d.end_row_id (max d.start_row_id (watermark + 1)))) [
      | inl e ↦ rw e tt
      | inr e ↦ rw e (omega (arith, le))
    ]

clamp_existing-StartsBy :
    (existing : Option ProjectionRunDetails) (watermark : ℕ)
    → StartsBy watermark existing
    → StartsBy watermark (clamp_existing existing watermark)
clamp_existing-StartsBy none watermark le = tt
clamp_existing-StartsBy (some d) watermark le = clamp-StartsBy d watermark le

merge_normalized-StartsBy :
    (watermark max_row : ℕ) (existing incoming : Option ProjectionRunDetails)
    → StartsBy watermark existing
    → StartsBy watermark incoming
    → StartsBy watermark (merge_normalized watermark max_row existing incoming)
unfolding merge_normalized
merge_normalized-StartsBy watermark max_row existing none h k = h
merge_normalized-StartsBy watermark max_row none (some i) h k = k
merge_normalized-StartsBy watermark max_row (some d) (some i) h k = omega (arith, h, k)

merge-StartsBy :
    (existing : Option ProjectionRunDetails) (incoming : ProjectionRunDetails)
    (watermark max_row : ℕ)
    → StartsBy watermark existing
    → incoming.start_row_id ≤ watermark + 1
    → StartsBy watermark (merge_projection_run_details existing incoming watermark max_row)
unfolding merge_projection_run_details
merge-StartsBy existing incoming watermark max_row h le =
    merge_normalized-StartsBy watermark max_row (clamp_existing existing watermark)
      (clamp_projection_run_details incoming watermark)
      (clamp_existing-StartsBy existing watermark h) (clamp-StartsBy incoming watermark le)

StartsBy-later :
    (before watermark : ℕ) (range : Option ProjectionRunDetails)
    → before ≤ watermark
    → StartsBy before range
    → StartsBy watermark range
StartsBy-later before watermark none le h = tt
StartsBy-later before watermark (some d) le h = omega (arith, le, h)

run_projection_worker-HasNoGap :
    (fare : RawEventRow → Fare) (commits : ℕ → Bool) (now size : ℕ)
    (range : Option ProjectionRunDetails) (s : ProjectionStore)
    → StartsBy s.projection_watermark range
    → HasNoGap s
    → HasNoGap (run_projection_worker fare commits now size project range s)
unfolding run_projection_worker project_deferred_range project_pending_raw_events
    SyncRunType-discrete
run_projection_worker-HasNoGap fare commits now size (some d) s h gap =
    project_range_internal-HasNoGap fare now (commits d.start_row_id) ProjectionMode.deferred
      d.start_row_id d.end_row_id (some size) s h gap
run_projection_worker-HasNoGap fare commits now size none s h gap =
    elim (Bool-cases (ltb 0 (pending_raw_events s))) [
      | inr e ↦ rw e gap
      | inl e ↦ rw e (
          project_range_internal-HasNoGap fare now (commits (s.projection_watermark + 1))
            ProjectionMode.deferred (s.projection_watermark + 1) (max_rowid s.raw_events)
            (some size) s (omega arith) gap)
    ]

-- A projection run whose range was merged from ranges that started no later than right behind the
-- watermark of that time, and events of any range that are projected as they come, pass over no
-- event, whichever events can be projected and whichever transactions commit: if before the
-- rows are in order and every event up to the watermark was projected or stands among the failures,
-- then so it is after.
pub projection-HasNoGap :
    (fare : RawEventRow → Fare) (commits : ℕ → Bool) (now size : ℕ)
    (existing : Option ProjectionRunDetails) (incoming : ProjectionRunDetails)
    (watermark max_row start end : ℕ) (batch_size : Option ℕ) (s : ProjectionStore)
    → StartsBy watermark existing
    → incoming.start_row_id ≤ watermark + 1
    → watermark ≤ s.projection_watermark
    → HasNoGap s
    → HasNoGap (
        run_projection_worker fare commits now size project
          (merge_projection_run_details existing incoming watermark max_row)
          s)
      × HasNoGap (project_realtime_range fare commits now start end batch_size s).0
unfolding project_realtime_range
projection-HasNoGap fare commits now size existing incoming watermark max_row start end batch_size s
      h le later gap =
    (
      run_projection_worker-HasNoGap fare commits now size
          (merge_projection_run_details existing incoming watermark max_row) s
          (StartsBy-later watermark s.projection_watermark _ later
            (merge-StartsBy existing incoming watermark max_row h le))
          gap,
      realtime_from-HasNoGap fare commits now (suc end - start) end batch_size start _ s gap,
    )
