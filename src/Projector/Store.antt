-- ===== src/Projector/Store.antt =====
-- src/db/database.ts, the table `raw_events` and the row of `projection_state`, and
-- `projectEventBatch` of src/runtime/projection/projector.ts. The projected tables are modelled by
-- the events that they were built from, and the table of failures by the events that it names.
use cued.Base.{
  ℕ, ◌-◌, max, leb, ltb, Bool, true, false, ◌&&◌, String, List, [], ◌∷◌, ◌++◌, Option, none, some,
  filter_by, take, if◌then◌else◌,
}
use cued.Platform.{Platform, EntityKind}

pub record RawEventRow : Type 0 where
  pub rowid : ℕ
  pub id : String
  pub platform : Platform
  pub account_key : String
  pub entity_kind : EntityKind
  pub event_kind : String
  pub normalized_schema : Option String
  pub observed_at : ℕ
  pub payload_json : String

-- `raw_events` in the order of `rowid`. The first `getProjectionState` puts the row with a
-- watermark of 0 where there is none, so there always is one.
pub record ProjectionStore : Type 0 where
  pub raw_events : List RawEventRow
  pub projected : List RawEventRow
  pub quarantined : List RawEventRow
  pub projection_watermark : ℕ
  pub last_projected_at : Option ℕ
  pub last_rebuild_at : Option ℕ

-- `LIMIT ?`, where a missing limit is none.
abbrev pub limited : Option ℕ → List RawEventRow → List RawEventRow
limited none rows = rows
limited (some n) rows = take n rows

abbrev pub is_in_range : ℕ → ℕ → RawEventRow → Bool
is_in_range start end r = leb start r.rowid && leb r.rowid end

unfoldable pub list_raw_events_in_range : ℕ → ℕ → Option ℕ → ProjectionStore → List RawEventRow
list_raw_events_in_range start end limit s =
    if ltb end start then [] else limited limit (filter_by (is_in_range start end) s.raw_events)

unfoldable pub list_raw_events_after : ℕ → Option ℕ → ProjectionStore → List RawEventRow
list_raw_events_after row_id limit s =
    limited limit (filter_by (λ r. ltb row_id r.rowid) s.raw_events)

-- `MAX(rowid)`
abbrev pub max_rowid : List RawEventRow → ℕ
max_rowid [] = 0
max_rowid (r ∷ rs) = max r.rowid (max_rowid rs)

unfoldable pub pending_raw_events : ProjectionStore → ℕ
pending_raw_events s = max_rowid s.raw_events - s.projection_watermark

-- How an event fares: it cannot be normalised, its SQL throws, or it is projected.
pub data Fare : Type 0 where
  malformed rejected applied : Fare

abbrev pub is_malformed : Fare → Bool
is_malformed Fare.malformed = true
is_malformed _ = false

abbrev pub is_rejected : Fare → Bool
is_rejected Fare.rejected = true
is_rejected _ = false

abbrev pub is_applied : Fare → Bool
is_applied Fare.applied = true
is_applied _ = false

-- The `upsertProjectionState` of the projector, which never lowers the watermark.
unfoldable pub upsert_projection_state : ℕ → Option ℕ → Option ℕ → ProjectionStore → ProjectionStore
upsert_projection_state now none last_rebuild_at s = s
upsert_projection_state now (some watermark) last_rebuild_at s = record s {
  projection_watermark = max s.projection_watermark watermark;
  last_projected_at = some now;
  last_rebuild_at = elim last_rebuild_at [ none ↦ s.last_rebuild_at | some at ↦ some at ];
}

-- The fields of the input of `projectEventBatch` that it reads, but for the caches.
pub record Batch : Type 0 where
  pub raw_events : List RawEventRow
  pub projection_watermark : Option ℕ
  pub last_rebuild_at : Option ℕ
  pub clear_state : Bool

module _ (fare : RawEventRow → Fare) where
  abbrev pub faring : (Fare → Bool) → List RawEventRow → List RawEventRow
  faring p rows = filter_by (λ r. p (fare r)) rows

  -- An event that cannot be normalised is quarantined before the transaction, one whose SQL throws
  -- after it. Where the transaction throws, nothing else is left of the batch and there is no
  -- answer; else the answer is how many events were projected.
  unfoldable pub project_event_batch :
      ℕ → Bool → Batch → ProjectionStore → ProjectionStore × Option (List RawEventRow)
  unfolding upsert_projection_state
  project_event_batch now is_committed batch s =
      let s1 = record s { quarantined = s.quarantined ++ faring is_malformed batch.raw_events } in
      if is_committed
      then (
        upsert_projection_state now batch.projection_watermark batch.last_rebuild_at (record s1 {
          projected =
              (if batch.clear_state then [] else s1.projected)
              ++ faring is_applied batch.raw_events;
          quarantined = s1.quarantined ++ faring is_rejected batch.raw_events;
        }),
        some (faring is_applied batch.raw_events),
      )
      else (s1, none)
