-- ===== src/Daemon/ProjectionRun.antt =====
-- src/runtime/daemon/server.ts, `queueProjectionRun`, and src/db/database.ts,
-- `getQueuedProjectionRun`: rows to be projected are put into the projection run that waits, or
-- into a new one. What `getProjectionBacklog` reads is an argument, and so are the JSON functions:
-- `stringify` writes a run's details, `parse_json` reads the fields of a column.
use cued.Base.{
  ℕ, ◌+◌, ltb, Bool, ◌&&◌, ◌||◌, String, Option, none, some, ℤ, pos, pos_part, finite, filter_by,
  ◌==◌, if◌then◌else◌,
}
use cued.Platform.{project, queued, run_type_eq, run_status_eq}
use cued.Runs.{
  SyncRun, RunTables, QueueInput, queue_sync_run, update_run_details, reschedule_run, first_by,
}
use cued.Projection.{
  ProjectionRunDetails, ParsedDetails, parse_projection_run_details, merge_projection_run_details,
  RowRange,
}
use cued.Daemon.Queues.{Queues, wake_projection}

-- The part of a `ProjectionBacklog` that is read here.
pub record Backlog : Type 0 where
  pub projection_watermark : ℕ
  pub max_raw_event_rowid : ℕ

unfoldable pub is_queued_projection : SyncRun → Bool
is_queued_projection r = r.status == queued && r.run_type == project

-- `ORDER BY queued_at ASC`
unfoldable pub queued_before : SyncRun → SyncRun → Bool
queued_before r s = ltb r.queued_at s.queued_at

unfoldable pub get_queued_projection_run : RunTables → Option SyncRun
unfolding is_queued_projection queued_before
get_queued_projection_run db = first_by queued_before (filter_by is_queued_projection db.sync_runs)

-- The rows that are asked for: by default all that are not yet projected.
unfoldable pub asked_details : String → Option RowRange → Backlog → ProjectionRunDetails
asked_details trigger range backlog = record {
  trigger = trigger;
  start_row_id = elim range [ none ↦ backlog.projection_watermark + 1 | some r ↦ r.start_row_id ];
  end_row_id = elim range [ none ↦ backlog.max_raw_event_rowid | some r ↦ r.end_row_id ];
  projection_watermark = none;
  max_raw_event_rowid = none;
}

abbrev pub merge :
    Backlog → Option ProjectionRunDetails → ProjectionRunDetails → Option ProjectionRunDetails
merge backlog existing incoming =
    merge_projection_run_details existing incoming backlog.projection_watermark
      backlog.max_raw_event_rowid

unfoldable pub incoming_details : String → Option RowRange → Backlog → Option ProjectionRunDetails
unfolding asked_details
incoming_details trigger range backlog = merge backlog none (asked_details trigger range backlog)

unfoldable pub merged_details :
    Backlog
    → Option ProjectionRunDetails
    → Option ProjectionRunDetails
    → Option ProjectionRunDetails
merged_details backlog none none = none
merged_details backlog (some existing) none = merge backlog none existing
merged_details backlog existing (some incoming) = merge backlog existing incoming

module _ (stringify : ProjectionRunDetails → Option String)
    (parse_json : Option String → Option ParsedDetails) where
  -- The details that a run's column holds.
  abbrev pub details_of : SyncRun → Option ProjectionRunDetails
  details_of r = parse_projection_run_details (parse_json r.details_json)

  unfoldable pub write_details : String → Option ProjectionRunDetails → RunTables → RunTables
  write_details run_id none db = db
  write_details run_id (some details) db = update_run_details run_id (stringify details) db

  abbrev pub move_up : ℕ → SyncRun → RunTables → RunTables
  move_up at r db = if ltb at r.scheduled_at then reschedule_run r.id (pos at) db else db

  -- The rows are put into the run that waits, which is moved up if it is to run sooner.
  unfoldable pub widen_queued :
      Backlog → ℕ → ℤ → SyncRun → Option ProjectionRunDetails → RunTables → RunTables
  unfolding merged_details write_details
  widen_queued backlog now delay_ms r incoming db =
      move_up (now + pos_part delay_ms) r
        (write_details r.id (merged_details backlog (details_of r) incoming) db)

  unfoldable pub project_input : String → ℤ → ProjectionRunDetails → QueueInput
  project_input trigger delay_ms incoming = record {
    platform = none;
    account_key = none;
    run_type = project;
    trigger = trigger;
    details_json = stringify incoming;
    scheduled_at = none;
    delay_ms = some (finite delay_ms);
  }

  unfoldable pub queue_rows :
      Backlog
      → ℕ
      → String
      → String
      → ℤ
      → Option SyncRun
      → Option ProjectionRunDetails
      → Queues
      → Queues × Option String
  unfolding widen_queued project_input
  queue_rows backlog now id trigger delay_ms (some r) incoming q = (
    wake_projection now delay_ms
        (record q { runs = widen_queued backlog now delay_ms r incoming q.runs }),
    some r.id,
  )
  queue_rows backlog now id trigger delay_ms none none q = (q, none)
  queue_rows backlog now id trigger delay_ms none (some incoming) q = (
    wake_projection now delay_ms (record q {
      runs = queue_sync_run now id (project_input trigger delay_ms incoming) q.runs;
    }),
    some id,
  )

  -- `id` is the identifier drawn for a new run, and `delay_ms` the delay asked for or the default
  -- one. `is_busy`: SQLite answers to the first query that it is busy.
  unfoldable pub queue_projection_run :
      Bool → Backlog → ℕ → String → String → Option RowRange → ℤ → Queues → Queues × Option String
  unfolding get_queued_projection_run incoming_details queue_rows
  queue_projection_run is_busy backlog now id trigger range delay_ms q =
      if q.is_update_shutdown_requested || is_busy
      then (q, none)
      else queue_rows backlog now id trigger delay_ms (get_queued_projection_run q.runs)
          (incoming_details trigger range backlog) q
