-- ===== src/Daemon/Covering.antt =====
-- src/runtime/daemon/server.ts, `queueProjectionRun`: the rows that the waiting run covers.
use cued.Base.{
  ℕ, ◌+◌, ◌≤◌, ◌<◌, ltb, true, false, String, Option, none, some, ℤ, pos, pos_part, ◌≡◌, ◌⊎◌, inl,
  inr, refl, sym, ap, subst, arith, Bool-cases, Option-cases, string_eq,
}
use cued.Runs.{SyncRun, RunTables, queue_sync_run, queued_row, reschedule_run, is_reached}
use cued.Platform.{SyncRunStatus-discrete, SyncRunType-discrete}
use cued.Projection.{
  ProjectionRunDetails, ParsedDetails, RowRange, Covers, CoversSome, IsWanted,
  parse_projection_run_details, JsonField, number_field, string_field, other_field,
}
use cued.Daemon.Waiting.{
  update_run_details-queued, reschedule_run-queued, queued_again, merge_wanted,
  merged_details-Covers,
}
use cued.Daemon.Ingest.{schedule_drain-is_reached}
use cued.Daemon.Queues.{Queues}
use cued.Daemon.ProjectionRun.{
  Backlog, is_queued_projection, get_queued_projection_run, asked_details, incoming_details,
  merged_details, details_of, write_details, widen_queued, project_input, queue_projection_run,
  queue_rows,
}

-- What `parse_json` is to find in the text that `stringify` writes.
abbrev pub optional_number : Option ℕ → JsonField
optional_number none = other_field
optional_number (some n) = number_field n

abbrev pub fields_of : ProjectionRunDetails → ParsedDetails
fields_of d = record {
  trigger = string_field d.trigger;
  start_row_id = number_field d.start_row_id;
  end_row_id = number_field d.end_row_id;
  projection_watermark = optional_number d.projection_watermark;
  max_raw_event_rowid = optional_number d.max_raw_event_rowid;
}

parse-fields_of :
    (d : ProjectionRunDetails) → parse_projection_run_details (some (fields_of d)) ≡ some d
unfolding parse_projection_run_details
parse-fields_of d =
    ground (arith, Option-cases d.projection_watermark, Option-cases d.max_raw_event_rowid)

module _ (stringify : ProjectionRunDetails → Option String)
    (parse_json : Option String → Option ParsedDetails) where
  abbrev details_if : Option SyncRun → Option ProjectionRunDetails
  details_if none = none
  details_if (some r) = details_of stringify parse_json r

  -- The rows that the projection run that waits is to project.
  abbrev pub waiting_details : RunTables → Option ProjectionRunDetails
  waiting_details db = details_if (get_queued_projection_run db)

  -- A projection run waits that projects the row and runs by the given time.
  abbrev pub WaitsFor : RunTables → ℕ → ℕ → Option String → Type 0
  WaitsFor db row at id =
      (r : SyncRun) × (get_queued_projection_run db ≡ some r)
      × CoversSome (details_of stringify parse_json r) row
      × r.scheduled_at ≤ at
      × (id ≡ some r.id)

  queue_projection_run-rows :
      (backlog : Backlog) (now : ℕ) (id trigger : String) (range : Option RowRange) (delay_ms : ℤ)
      (q : Queues)
      → q.is_update_shutdown_requested ≡ false
      → queue_projection_run stringify parse_json false backlog now id trigger range delay_ms q
        ≡ queue_rows stringify parse_json backlog now id trigger delay_ms
            (get_queued_projection_run q.runs)
            (incoming_details trigger range backlog)
            q
  unfolding queue_projection_run
  queue_projection_run-rows backlog now id trigger range delay_ms q s = ground (arith, s)

  module _
      (read_back : (d : ProjectionRunDetails) → parse_json (stringify d) ≡ some (fields_of d)) where
    details-written :
        (r : SyncRun) (d : ProjectionRunDetails)
        → details_of stringify parse_json (record r { details_json = stringify d }) ≡ some d
    details-written r d = rw (read_back d) (parse-fields_of d)

    write_details-WaitsFor :
        (db : RunTables) (row : ℕ) (d : Option ProjectionRunDetails) {r : SyncRun}
        → get_queued_projection_run db ≡ some r
        → CoversSome d row
        → (s : SyncRun) × (get_queued_projection_run (write_details stringify parse_json r.id d db)
            ≡ some s)
          × CoversSome (details_of stringify parse_json s) row
          × (s.id ≡ r.id)
          × (s.scheduled_at ≡ r.scheduled_at)
    unfolding write_details
    write_details-WaitsFor db row none e h = absurd h
    write_details-WaitsFor db row (some d) {r} e h = (
      record r { details_json = stringify d },
      update_run_details-queued db (stringify d) e,
      rw (details-written r d) h,
      refl,
      refl,
    )

    widen_queued-WaitsFor :
        (backlog : Backlog) (now : ℕ) (delay_ms : ℤ) (row : ℕ)
        (incoming : Option ProjectionRunDetails) (db : RunTables) {r : SyncRun}
        → get_queued_projection_run db ≡ some r
        → CoversSome (merged_details backlog (details_of stringify parse_json r) incoming) row
        → WaitsFor
            (widen_queued stringify parse_json backlog now delay_ms r incoming db)
            row
            (now + pos_part delay_ms)
            (some r.id)
    unfolding widen_queued
    widen_queued-WaitsFor backlog now delay_ms row incoming db {r} e h =
        let merged = merged_details backlog (details_of stringify parse_json r) incoming in
        let (s, found, covers, same, at) = write_details-WaitsFor db row merged e h in
        elim (Bool-cases (ltb (now + pos_part delay_ms) r.scheduled_at)) [
          | inl sooner ↦ rw sooner (
            record s { scheduled_at = now + pos_part delay_ms },
            subst
                (λ i.
                  get_queued_projection_run (
                    reschedule_run i (pos (now + pos_part delay_ms))
                      (write_details stringify parse_json r.id merged db))
                  ≡ some (record s { scheduled_at = now + pos_part delay_ms }))
                same
                (reschedule_run-queued (write_details stringify parse_json r.id merged db)
                  (now + pos_part delay_ms) found),
            covers,
            omega arith,
            ap some (sym same),
          )
          | inr later ↦ rw later (s, found, covers, ground (arith, later, at), ap some (sym same))
        ]

    queue_new-WaitsFor :
        (now : ℕ) (id trigger : String) (delay_ms : ℤ) (row : ℕ) (incoming : ProjectionRunDetails)
        (db : RunTables)
        → get_queued_projection_run db ≡ none
        → Covers incoming row
        → WaitsFor
            (queue_sync_run now id
              (project_input stringify parse_json trigger delay_ms incoming)
              db)
            row
            (now + pos_part delay_ms)
            (some id)
    unfolding get_queued_projection_run queue_sync_run queued_row is_queued_projection project_input
        SyncRunStatus-discrete SyncRunType-discrete
    queue_new-WaitsFor now id trigger delay_ms row incoming db e h =
        let input = project_input stringify parse_json trigger delay_ms incoming in
        (
          queued_row now id input,
          queued_again db.sync_runs (queued_row now id input) e refl,
          rw (read_back incoming, parse-fields_of incoming) h,
          omega arith,
          refl,
        )

    asked-Covers :
        (backlog : Backlog) (trigger : String) (range : Option RowRange) (row : ℕ)
        → backlog.projection_watermark < row
        → Covers (asked_details trigger range backlog) row
        → CoversSome (incoming_details trigger range backlog) row
    unfolding incoming_details
    asked-Covers backlog trigger range row lt h =
        merge_wanted backlog none (asked_details trigger range backlog) row (inr h, lt)

    queue_rows-WaitsFor :
        (backlog : Backlog) (now : ℕ) (id trigger : String) (delay_ms : ℤ)
        (incoming : Option ProjectionRunDetails) (row : ℕ) (q : Queues)
        → backlog.projection_watermark < row
        → (waiting : Option SyncRun) → CoversSome (details_if waiting) row ⊎ CoversSome incoming row
        → get_queued_projection_run q.runs ≡ waiting
        → let (e, answer) =
            queue_rows stringify parse_json backlog now id trigger delay_ms waiting incoming q in
          WaitsFor e.runs row (now + pos_part delay_ms) answer
          × (is_reached e.projection_drain.due_at (now + pos_part delay_ms) ≡ true)
    unfolding queue_rows
    queue_rows-WaitsFor backlog now id trigger delay_ms incoming row q lt (some r) h e = (
      widen_queued-WaitsFor backlog now delay_ms row incoming q.runs e
          (merged_details-Covers backlog (details_of stringify parse_json r) incoming row lt h),
      schedule_drain-is_reached now delay_ms q.projection_drain,
    )
    queue_rows-WaitsFor backlog now id trigger delay_ms none row q lt none h e =
        absurd (elim h [ inl a ↦ a | inr b ↦ b ])
    queue_rows-WaitsFor backlog now id trigger delay_ms (some i) row q lt none h e = (
      queue_new-WaitsFor now id trigger delay_ms row i q.runs e
          (elim h [ inl a ↦ absurd a | inr b ↦ b ]),
      schedule_drain-is_reached now delay_ms q.projection_drain,
    )

    -- Unless a shutdown was requested or SQLite is busy, when rows are queued for projection, every
    -- row past the watermark that is asked for, or that the projection run that waited was to
    -- project, is projected by the run that waits then, whose identifier is answered. That run and
    -- the drain of its queue are due no later than the delay asked for.
    pub queue_projection_run-WaitsFor :
        (backlog : Backlog) (now : ℕ) (id trigger : String) (range : Option RowRange) (delay_ms : ℤ)
        (row : ℕ) (q : Queues)
        → q.is_update_shutdown_requested ≡ false
        → IsWanted
            (waiting_details q.runs)
            (asked_details trigger range backlog)
            backlog.projection_watermark
            row
        → let (e, answer) =
            queue_projection_run stringify parse_json false backlog now id trigger range delay_ms
              q in
          WaitsFor e.runs row (now + pos_part delay_ms) answer
          × (is_reached e.projection_drain.due_at (now + pos_part delay_ms) ≡ true)
    queue_projection_run-WaitsFor backlog now id trigger range delay_ms row q s (h, lt) =
        rw (queue_projection_run-rows backlog now id trigger range delay_ms q s) (
          queue_rows-WaitsFor backlog now id trigger delay_ms
            (incoming_details trigger range backlog) row q lt (get_queued_projection_run q.runs)
            (elim h [ inl a ↦ inl a | inr b ↦ inr (asked-Covers backlog trigger range row lt b) ])
            refl)
