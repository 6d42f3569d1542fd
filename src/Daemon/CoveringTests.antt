-- ===== src/Daemon/CoveringTests.antt =====
-- src/runtime/daemon/server.ts, `queueProjectionRun`, at a concrete input: rows 5 and 6 are queued
-- while a run waits that is to project rows 3 and 4. The text of a run's details is its numbers,
-- each as so many strokes, and then its trigger.
use Prim.Native.Char.{code}
use cued.Base.{
  ℕ, zero, suc, true, false, String, [], ◌∷◌, Option, none, some, pos, ◌≡◌, inl, refl, sym, ap,
  subst, arith, ◌==◌, nat_eq, if◌then◌else◌, ℕ_discrete,
}
use cued.Platform.{project, queued, SyncRunStatus-discrete, SyncRunType-discrete}
use cued.Runs.{SyncRun, is_reached}
use cued.Projection.{
  ProjectionRunDetails, ParsedDetails, number_field, string_field, other_field, JsonField,
  CoversSome, parse_projection_run_details,
}
use cued.Daemon.Queues.{Queues}
use cued.Daemon.Steps.{start_queues}
use cued.Daemon.ProjectionRun.{Backlog, queue_projection_run, get_queued_projection_run}
use cued.Daemon.Covering.{
  fields_of, optional_number, waiting_details, WaitsFor, queue_projection_run-WaitsFor,
}

abbrev strokes : ℕ → String → String
strokes zero rest = String.◌∷◌ ";" rest
strokes (suc n) rest = String.◌∷◌ "i" (strokes n rest)

abbrev read_strokes : String → ℕ × String
read_strokes String.[] = (0, String.[])
read_strokes (String.◌∷◌ c s) =
    let (n, rest) = read_strokes s in if code c == 105 then (suc n, rest) else (0, s)

read_strokes-strokes : (n : ℕ) (rest : String) → read_strokes (strokes n rest) ≡ (n, rest)
unfolding ℕ_discrete
read_strokes-strokes zero rest = refl
read_strokes-strokes (suc n) rest = ap (λ p. (suc p.0, p.1)) (read_strokes-strokes n rest)

abbrev optional : Option ℕ → ℕ
optional none = 0
optional (some n) = suc n

abbrev as_field : ℕ → JsonField
as_field zero = other_field
as_field (suc n) = number_field n

abbrev stringify : ProjectionRunDetails → Option String
stringify d = some (
    strokes d.start_row_id (
      strokes d.end_row_id (
        strokes (optional d.projection_watermark)
          (strokes (optional d.max_raw_event_rowid) d.trigger))))

abbrev parse_json : Option String → Option ParsedDetails
parse_json none = none
parse_json (some s) =
    let (start, s1) = read_strokes s in
    let (end, s2) = read_strokes s1 in
    let (watermark, s3) = read_strokes s2 in
    let (max_rowid, trigger) = read_strokes s3 in
    some (record {
      trigger = string_field trigger;
      start_row_id = number_field start;
      end_row_id = number_field end;
      projection_watermark = as_field watermark;
      max_raw_event_rowid = as_field max_rowid;
    })

as_field-optional : (n : Option ℕ) → as_field (optional n) ≡ optional_number n
as_field-optional none = refl
as_field-optional (some n) = refl

read_back : (d : ProjectionRunDetails) → parse_json (stringify d) ≡ some (fields_of d)
read_back d =
    rw
      (
        read_strokes-strokes d.start_row_id _,
        read_strokes-strokes d.end_row_id _,
        read_strokes-strokes (optional d.projection_watermark) _,
        read_strokes-strokes (optional d.max_raw_event_rowid) _,
        as_field-optional d.projection_watermark,
        as_field-optional d.max_raw_event_rowid,
      )
      refl

abbrev rows_3_to_4 : ProjectionRunDetails
rows_3_to_4 = record {
  trigger = "ingest";
  start_row_id = 3;
  end_row_id = 4;
  projection_watermark = some 2;
  max_raw_event_rowid = some 4;
}

-- It waits until 900.
abbrev waiting_projection : SyncRun
waiting_projection = record {
  id = "p1";
  platform = none;
  account_key = none;
  run_type = project;
  status = queued;
  trigger = "ingest";
  queued_at = 90;
  scheduled_at = 900;
  started_at = none;
  finished_at = none;
  attempt = 0;
  owner_id = none;
  lease_expires_at = none;
  last_progress_at = none;
  error_code = none;
  details_json = stringify rows_3_to_4;
}

abbrev queues : Queues
unfolding start_queues
queues =
    start_queues "daemon:1:5" 4
      (record { sync_runs = waiting_projection ∷ []; sync_run_errors = [] })

abbrev backlog : Backlog
backlog = record { projection_watermark = 2; max_raw_event_rowid = 6 }

waiting_rows : waiting_details stringify parse_json queues.runs ≡ some rows_3_to_4
unfolding start_queues get_queued_projection_run parse_projection_run_details SyncRunStatus-discrete
    SyncRunType-discrete ℕ_discrete
waiting_rows = refl

queue_projection_run-WaitsFor_example :
    let (e, answer) =
      queue_projection_run stringify parse_json false backlog 100 "p2" "realtime"
        (some (record { start_row_id = 5; end_row_id = 6 }))
        (pos 250)
        queues in
    WaitsFor stringify parse_json e.runs 3 350 answer
    × (is_reached e.projection_drain.due_at 350 ≡ true)
unfolding start_queues
queue_projection_run-WaitsFor_example =
    queue_projection_run-WaitsFor stringify parse_json read_back backlog 100 "p2" "realtime"
      (some (record { start_row_id = 5; end_row_id = 6 })) (pos 250) 3 queues refl
      (inl (subst (λ d. CoversSome d 3) (sym waiting_rows) (omega arith, omega arith)), omega arith)
