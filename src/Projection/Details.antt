-- ===== src/Projection/Details.antt =====
-- src/runtime/projection/service.ts: the range of raw events that a projection run covers. Row
-- identifiers are SQLite's, which start at 1.
use cued.Base.{ℕ, ◌+◌, max, min, ltb, String, Option, none, some, or_else, if◌then◌else◌}

pub record ProjectionRunDetails : Type 0 where
  pub trigger : String
  pub start_row_id : ℕ
  pub end_row_id : ℕ
  pub projection_watermark : Option ℕ
  pub max_raw_event_rowid : Option ℕ

-- What `safeParseJson` may find in a field: a number, a text, or anything else.
pub data JsonField : Type 0 where
  number_field : ℕ → JsonField
  string_field : String → JsonField
  other_field : JsonField

pub record ParsedDetails : Type 0 where
  pub trigger : JsonField
  pub start_row_id : JsonField
  pub end_row_id : JsonField
  pub projection_watermark : JsonField
  pub max_raw_event_rowid : JsonField

abbrev pub as_number : JsonField → Option ℕ
as_number (number_field n) = some n
as_number (string_field s) = none
as_number other_field = none

abbrev pub as_string : JsonField → Option String
as_string (number_field n) = none
as_string (string_field s) = some s
as_string other_field = none

parsed_details : ParsedDetails → Option ℕ → Option ℕ → Option ProjectionRunDetails
parsed_details parsed (some start_row_id) (some end_row_id) = some (record {
  trigger = or_else (as_string parsed.trigger) "unknown";
  start_row_id = start_row_id;
  end_row_id = end_row_id;
  projection_watermark = as_number parsed.projection_watermark;
  max_raw_event_rowid = as_number parsed.max_raw_event_rowid;
})
parsed_details parsed _ _ = none

-- The argument is what `safeParseJson` reads of the column.
unfoldable pub parse_projection_run_details : Option ParsedDetails → Option ProjectionRunDetails
unfolding parsed_details
parse_projection_run_details none = none
parse_projection_run_details (some parsed) =
    parsed_details parsed (as_number parsed.start_row_id) (as_number parsed.end_row_id)

unfoldable pub clamp_projection_run_details : ProjectionRunDetails → ℕ → Option ProjectionRunDetails
clamp_projection_run_details details watermark =
    let start_row_id = max details.start_row_id (watermark + 1) in
    if ltb details.end_row_id start_row_id
    then none
    else some
        (record details { start_row_id = start_row_id; projection_watermark = some watermark })

abbrev pub clamp_existing : Option ProjectionRunDetails → ℕ → Option ProjectionRunDetails
clamp_existing none watermark = none
clamp_existing (some details) watermark = clamp_projection_run_details details watermark

abbrev known_max : ProjectionRunDetails → ℕ
known_max details = or_else details.max_raw_event_rowid details.end_row_id

unfoldable pub merge_normalized :
    ℕ → ℕ → Option ProjectionRunDetails → Option ProjectionRunDetails → Option ProjectionRunDetails
merge_normalized watermark max_rowid existing none = existing
merge_normalized watermark max_rowid none (some incoming) =
    some (record incoming { max_raw_event_rowid = some (max (known_max incoming) max_rowid) })
merge_normalized watermark max_rowid (some existing) (some incoming) = some (record existing {
  trigger = incoming.trigger;
  start_row_id = min existing.start_row_id incoming.start_row_id;
  end_row_id = max existing.end_row_id incoming.end_row_id;
  projection_watermark = some watermark;
  max_raw_event_rowid = some (max (known_max existing) (max (known_max incoming) max_rowid));
})

-- `mergeProjectionRunDetails`
unfoldable pub merge_projection_run_details :
    Option ProjectionRunDetails → ProjectionRunDetails → ℕ → ℕ → Option ProjectionRunDetails
unfolding clamp_projection_run_details merge_normalized
merge_projection_run_details existing incoming watermark max_rowid =
    merge_normalized watermark max_rowid (clamp_existing existing watermark)
      (clamp_projection_run_details incoming watermark)
