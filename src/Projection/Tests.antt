-- ===== src/Projection/Tests.antt =====
-- src/runtime/projection/service.ts at concrete inputs.
use cued.Base.{
  ℕ, ◌+◌, Bool, true, not, List, [], ◌∷◌, map, none, some, filter_by, ◌≡◌, refl, arith, ℕ_discrete,
  ◌==◌, nat_eq, if◌then◌else◌,
}
use cued.Projection.Details.{
  ProjectionRunDetails, merge_projection_run_details, clamp_projection_run_details,
  merge_normalized,
}
use cued.Projection.Ranges.{IsWanted, CoversSome, AtEnds, merge_projection_run_details-IsWanted}
use cued.Projection.Hooks.{
  RowRange, HookBatch, enqueue, HookPayload, is_within, is_in_range, release_completed_range,
  build_batches, queue_message_received_hooks,
}
use cued.Projection.Undisturbed.{nobody}
use cued.Projection.Delivery.{count_by, count_in}
use cued.Projection.Release.{release_completed_range-count_by}

abbrev run : ℕ → ℕ → ProjectionRunDetails
run first last = record {
  trigger = "ingest";
  start_row_id = first;
  end_row_id = last;
  projection_watermark = none;
  max_raw_event_rowid = none;
}

-- Rows 4 to 9 with rows 8 to 12, where rows up to 5 are projected.
abbrev six_to_twelve : ProjectionRunDetails
six_to_twelve = record {
  trigger = "ingest";
  start_row_id = 6;
  end_row_id = 12;
  projection_watermark = some 5;
  max_raw_event_rowid = some 20;
}

merged_run : merge_projection_run_details (some (run 4 9)) (run 8 12) 5 20 ≡ some six_to_twelve
unfolding merge_projection_run_details clamp_projection_run_details merge_normalized
merged_run = refl

merge_projection_run_details-IsWanted_example :
    ((row : ℕ)
      → IsWanted (some (run 4 9)) (run 8 12) 5 row
      → CoversSome (merge_projection_run_details (some (run 4 9)) (run 8 12) 5 20) row)
    × AtEnds
        (IsWanted (some (run 4 9)) (run 8 12) 5)
        (merge_projection_run_details (some (run 4 9)) (run 8 12) 5 20)
merge_projection_run_details-IsWanted_example =
    merge_projection_run_details-IsWanted (some (run 4 9)) (run 8 12) 5 20

abbrev message : ℕ → HookPayload ℕ
message n = record { row_id = n; payload = n }

abbrev messages : List (HookPayload ℕ)
messages = message 17 ∷ message 11 ∷ message 12 ∷ message 40 ∷ message 19 ∷ []

abbrev ten_to_twenty : RowRange
ten_to_twenty = record { start_row_id = 10; end_row_id = 20 }

abbrev batch : ℕ → ℕ → List ℕ → HookBatch ℕ
batch first last rows = record { start_row_id = first; end_row_id = last; payloads = rows }

abbrev waiting : List (HookBatch ℕ)
waiting = batch 1 9 (3 ∷ []) ∷ []

in_batches :
    build_batches ten_to_twenty messages 4
    ≡ batch 10 13 (11 ∷ 12 ∷ []) ∷ batch 14 17 (17 ∷ []) ∷ batch 18 20 (19 ∷ []) ∷ []
unfolding build_batches ℕ_discrete
in_batches = refl

released :
    release_completed_range ten_to_twenty
      (λ _. true)
      nobody
      4
      (queue_message_received_hooks (some ten_to_twenty) messages 4 waiting)
    ≡ some (11 ∷ 12 ∷ 17 ∷ 19 ∷ [], true, waiting)
unfolding release_completed_range queue_message_received_hooks build_batches ℕ_discrete
released = refl

-- While the first promise is awaited, another call enqueues a batch that starts before: the batch at
-- hand moves on in the live array and is emitted once more, and the new batch is lost.
abbrev enqueued_before : ℕ → List (HookBatch ℕ) → List (HookBatch ℕ)
enqueued_before n pending =
    if n == 7
    then enqueue (record { start_row_id = 5; end_row_id = 8 }) (6 ∷ []) pending
    else pending

disturbed :
    release_completed_range ten_to_twenty
      (λ _. true)
      enqueued_before
      8
      (batch 10 13 (11 ∷ 12 ∷ []) ∷ [])
    ≡ some (11 ∷ 12 ∷ 11 ∷ 12 ∷ [], true, [])
unfolding release_completed_range enqueue ℕ_discrete
disturbed = refl

abbrev any_row : ℕ → Bool
any_row n = true

release_completed_range-count_by_example :
    (rounds : ℕ) × (emitted : List ℕ) × (remaining : List (HookBatch ℕ)) × (release_completed_range
        ten_to_twenty
        (λ _. true)
        nobody
        rounds
        (queue_message_received_hooks (some ten_to_twenty) messages 4 waiting)
      ≡ some (emitted, true, remaining))
    × (count_by any_row emitted
        ≡ count_in (is_within ten_to_twenty) any_row waiting
          + count_by any_row
              (map (λ e. e.payload) (filter_by (is_in_range ten_to_twenty) messages)))
    × (count_in (λ _. true) any_row remaining
        ≡ count_in (λ b. not (is_within ten_to_twenty b)) any_row waiting)
release_completed_range-count_by_example =
    release_completed_range-count_by ten_to_twenty messages 4 waiting any_row (omega arith)
      (omega arith)
