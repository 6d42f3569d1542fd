-- ===== src/Projector/Tests.antt =====
-- src/runtime/projection/projector.ts, at concrete inputs: four events, of which two are projected.
use cued.Base.{
  String, List, ℕ, ◌≤◌, true, false, [], ◌∷◌, none, some, is_some, pos, finite, ◌≡◌, refl, arith,
  ◌==◌, nat_eq, ℕ_discrete, String-discrete, if◌then◌else◌, ltb,
}
use cued.Platform.{slack, message, project}
use cued.Projection.{ProjectionRunDetails, merge_projection_run_details}
use cued.Projector.Cache.{CacheLookup, cache_get, cache_has, cache_set, set_all, commit, base_of}
use cued.Projector.Overlay.{overlay-refines}
use cued.Projector.Store.{
  RawEventRow, ProjectionStore, Fare, project_event_batch, list_raw_events_after,
}
use cued.Projector.Ranges.{project_realtime_range}
use cued.Projector.Rebuild.{rebuild_projected_state, run_projection_worker, rebuild_from}
use cued.Projector.Handled.{has_row, is_handled, Ascending}
use cued.Projector.NoGap.{HasNoGap}
use cued.Projector.Rebuilding.{rebuild_projected_state-handles}
use cued.Projector.Runs.{projection-HasNoGap}

abbrev event : ℕ → RawEventRow
event n = record {
  rowid = n;
  id = "e";
  platform = slack;
  account_key = "T1";
  entity_kind = message;
  event_kind = "created";
  normalized_schema = none;
  observed_at = 10;
  payload_json = "{}";
}

-- The second event cannot be projected.
abbrev fare_of : RawEventRow → Fare
fare_of r = if r.rowid == 2 then Fare.rejected else Fare.applied

abbrev half_way : ProjectionStore
half_way = record {
  raw_events = event 1 ∷ event 2 ∷ event 3 ∷ event 4 ∷ [];
  projected = event 1 ∷ [];
  quarantined = event 2 ∷ [];
  projection_watermark = 2;
  last_projected_at = some 100;
  last_rebuild_at = none;
}

half_way-Ascending : Ascending 0 half_way.raw_events
half_way-Ascending = (omega arith, (omega arith, (omega arith, (omega arith, tt))))

handled_so_far :
    (n : ℕ) → n ≤ 2 → has_row n half_way.raw_events ≡ true → is_handled n half_way ≡ true
handled_so_far n le h = ground (arith, le, h)

abbrev next_rows : ProjectionRunDetails
next_rows = record {
  trigger = "realtime";
  start_row_id = 3;
  end_row_id = 4;
  projection_watermark = none;
  max_raw_event_rowid = none;
}

projection-HasNoGap_example :
    HasNoGap (
      run_projection_worker fare_of
        (λ _. true)
        200
        25
        project
        (merge_projection_run_details none next_rows 2 4)
        half_way)
    × HasNoGap (project_realtime_range fare_of (λ _. true) 200 4 4 (some 25) half_way).0
projection-HasNoGap_example =
    projection-HasNoGap fare_of (λ _. true) 200 25 none next_rows 2 4 4 4 (some 25) half_way tt
      (omega arith) (omega arith) (half_way-Ascending, handled_so_far)

rebuild_projected_state-handles_example :
    let (rebuilt, answer) =
      rebuild_projected_state fare_of (λ _. true) 200 (some (finite (pos 2))) half_way in
    (is_some answer ≡ true)
    × (rebuilt.raw_events ≡ half_way.raw_events)
    × ((n : ℕ) → has_row n half_way.raw_events ≡ true → is_handled n rebuilt ≡ true)
rebuild_projected_state-handles_example =
    rebuild_projected_state-handles fare_of 200 (some (finite (pos 2))) half_way half_way-Ascending

abbrev caught_up : ProjectionStore
caught_up = record half_way {
  projected = event 1 ∷ event 3 ∷ event 4 ∷ [];
  projection_watermark = 4;
}

-- The first batch clears the state and projects events 1 and 2, and the transaction of the second
-- throws: the watermark stays at 4, but event 3 is projected no more.
abbrev interrupted : ProjectionStore
unfolding rebuild_projected_state
interrupted =
    (rebuild_projected_state fare_of (λ n. ltb n 3) 200 (some (finite (pos 2))) caught_up).0

interrupted_rebuild :
    (interrupted.projection_watermark ≡ 4)
    × (has_row 3 interrupted.raw_events ≡ true)
    × (is_handled 3 interrupted ≡ false)
unfolding interrupted rebuild_projected_state rebuild_from project_event_batch list_raw_events_after
    ℕ_discrete
interrupted_rebuild = (refl, refl, refl)

abbrev names : CacheLookup String
names = CacheLookup.stored (("slack:U1", "c1") ∷ [])

abbrev writes : List (String × String)
writes = ("slack:U1", "c2") ∷ ("slack:U2", "c3") ∷ ("slack:U1", "c4") ∷ []

overlay-refines_example :
    let o = set_all writes (CacheLookup.overlay names []) in
    (cache_get "slack:U1" o ≡ cache_get "slack:U1" (set_all writes names))
    × (cache_has "slack:U1" o ≡ is_some (cache_get "slack:U1" (set_all writes names)))
    × (cache_get "slack:U1" (base_of (commit o)) ≡ cache_get "slack:U1" (set_all writes names))
    × (base_of o ≡ names)
overlay-refines_example = overlay-refines names writes "slack:U1"

written_last : cache_get "slack:U1" (set_all writes names) ≡ some "c4"
unfolding set_all cache_get cache_set String-discrete
written_last = refl
