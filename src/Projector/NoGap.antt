-- ===== src/Projector/NoGap.antt =====
-- src/runtime/projection/projector.ts: no raw event is passed over by the watermark.
use cued.Base.{
  ℕ, zero, suc, ◌+◌, ◌≤◌, ◌<◌, max, leb, ltb, Bool, true, false, ◌&&◌, List, [], ◌∷◌, Option, none,
  some, or_else, filter_by, ◌≡◌, ◌⊎◌, inl, inr, refl, arith, Bool-cases, Option-cases, ◌==◌, nat_eq,
}
use cued.Projector.Store.{
  RawEventRow, ProjectionStore, Fare, Batch, project_event_batch, limited, is_in_range,
  upsert_projection_state, list_raw_events_in_range,
}
use cued.Projector.Ranges.{
  ProjectionMode, last_rowid, committed_watermark, range_events, project_range_internal,
  RangeResult, realtime_from,
}
use cued.Projector.Handled.{
  has_row, is_handled, Ascending, Ascending-has_row, batch_handles, batch_keeps, limited_finds,
}

-- Every event up to the row has been projected, or it stands among the failures.
abbrev pub IsHandledTo : ℕ → ProjectionStore → Type 0
IsHandledTo row s = (n : ℕ) → n ≤ row → has_row n s.raw_events ≡ true → is_handled n s ≡ true

-- The rows are in order, and the watermark has passed over none.
abbrev pub HasNoGap : ProjectionStore → Type 0
HasNoGap s = Ascending 0 s.raw_events × IsHandledTo s.projection_watermark s

-- Where a range may start for its mode.
abbrev pub MayStart : ProjectionMode → ℕ → ℕ → Type 0
MayStart ProjectionMode.deferred start watermark = start ≤ watermark + 1
MayStart ProjectionMode.realtime start watermark = Unit

committed_watermark_cases :
    (mode : ProjectionMode) (start watermark applied_end : ℕ)
    → MayStart mode start watermark
    → (committed_watermark mode start watermark applied_end ≡ none)
      ⊎ (start ≤ watermark + 1
          × (committed_watermark mode start watermark applied_end
              ≡ some (max watermark applied_end)))
unfolding committed_watermark
committed_watermark_cases ProjectionMode.deferred start watermark applied_end h = inr (h, refl)
committed_watermark_cases ProjectionMode.realtime start watermark applied_end h =
    elim (Bool-cases (start == watermark + 1)) [
      | inl e ↦ inr (ground (arith, e), rw e refl)
      | inr e ↦ inl (rw e refl)
    ]

pub batch-raw_events :
    (fare : RawEventRow → Fare) (now : ℕ) (is_committed : Bool) (b : Batch) (s : ProjectionStore)
    → (project_event_batch fare now is_committed b s).0.raw_events ≡ s.raw_events
unfolding project_event_batch upsert_projection_state
batch-raw_events fare now is_committed b s =
    ground (arith, Option-cases b.projection_watermark, Bool-cases is_committed)

-- The watermark is raised to that of the batch, if that has one, and is never lowered.
batch-watermark :
    (fare : RawEventRow → Fare) (now : ℕ) (b : Batch) (s : ProjectionStore)
    → (project_event_batch fare now true b s).0.projection_watermark
      ≡ max s.projection_watermark (or_else b.projection_watermark 0)
unfolding project_event_batch upsert_projection_state
batch-watermark fare now b s = ground (arith, Option-cases b.projection_watermark)

last_rowid-limited :
    (start end : ℕ) (limit : Option ℕ) (before : ℕ) (rows : List RawEventRow)
    → before ≤ end
    → last_rowid before (limited limit (filter_by (is_in_range start end) rows)) ≤ end
last_rowid-limited start end none before [] le = le
last_rowid-limited start end (some zero) before rows le = le
last_rowid-limited start end (some (suc k)) before [] le = le
last_rowid-limited start end none before (r ∷ rs) le = elim (Bool-cases (is_in_range start end r)) [
  | inl e ↦ rw e (last_rowid-limited start end none r.rowid rs (ground (arith, e)))
  | inr e ↦ rw e (last_rowid-limited start end none before rs le)
]
last_rowid-limited start end (some (suc k)) before (r ∷ rs) le =
    elim (Bool-cases (is_in_range start end r)) [
      | inl e ↦ rw e (last_rowid-limited start end (some k) r.rowid rs (ground (arith, e)))
      | inr e ↦ rw e (last_rowid-limited start end (some (suc k)) before rs le)
    ]

-- A batch that holds every row between the watermark and its own last row leaves no gap.
batch-HasNoGap :
    (fare : RawEventRow → Fare) (now : ℕ) (is_committed : Bool) (b : Batch) (s : ProjectionStore)
    → b.clear_state ≡ false
    → ((n : ℕ)
        → s.projection_watermark < n
        → n ≤ or_else b.projection_watermark 0
        → has_row n s.raw_events ≡ true
        → has_row n b.raw_events ≡ true)
    → HasNoGap s
    → HasNoGap (project_event_batch fare now is_committed b s).0
unfolding project_event_batch
batch-HasNoGap fare now false b s keep full (asc, handled) =
    (asc, λ n le h. batch_keeps fare now b s n false keep (handled n le h))
batch-HasNoGap fare now true b s keep full (asc, handled) = (
  rw (batch-raw_events fare now true b s) asc,
  λ n le h.
      let h' = rw (batch-raw_events fare now true b s) at h in
      let le' = rw (batch-watermark fare now b s) at le in
      elim (Bool-cases (leb n s.projection_watermark)) [
        | inl old ↦ batch_keeps fare now b s n true keep (handled n (ground (arith, old)) h')
        | inr new ↦
            batch_handles fare now b s n
              (full n (ground (arith, new)) (ground (arith, new, le')) h')
      ],
)

range_events-HasNoGap :
    (fare : RawEventRow → Fare) (now : ℕ) (is_committed : Bool) (mode : ProjectionMode)
    (start end : ℕ) (events : List RawEventRow) (s : ProjectionStore)
    → MayStart mode start s.projection_watermark
    → ((n : ℕ)
        → start ≤ n
        → n ≤ last_rowid 0 events
        → has_row n s.raw_events ≡ true
        → has_row n events ≡ true)
    → HasNoGap s
    → HasNoGap (range_events fare now is_committed mode start end events s).0
unfolding range_events
range_events-HasNoGap fare now is_committed mode start end [] s may full h = h
range_events-HasNoGap fare now is_committed mode start end (r ∷ rs) s may full h =
    let applied_end = last_rowid r.rowid rs in
    batch-HasNoGap fare now is_committed
      (record {
        raw_events = r ∷ rs;
        projection_watermark = committed_watermark mode start s.projection_watermark applied_end;
        last_rebuild_at = none;
        clear_state = false;
      })
      s refl
      (λ n past le here.
        elim (committed_watermark_cases mode start s.projection_watermark applied_end may) [
          | inl e ↦ absurd (omega (arith, past, rw e at le))
          | inr (from, e) ↦
              full n (omega (arith, past, from)) (omega (arith, past, rw e at le)) here
        ])
      h

pub project_range_internal-HasNoGap :
    (fare : RawEventRow → Fare) (now : ℕ) (is_committed : Bool) (mode : ProjectionMode)
    (start end : ℕ) (limit : Option ℕ) (s : ProjectionStore)
    → MayStart mode start s.projection_watermark
    → HasNoGap s
    → HasNoGap (project_range_internal fare now is_committed mode start end limit s).0
unfolding project_range_internal list_raw_events_in_range
project_range_internal-HasNoGap fare now is_committed mode start end limit s may h =
    range_events-HasNoGap fare now is_committed mode start end
      (list_raw_events_in_range start end limit s) s may
      (elim (Bool-cases (ltb end start)) [
        | inl e ↦ λ n from to here.
            absurd (omega (arith, Ascending-has_row 0 n s.raw_events h.0 here, rw e at to))
        | inr e ↦ λ n from to here.
            let below = last_rowid-limited start end limit 0 s.raw_events (omega arith) in
            let to' = rw e at to in
            rw e (
              limited_finds (λ m. leb start m && leb m end) n (ground (arith, from, below, to'))
                limit 0 s.raw_events h.0 here to')
      ])
      h

pub realtime_from-HasNoGap :
    (fare : RawEventRow → Fare) (commits : ℕ → Bool) (now rounds end : ℕ) (size : Option ℕ)
    (start : ℕ) (last : RangeResult) (s : ProjectionStore)
    → HasNoGap s
    → HasNoGap (realtime_from fare commits now rounds end size start last s).0
unfolding realtime_from
realtime_from-HasNoGap fare commits now zero end size start last s h = h
realtime_from-HasNoGap fare commits now (suc rounds) end size start last s h =
    let step =
      project_range_internal fare now (commits start) ProjectionMode.realtime start end size s in
    let kept =
      project_range_internal-HasNoGap fare now (commits start) ProjectionMode.realtime start end
        size s tt h in
    elim (Bool-cases (ltb end start)) [
      | inl e ↦ rw (e, realtime_from) h
      | inr e ↦ elim (Option-cases step.1) [
        | inl c ↦ rw (e, c, realtime_from) kept
        | inr (r, c) ↦ elim (Option-cases r.next_start_row_id) [
          | inl d ↦ rw (e, c, d, realtime_from) kept
          | inr (next, d) ↦
              rw (e, c, d, realtime_from)
                (realtime_from-HasNoGap fare commits now rounds end size next _ step.0 kept)
        ]
      ]
    ]
