-- ===== src/Daemon/Waiting.antt =====
-- src/runtime/daemon/server.ts, `queueProjectionRun`: the projection run that waits, and what
-- writing it leaves of it.
use cued.Base.{
  ℕ, ◌<◌, ltb, Bool, true, String, List, [], ◌∷◌, ◌++◌, Option, none, some, pos, filter_by, ◌≡◌,
  ◌⊎◌, inl, inr, refl, ap, ◌∙◌, arith, Bool-cases, ◌==◌, string_eq, if◌then◌else◌,
}
use cued.Runs.{
  SyncRun, RunTables, update_where, first_by, earlier, update_run_details, reschedule_run,
}
use cued.Projection.{
  ProjectionRunDetails, CoversSome, IsWanted, merge_projection_run_details-IsWanted,
}
use cued.Daemon.ProjectionRun.{
  Backlog, merge, is_queued_projection, queued_before, get_queued_projection_run, merged_details,
}

-- A row that is written at its identifier.
abbrev written : (SyncRun → Bool) → (SyncRun → SyncRun) → SyncRun → SyncRun
written hit f r = if hit r then f r else r

abbrev option_map : (SyncRun → SyncRun) → Option SyncRun → Option SyncRun
option_map g none = none
option_map g (some r) = some (g r)

module _ (hit : SyncRun → Bool) (f : SyncRun → SyncRun)
    (kept : (r : SyncRun) → is_queued_projection (f r) ≡ is_queued_projection r)
    (ranked : (r : SyncRun) → (f r).queued_at ≡ r.queued_at) where
  written-kept : (r : SyncRun) → is_queued_projection (written hit f r) ≡ is_queued_projection r
  written-kept r = elim (Bool-cases (hit r)) [ inl e ↦ rw e (kept r) | inr e ↦ rw e refl ]

  written-ranked : (r : SyncRun) → (written hit f r).queued_at ≡ r.queued_at
  written-ranked r = elim (Bool-cases (hit r)) [ inl e ↦ rw e (ranked r) | inr e ↦ rw e refl ]

  earlier-written :
      (r : SyncRun) (o : Option SyncRun)
      → earlier queued_before (written hit f r) (option_map (written hit f) o)
        ≡ written hit f (earlier queued_before r o)
  unfolding queued_before
  earlier-written r none = refl
  earlier-written r (some s) =
      rw (written-ranked r, written-ranked s)
        (elim (Bool-cases (ltb s.queued_at r.queued_at)) [ inl e ↦ rw e refl | inr e ↦ rw e refl ])

  first_by-written :
      (rows : List SyncRun)
      → first_by queued_before (filter_by is_queued_projection (update_where hit f rows))
        ≡ option_map (written hit f) (first_by queued_before (filter_by is_queued_projection rows))
  first_by-written [] = refl
  first_by-written (r ∷ rs) = elim (Bool-cases (is_queued_projection r)) [
    | inl e ↦
        rw (written-kept r, e)
          (ap some (
            ap (earlier queued_before (written hit f r)) (first_by-written rs)
            ∙ earlier-written r _))
    | inr e ↦ rw (written-kept r, e) (first_by-written rs)
  ]

  -- The projection run that waits is still the one that waits once it is written.
  get_queued-written :
      (rows : List SyncRun) {r : SyncRun}
      → first_by queued_before (filter_by is_queued_projection rows) ≡ some r
      → hit r ≡ true
      → first_by queued_before (filter_by is_queued_projection (update_where hit f rows))
        ≡ some (f r)
  get_queued-written rows {r} e h = first_by-written rows ∙ rw (e, h) refl

pub queued_again :
    (rows : List SyncRun) (r : SyncRun)
    → first_by queued_before (filter_by is_queued_projection rows) ≡ none
    → is_queued_projection r ≡ true
    → first_by queued_before (filter_by is_queued_projection (rows ++ r ∷ [])) ≡ some r
queued_again [] r e k = rw k refl
queued_again (s ∷ ss) r e k = elim (Bool-cases (is_queued_projection s)) [
  | inl h ↦ absurd (ground (arith, e, h))
  | inr h ↦ rw h (queued_again ss r (rw h at e) k)
]

pub update_run_details-queued :
    (db : RunTables) (json : Option String) {r : SyncRun}
    → get_queued_projection_run db ≡ some r
    → get_queued_projection_run (update_run_details r.id json db)
      ≡ some (record r { details_json = json })
unfolding get_queued_projection_run update_run_details is_queued_projection
update_run_details-queued db json {r} e =
    get_queued-written (λ s. s.id == r.id) (λ s. record s { details_json = json }) (λ s. refl)
      (λ s. refl) db.sync_runs e (ground arith)

pub reschedule_run-queued :
    (db : RunTables) (at : ℕ) {r : SyncRun}
    → get_queued_projection_run db ≡ some r
    → get_queued_projection_run (reschedule_run r.id (pos at) db)
      ≡ some (record r { scheduled_at = at })
unfolding get_queued_projection_run reschedule_run is_queued_projection
reschedule_run-queued db at {r} e =
    get_queued-written (λ s. s.id == r.id) (λ s. record s { scheduled_at = at }) (λ s. refl)
      (λ s. refl) db.sync_runs e (ground arith)

pub merge_wanted :
    (backlog : Backlog) (existing : Option ProjectionRunDetails) (incoming : ProjectionRunDetails)
    (row : ℕ)
    → IsWanted existing incoming backlog.projection_watermark row
    → CoversSome (merge backlog existing incoming) row
merge_wanted backlog existing incoming row h =
    (merge_projection_run_details-IsWanted existing incoming backlog.projection_watermark
        backlog.max_raw_event_rowid).0
      row h

pub merged_details-Covers :
    (backlog : Backlog) (existing incoming : Option ProjectionRunDetails) (row : ℕ)
    → backlog.projection_watermark < row
    → CoversSome existing row ⊎ CoversSome incoming row
    → CoversSome (merged_details backlog existing incoming) row
unfolding merged_details
merged_details-Covers backlog none none row lt (inl h) = h
merged_details-Covers backlog none none row lt (inr h) = h
merged_details-Covers backlog (some d) none row lt (inl h) =
    merge_wanted backlog none d row (inr h, lt)
merged_details-Covers backlog (some d) none row lt (inr h) = absurd h
merged_details-Covers backlog none (some i) row lt (inl h) = absurd h
merged_details-Covers backlog none (some i) row lt (inr h) =
    merge_wanted backlog none i row (inr h, lt)
merged_details-Covers backlog (some d) (some i) row lt h =
    merge_wanted backlog (some d) i row (h, lt)
