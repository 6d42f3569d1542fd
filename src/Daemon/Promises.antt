-- ===== src/Daemon/Promises.antt =====
-- src/runtime/daemon/server.ts, `startDaemon`: which runs are processed side by side, as long as no
-- run is claimed again while it is processed.
use mathlib.Core.List.{Memᴰ}
use cued.Base.{
  ℕ, ◌≤◌, length, Bool, true, false, String, [], none, some, ◌≡◌, inl, inr, refl, ◌∙◌, ap, subst,
  arith, string_eq, nat_eq, pos,
}
use cued.Platform.{rebuild, run_type_eq, projecting, run_status_eq}
use cued.Runs.{SyncRun, RunTables, claim_cases}
use cued.Daemon.Timer.{begin_drain}
use cued.Daemon.Queues.{
  Queues, delete_active, without_promise, ingest_ended, wake_ingest, wake_projection,
  projection_ended, pause_projection, complete_bootstrap,
}
use cued.Daemon.Drains.{
  drain_projection_queue, claim_projection, projection_started, projection_run_types,
  projection_run_lease_ms,
}
use cued.Daemon.Work.{
  work, work-shutdown, work-maybe_finish, work-request, work-auth_begun, work-auth_ended,
  work-search, work-await_projection,
}
use cued.Daemon.Steps.{start_queues, Step, Reach}
use cued.Daemon.Alone.{Reach-IsSafe}
use cued.Daemon.Tracking.{
  IsTracked, IsTracked-same, IsTracked-projected, LeasesKept, delete_active-without,
  UniqueIds-delete_active, drain_ingest-IsTracked,
}

ended-IsTracked :
    (now : ℕ) (q : Queues) {r : SyncRun}
    → Memᴰ r q.ingest_promises
    → IsTracked (work q)
    → IsTracked (work (ingest_ended now r q))
unfolding IsTracked ingest_ended
ended-IsTracked now q {r} m (same, unique) =
    let gone = delete_active-without q.active_ingest_runs unique (subst (λ l. Memᴰ r l) same m) in
    let left = record q {
      active_ingest_runs = delete_active r.id q.active_ingest_runs;
      ingest_promises = without_promise r q.ingest_promises;
    } in
    IsTracked-same (work left) (work (ingest_ended now r q))
      (work-maybe_finish now (wake_projection now (pos 0) (wake_ingest now (pos 0) left)))
      (ap (without_promise r) same ∙ gone, UniqueIds-delete_active r.id q.active_ingest_runs unique)

claim_projection-IsTracked :
    (busy : Bool) (now : ℕ) (q : Queues)
    → IsTracked (work q)
    → IsTracked (work (claim_projection busy now q))
unfolding claim_projection projection_started
claim_projection-IsTracked busy now q h =
    elim (claim_cases (projection_run_types q.active_ingest_runs) projecting (some q.run_owner_id)
      (some (pos projection_run_lease_ms)) now q.runs) [
        | inl (c, _) ↦
            rw (c, claim_projection) (IsTracked-same _ _ (work-await_projection busy now q) h)
        | inr (r, c, f) ↦ rw (c, claim_projection) (IsTracked-projected (work q) true _ h)
      ]

drain_projection-IsTracked :
    (claim_busy next_busy : Bool) (now : ℕ) (q : Queues)
    → IsTracked (work q)
    → IsTracked (work (drain_projection_queue claim_busy next_busy now q))
unfolding drain_projection_queue
drain_projection-IsTracked claim_busy next_busy now q h = ground (
  arith,
  h,
  claim_projection-IsTracked next_busy now
      (record q { projection_drain = begin_drain q.projection_drain }) h,
)

Step-IsTracked :
    {now : ℕ} {q q' : Queues}
    → Step now q q'
    → LeasesKept now q
    → IsTracked (work q)
    → IsTracked (work q')
unfolding pause_projection complete_bootstrap projection_ended
Step-IsTracked (Step.ingest_drained draw a m) k h = drain_ingest-IsTracked draw _ _ k h
Step-IsTracked (Step.projection_drained c n a m) k h = drain_projection-IsTracked c n _ _ h
Step-IsTracked (Step.search_index_drained p b a m) k h = IsTracked-same _ _ (work-search p b _ _) h
Step-IsTracked (Step.ingest_woken d) k h = h
Step-IsTracked (Step.projection_woken d) k h = h
Step-IsTracked (Step.search_index_woken d) k h = h
Step-IsTracked (Step.run_ingested r m) k h = ended-IsTracked _ _ m h
Step-IsTracked {now} {q} (Step.run_projected r e) k h =
    IsTracked-same (record (work q) { is_projecting = false; projected = none }) _
      (work-maybe_finish now (
        wake_projection now (pos 0)
          (record q { is_processing_projection = false; projection_run = none })))
      (IsTracked-projected (work q) false none h)
Step-IsTracked (Step.runs_written runs) k h = h
Step-IsTracked {now} {q} (Step.auth_begun d i t w) k h =
    IsTracked-same (work q) _ (work-auth_begun d now i t w q) h
Step-IsTracked {now} {q} (Step.auth_ended i) k h =
    IsTracked-same (work q) _ (work-auth_ended now i q) h
Step-IsTracked (Step.projection_paused) k h = h
Step-IsTracked (Step.bootstrap_completed s) k h = h
Step-IsTracked {now} {q} (Step.shutdown_requested) k h =
    IsTracked-same (work q) _ (work-request now q) h
Step-IsTracked {now} {q} (Step.shutdown_checked) k h =
    IsTracked-same (work q) _ (work-maybe_finish now q) h
Step-IsTracked {q = q} (Step.shut_down) k h = IsTracked-same (work q) _ (work-shutdown q) h

-- The states that the daemon can reach while no run that it ingests can be claimed again.
pub data Kept (run_owner_id : String) (ingest_concurrency : ℕ) : ℕ → Queues → Type 0 where
  started :
      (now : ℕ) (runs : RunTables)
      → Kept run_owner_id ingest_concurrency now (start_queues run_owner_id ingest_concurrency runs)
  later :
      {before now : ℕ} {q q' : Queues}
      → Kept run_owner_id ingest_concurrency before q
      → before ≤ now
      → LeasesKept now q
      → Step now q q'
      → Kept run_owner_id ingest_concurrency now q'

Kept-Reach : {owner : String} {c now : ℕ} {q : Queues} → Kept owner c now q → Reach owner c now q
Kept-Reach (Kept.started now runs) = Reach.started now runs
Kept-Reach (Kept.later k le leases step) = Reach.later (Kept-Reach k) le step

Kept-IsTracked : {owner : String} {c now : ℕ} {q : Queues} → Kept owner c now q → IsTracked (work q)
unfolding IsTracked start_queues
Kept-IsTracked (Kept.started now runs) = (refl, tt)
Kept-IsTracked (Kept.later k le leases step) = Step-IsTracked step leases (Kept-IsTracked k)

-- However the callbacks, the ends of runs, the sign-ins, the shutdowns and the writes of others
-- follow on each other, as long as none of them meets a run that is ingested and can be claimed for
-- ingestion again, the daemon never ingests more runs at a time than it is configured for, where
-- that is at least one.
pub ingest_stays_bounded :
    {owner : String} {concurrency now : ℕ} {q : Queues}
    → 1 ≤ concurrency
    → Kept owner concurrency now q
    → length q.ingest_promises ≤ concurrency
unfolding IsTracked
ingest_stays_bounded le kept = rw (Kept-IsTracked kept).0 (Reach-IsSafe le (Kept-Reach kept)).0

-- As long as no step meets a run that is ingested and can be claimed for ingestion again, in every
-- state that a daemon configured to ingest at least one run at a time can reach, no run is ingested
-- while a rebuild is processed.
pub rebuild_runs_alone :
    {owner : String} {concurrency now : ℕ} {q : Queues} {r : SyncRun}
    → 1 ≤ concurrency
    → Kept owner concurrency now q
    → q.projection_run ≡ some r
    → r.run_type ≡ rebuild
    → q.ingest_promises ≡ []
unfolding IsTracked
rebuild_runs_alone le kept e b =
    (Kept-IsTracked kept).0 ∙ (Reach-IsSafe le (Kept-Reach kept)).4 _ e b
