-- ===== src/Daemon/Alone.antt =====
-- src/runtime/daemon/server.ts, `startDaemon`: which runs stand in the map of runs that are
-- ingested, in every state that the daemon can reach.
use cued.Base.{
  ℕ, zero, suc, ◌≤◌, length, ltb, Bool, true, false, String, List, [], ◌∷◌, Option, none, some, ◌≡◌,
  inl, inr, refl, ap, arith, Bool-cases, Option-cases, string_eq, ℤ, pos,
}
use cued.Platform.{SyncRunType, SyncRunStatus, rebuild, projecting, run_type_eq}
use cued.Runs.{SyncRun, RunTables, claim_cases, after_claim, claimed, is_claimable, has_run_type}
use cued.Daemon.Timer.{begin_drain}
use cued.Daemon.Queues.{
  Queues, wake_ingest, wake_projection, set_active, delete_active, without_promise,
  effective_ingest_concurrency, ingest_ended, projection_ended, pause_projection,
  complete_bootstrap,
}
use cued.Daemon.Drains.{
  drain_ingest_queue, drain_projection_queue, fill_ingest, claim_ingest, ingest_started,
  projection_run_lease_ms, claim_projection, projection_started, projection_run_types,
  is_projection_due,
}
use cued.Daemon.Ingest.{
  drain_ingest_queue-fill, fill_ingest-full, fill_ingest-none, fill_ingest-some,
}
use cued.Daemon.Work.{
  work, IsSafe, IsSafe-same, work-shutdown, work-maybe_finish, work-request, work-auth_begun,
  work-auth_ended, work-search, work-await_ingest, work-await_projection,
}
use cued.Daemon.Steps.{start_queues, Step, Reach}

length-set_active :
    (r : SyncRun) (runs : List SyncRun) → length (set_active r runs) ≤ suc (length runs)
length-set_active r [] = omega arith
length-set_active r (s ∷ ss) = ground (arith, length-set_active r ss)

length-delete_active :
    (id : String) (runs : List SyncRun) → length (delete_active id runs) ≤ length runs
length-delete_active id [] = omega arith
length-delete_active id (s ∷ ss) = ground (arith, length-delete_active id ss)

effective-room :
    {c : ℕ} (now : ℕ) (q : Queues)
    → 1 ≤ c
    → q.ingest_concurrency ≡ c
    → effective_ingest_concurrency now q ≤ c
unfolding effective_ingest_concurrency
effective-room now q le kept = ground (arith, kept)

-- One more run is ingested while no projection is processed.
start-IsSafe :
    {c : ℕ} (now : ℕ) (error_id : String) (runs : RunTables) (r : SyncRun) (q : Queues)
    → ltb (length q.active_ingest_runs) (effective_ingest_concurrency now q) ≡ true
    → q.is_processing_projection ≡ false
    → IsSafe c (work q)
    → IsSafe c (work (ingest_started now error_id runs r q))
unfolding ingest_started
start-IsSafe now error_id runs r q room p (le, one, kept, named, alone) = (
  ground (arith, length-set_active r q.active_ingest_runs, effective-room now q one kept),
  one,
  kept,
  named,
  λ s e _. absurd (ground (arith, named, p, e)),
)

fill_ingest-IsSafe :
    {c : ℕ} (draw : ℕ → String) (now rounds : ℕ) (q : Queues)
    → q.is_processing_projection ≡ false
    → IsSafe c (work q)
    → IsSafe c (work (fill_ingest draw now rounds q))
unfolding fill_ingest ingest_started
fill_ingest-IsSafe draw now zero q p h = h
fill_ingest-IsSafe draw now (suc rounds) q p h =
    elim (Bool-cases (ltb (length q.active_ingest_runs) (effective_ingest_concurrency now q))) [
      | inr e ↦ rw (fill_ingest-full draw now rounds q e) h
      | inl e ↦ elim (Option-cases (claim_ingest now q).1) [
        | inl c ↦
            rw (fill_ingest-none draw now rounds q e c)
              (IsSafe-same _ _ (work-await_ingest now q) h)
        | inr (r, c) ↦
            rw (fill_ingest-some draw now rounds q e (ap (λ x. ((claim_ingest now q).0, x)) c)) (
              fill_ingest-IsSafe draw now rounds _ p
                (start-IsSafe now (draw rounds) (claim_ingest now q).0 r q e p h))
      ]
    ]

drain_ingest-IsSafe :
    {c : ℕ} (draw : ℕ → String) (now : ℕ) (q : Queues)
    → IsSafe c (work q)
    → IsSafe c (work (drain_ingest_queue draw now q))
unfolding drain_ingest_queue
drain_ingest-IsSafe draw now q h = elim (Bool-cases q.is_update_shutdown_requested) [
  | inl s ↦
      IsSafe-same (work q) (work (drain_ingest_queue draw now q)) (rw (s, drain_ingest_queue) refl)
        h
  | inr s ↦ elim (Bool-cases q.is_processing_projection) [
    | inl p ↦
        IsSafe-same (work q) (work (drain_ingest_queue draw now q))
          (rw (s, p, drain_ingest_queue) refl) h
    | inr p ↦ elim (Bool-cases (is_projection_due now q)) [
      | inl d ↦
          IsSafe-same (work q) (work (drain_ingest_queue draw now q))
            (rw (s, p, d, drain_ingest_queue) refl) h
      | inr d ↦ rw (drain_ingest_queue-fill draw now q s p d) (
          fill_ingest-IsSafe draw now (suc (length q.runs.sync_runs))
            (record q { ingest_drain = begin_drain q.ingest_drain }) p h)
    ]
  ]
]

rebuild_type :
    (active : List SyncRun) (r : SyncRun)
    → has_run_type (projection_run_types active) r ≡ true
    → r.run_type ≡ rebuild
    → active ≡ []
unfolding has_run_type projection_run_types
rebuild_type [] r t b = refl
rebuild_type (x ∷ xs) r t b = absurd (ground (arith, t, b))

-- A rebuild is claimed only while no run is ingested.
project-IsSafe :
    {c : ℕ} (now : ℕ) (runs : RunTables) (r : SyncRun) (q : Queues)
    → has_run_type (projection_run_types q.active_ingest_runs) r ≡ true
    → IsSafe c (work q)
    → IsSafe c (work (projection_started now runs r q))
unfolding projection_started
project-IsSafe now runs r q t (le, one, kept, named, alone) =
    (le, one, kept, refl, λ s e b. rebuild_type q.active_ingest_runs r t (ground (arith, e, b)))

claimed-has_run_type :
    (types : List SyncRunType) (next : SyncRunStatus) (owner : Option String) (lease : Option ℤ)
    (now : ℕ) (r : SyncRun)
    → is_claimable types next now r ≡ true
    → has_run_type types (claimed next now owner lease r) ≡ true
unfolding is_claimable has_run_type claimed
claimed-has_run_type [] next owner lease now r h = refl
claimed-has_run_type (t ∷ ts) next owner lease now r h = ground (arith, h)

claim_projection-IsSafe :
    {c : ℕ} (busy : Bool) (now : ℕ) (q : Queues)
    → IsSafe c (work q)
    → IsSafe c (work (claim_projection busy now q))
unfolding claim_projection
claim_projection-IsSafe busy now q h =
    let owner = some q.run_owner_id in
    let lease = some (pos projection_run_lease_ms) in
    let types = projection_run_types q.active_ingest_runs in
    elim (claim_cases types projecting owner lease now q.runs) [
      | inl (c, _) ↦ rw (c, claim_projection) (IsSafe-same _ _ (work-await_projection busy now q) h)
      | inr (r, c, f) ↦
          rw (c, claim_projection)
            (project-IsSafe now (after_claim types projecting owner lease now q.runs r)
              (claimed projecting now owner lease r) q
              (claimed-has_run_type types projecting owner lease now r f.kept) h)
    ]

drain_projection-IsSafe :
    {c : ℕ} (claim_busy next_busy : Bool) (now : ℕ) (q : Queues)
    → IsSafe c (work q)
    → IsSafe c (work (drain_projection_queue claim_busy next_busy now q))
unfolding drain_projection_queue
drain_projection-IsSafe claim_busy next_busy now q h = ground (
  arith,
  h,
  claim_projection-IsSafe next_busy now
      (record q { projection_drain = begin_drain q.projection_drain }) h,
)

ingest_ended-IsSafe :
    {c : ℕ} (now : ℕ) (r : SyncRun) (q : Queues)
    → IsSafe c (work q)
    → IsSafe c (work (ingest_ended now r q))
unfolding ingest_ended
ingest_ended-IsSafe now r q (le, one, kept, named, alone) =
    let left = record q {
      active_ingest_runs = delete_active r.id q.active_ingest_runs;
      ingest_promises = without_promise r q.ingest_promises;
    } in
    IsSafe-same
      (record (work q) {
        active = delete_active r.id q.active_ingest_runs;
        promises = without_promise r q.ingest_promises;
      })
      (work (ingest_ended now r q))
      (work-maybe_finish now (wake_projection now (pos 0) (wake_ingest now (pos 0) left)))
      (
        omega (arith, le, length-delete_active r.id q.active_ingest_runs),
        one,
        kept,
        named,
        λ s e b. ap (delete_active r.id) (alone s e b),
      )

projection_ended-IsSafe :
    {c : ℕ} (now : ℕ) (q : Queues) → IsSafe c (work q) → IsSafe c (work (projection_ended now q))
unfolding projection_ended
projection_ended-IsSafe now q (le, one, kept, named, alone) =
    IsSafe-same (record (work q) { is_projecting = false; projected = none })
      (work (projection_ended now q))
      (work-maybe_finish now (
        wake_projection now (pos 0)
          (record q { is_processing_projection = false; projection_run = none })))
      (le, one, kept, refl, λ r e b. absurd (cc e))

Step-IsSafe : {c now : ℕ} {q q' : Queues} → Step now q q' → IsSafe c (work q) → IsSafe c (work q')
unfolding pause_projection complete_bootstrap
Step-IsSafe (Step.ingest_drained draw a m) h = drain_ingest-IsSafe draw _ _ h
Step-IsSafe (Step.projection_drained c n a m) h = drain_projection-IsSafe c n _ _ h
Step-IsSafe (Step.search_index_drained p b a m) h = IsSafe-same _ _ (work-search p b _ _) h
Step-IsSafe (Step.ingest_woken d) h = h
Step-IsSafe (Step.projection_woken d) h = h
Step-IsSafe (Step.search_index_woken d) h = h
Step-IsSafe (Step.run_ingested r m) h = ingest_ended-IsSafe _ r _ h
Step-IsSafe (Step.run_projected r e) h = projection_ended-IsSafe _ _ h
Step-IsSafe (Step.runs_written runs) h = h
Step-IsSafe (Step.auth_begun d i t w) h = IsSafe-same _ _ (work-auth_begun d _ i t w _) h
Step-IsSafe (Step.auth_ended i) h = IsSafe-same _ _ (work-auth_ended _ i _) h
Step-IsSafe (Step.projection_paused) h = h
Step-IsSafe (Step.bootstrap_completed s) h = h
Step-IsSafe (Step.shutdown_requested) h = IsSafe-same _ _ (work-request _ _) h
Step-IsSafe (Step.shutdown_checked) h = IsSafe-same _ _ (work-maybe_finish _ _) h
Step-IsSafe (Step.shut_down) h = IsSafe-same _ _ (work-shutdown _) h

pub Reach-IsSafe :
    {owner : String} {c now : ℕ} {q : Queues} → 1 ≤ c → Reach owner c now q → IsSafe c (work q)
unfolding start_queues
Reach-IsSafe le (Reach.started now runs) = (omega arith, le, refl, refl, λ r e b. refl)
Reach-IsSafe le (Reach.later reach t step) = Step-IsSafe step (Reach-IsSafe le reach)
