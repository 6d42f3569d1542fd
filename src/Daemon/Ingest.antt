-- ===== src/Daemon/Ingest.antt =====
-- src/runtime/daemon/server.ts, `drainIngestQueue`: the loop claims while a run can be claimed and
-- another may be processed, and leaves the queue due in time.
use mathlib.Core.List.{Memᴰ}
use cued.Base.{
  ℕ, zero, suc, ◌≤◌, ◌<◌, ◌+◌, length, ltb, Bool, true, false, String, List, [], ◌∷◌, Option, none,
  some, ℤ, pos, pos_part, ◌≡◌, ◌⊎◌, inl, inr, refl, ap, subst, arith, Bool-cases, Option-cases,
  ◌==◌, string_eq,
}
use cued.Platform.{ingesting, failed, run_status_eq}
use cued.Runs.{
  All, SyncRun, RunTables, update_where, count_where, claimed, is_claimable,
  get_next_claimable_run_at, fail_run, sync_runs-fail_run, is_reached, IsFirst, claim_cases,
  after_claim, ended, is_claimed_by,
}
use cued.Daemon.Timer.{begin_drain, Drain, schedule_drain, arm, clear_timer}
use cued.Daemon.Queues.{Queues, effective_ingest_concurrency}
use cued.Daemon.Drains.{
  ingest_run_types, ingest_run_lease_ms, fill_ingest, await_ingest, claim_ingest, ingest_started,
  start_ingest_run, refusal, claim_of, drain_ingest_queue, retry_delay, is_projection_due,
}

-- A scheduler leaves its queue due no later than it is asked to.
pub schedule_drain-is_reached :
    (now : ℕ) (delay_ms : ℤ) (d : Drain)
    → is_reached (schedule_drain now delay_ms d).due_at (now + pos_part delay_ms) ≡ true
unfolding schedule_drain arm clear_timer
schedule_drain-is_reached now delay_ms d = ground arith

module _ (p : SyncRun → Bool) (hit : SyncRun → Bool) (f : SyncRun → SyncRun)
    (off : (r : SyncRun) → p (f r) ≡ false) where
  count_where-update :
      (rows : List SyncRun) → count_where p (update_where hit f rows) ≤ count_where p rows
  count_where-update [] = omega arith
  count_where-update (r ∷ rs) = ground (arith, off r, count_where-update rs)

  -- Writing a row that counts takes it out of the count.
  count_where-update_hit :
      (rows : List SyncRun) {r : SyncRun}
      → Memᴰ r rows
      → p r ≡ true
      → hit r ≡ true
      → count_where p (update_where hit f rows) < count_where p rows
  count_where-update_hit [] m e h = elim m [ ]
  count_where-update_hit (s ∷ rs) (Memᴰ.head q) e h =
      ground (arith, off s, count_where-update rs, ap p q, ap hit q)
  count_where-update_hit (s ∷ rs) (Memᴰ.tail m) e h =
      ground (arith, off s, count_where-update_hit rs m e h)

-- What a claim of the drain looks for.
abbrev is_open : ℕ → SyncRun → Bool
is_open now = is_claimable ingest_run_types ingesting now

-- There is no room for another run, or no run can be claimed and the queue is due when one can be.
abbrev pub IsDue : ℕ → Queues → Type 0
IsDue now q =
    (ltb (length q.active_ingest_runs) (effective_ingest_concurrency now q) ≡ false)
    ⊎ (All (λ r. is_claimable ingest_run_types ingesting now r ≡ false) q.runs.sync_runs
        × ((next : ℕ)
            → get_next_claimable_run_at ingest_run_types ingesting q.runs ≡ some next
            → is_reached q.ingest_drain.due_at (now + retry_delay now next) ≡ true))

claimed-not_open :
    (now : ℕ) (owner : Option String) (r : SyncRun)
    → is_open now (claimed ingesting now owner (some (pos ingest_run_lease_ms)) r) ≡ false
unfolding is_claimable claimed
claimed-not_open now owner r = ground arith

start_ingest_run-count :
    (now : ℕ) (error_id : String) (r : SyncRun) (runs : RunTables)
    → count_where (is_open now) (start_ingest_run now error_id r runs).sync_runs
      ≤ count_where (is_open now) runs.sync_runs
unfolding start_ingest_run fail_run is_claimable ended
start_ingest_run-count now error_id r runs = elim (Option-cases (refusal r)) [
  | inl e ↦ rw (e, start_ingest_run) (omega arith)
  | inr (message, e) ↦
      rw (e, start_ingest_run)
        (rw (sync_runs-fail_run now error_id r.id message none none (some (claim_of r)) runs) (
          count_where-update (is_open now) (is_claimed_by r.id (some (claim_of r)))
            (ended failed now none none) (λ s. ground arith) runs.sync_runs))
]

module _ (draw : ℕ → String) (now rounds : ℕ) (q : Queues) where
  pub fill_ingest-full :
      ltb (length q.active_ingest_runs) (effective_ingest_concurrency now q) ≡ false
      → fill_ingest draw now (suc rounds) q ≡ q
  unfolding fill_ingest
  fill_ingest-full e = rw (e, fill_ingest) refl

  pub fill_ingest-none :
      ltb (length q.active_ingest_runs) (effective_ingest_concurrency now q) ≡ true
      → (claim_ingest now q).1 ≡ none
      → fill_ingest draw now (suc rounds) q ≡ await_ingest now q
  unfolding fill_ingest
  fill_ingest-none e c = rw (e, c, fill_ingest) refl

  pub fill_ingest-some :
      {runs : RunTables} {r : SyncRun}
      → ltb (length q.active_ingest_runs) (effective_ingest_concurrency now q) ≡ true
      → claim_ingest now q ≡ (runs, some r)
      → fill_ingest draw now (suc rounds) q
        ≡ fill_ingest draw now rounds (ingest_started now (draw rounds) runs r q)
  unfolding fill_ingest
  fill_ingest-some e c = rw (e, c, fill_ingest) (rw c refl)

await_ingest-runs : (now : ℕ) (q : Queues) → (await_ingest now q).runs ≡ q.runs
unfolding await_ingest
await_ingest-runs now q =
    elim (Option-cases (get_next_claimable_run_at ingest_run_types ingesting q.runs)) [
      | inl c ↦ rw (c, await_ingest) refl
      | inr (at, c) ↦ rw (c, await_ingest) refl
    ]

await_ingest-due :
    (now : ℕ) (q : Queues) (next : ℕ)
    → get_next_claimable_run_at ingest_run_types ingesting q.runs ≡ some next
    → is_reached (await_ingest now q).ingest_drain.due_at (now + retry_delay now next) ≡ true
unfolding await_ingest
await_ingest-due now q next e =
    rw (e, await_ingest) (schedule_drain-is_reached now (pos (retry_delay now next)) q.ingest_drain)

await_ingest-IsDue :
    (now : ℕ) (q : Queues)
    → All (λ r. is_claimable ingest_run_types ingesting now r ≡ false) q.runs.sync_runs
    → IsDue now (await_ingest now q)
await_ingest-IsDue now q shut = inr (
  rw (await_ingest-runs now q) shut,
  λ next e. await_ingest-due now q next (
      subst (λ db. get_next_claimable_run_at ingest_run_types ingesting db ≡ some next)
        (await_ingest-runs now q) e),
)

-- A started run is out of the count.
ingest_started-count :
    (now : ℕ) (error_id : String) (q : Queues) {r : SyncRun}
    → IsFirst (is_open now) q.runs.sync_runs r
    → let owner = some q.run_owner_id in
      let lease = some (pos ingest_run_lease_ms) in
      let db = after_claim ingest_run_types ingesting owner lease now q.runs r in
      count_where
        (is_open now)
        (ingest_started now error_id db (claimed ingesting now owner lease r) q).runs.sync_runs
      < count_where (is_open now) q.runs.sync_runs
unfolding ingest_started
ingest_started-count now error_id q {r} f =
    let owner = some q.run_owner_id in
    let lease = some (pos ingest_run_lease_ms) in
    let db = after_claim ingest_run_types ingesting owner lease now q.runs r in
    let started = start_ingest_run-count now error_id (claimed ingesting now owner lease r) db in
    let taken =
      count_where-update_hit (is_open now) (λ s. s.id == r.id) (claimed ingesting now owner lease)
        (claimed-not_open now owner) q.runs.sync_runs f.member f.kept (ground arith) in
    omega (arith, started, taken)

fill_ingest-IsDue :
    (draw : ℕ → String) (now rounds : ℕ) (q : Queues)
    → count_where (is_open now) q.runs.sync_runs < rounds
    → IsDue now (fill_ingest draw now rounds q)
unfolding claim_ingest
fill_ingest-IsDue draw now zero q lt = absurd (omega (arith, lt))
fill_ingest-IsDue draw now (suc rounds) q lt =
    elim (Bool-cases (ltb (length q.active_ingest_runs) (effective_ingest_concurrency now q))) [
      | inr e ↦ rw (fill_ingest-full draw now rounds q e) (inl e)
      | inl e ↦
          elim (claim_cases ingest_run_types ingesting (some q.run_owner_id)
            (some (pos ingest_run_lease_ms)) now q.runs) [
              | inl (c, shut) ↦
                  rw (fill_ingest-none draw now rounds q e (ap (λ x. x.1) c))
                    (await_ingest-IsDue now q shut)
              | inr (r, c, f) ↦ rw (fill_ingest-some draw now rounds q e c) (
                  fill_ingest-IsDue draw now rounds _
                    (omega (arith, lt, ingest_started-count now (draw rounds) q f)))
            ]
    ]

count_where-length : (p : SyncRun → Bool) (rows : List SyncRun) → count_where p rows ≤ length rows
count_where-length p [] = omega arith
count_where-length p (r ∷ rs) = ground (arith, count_where-length p rs)

pub drain_ingest_queue-fill :
    (draw : ℕ → String) (now : ℕ) (q : Queues)
    → q.is_update_shutdown_requested ≡ false
    → q.is_processing_projection ≡ false
    → is_projection_due now q ≡ false
    → drain_ingest_queue draw now q
      ≡ fill_ingest draw now
          (suc (length q.runs.sync_runs))
          (record q { ingest_drain = begin_drain q.ingest_drain })
unfolding is_projection_due drain_ingest_queue
drain_ingest_queue-fill draw now q s p d = ground (arith, s, p, d)

pub drain_ingest_queue-IsDue :
    (draw : ℕ → String) (now : ℕ) (q : Queues)
    → q.is_update_shutdown_requested ≡ false
    → q.is_processing_projection ≡ false
    → is_projection_due now q ≡ false
    → IsDue now (drain_ingest_queue draw now q)
drain_ingest_queue-IsDue draw now q s p d = rw (drain_ingest_queue-fill draw now q s p d) (
    fill_ingest-IsDue draw now (suc (length q.runs.sync_runs)) _
      (omega (arith, count_where-length (is_open now) q.runs.sync_runs)))

drains_soon :
    (draw : ℕ → String) (now : ℕ) (q : Queues)
    → q.is_update_shutdown_requested ≡ false
    → (q.is_processing_projection ≡ true) ⊎ (is_projection_due now q ≡ true)
    → is_reached (drain_ingest_queue draw now q).ingest_drain.due_at (now + 1000) ≡ true
unfolding is_projection_due drain_ingest_queue
drains_soon draw now q s (inl p) =
    rw (s, p, drain_ingest_queue) (schedule_drain-is_reached now (pos 1000) _)
drains_soon draw now q s (inr d) = elim (Bool-cases q.is_processing_projection) [
  | inl p ↦ rw (s, p, drain_ingest_queue) (schedule_drain-is_reached now (pos 1000) _)
  | inr p ↦ rw (s, p, d, drain_ingest_queue) (schedule_drain-is_reached now (pos 1000) _)
]

is_reached-later :
    (at : Option ℕ) (now later : ℕ)
    → now ≤ later
    → is_reached at now ≡ true
    → is_reached at later ≡ true
is_reached-later none now later le h = h
is_reached-later (some at) now later le h = ground arith

pub drain_ingest_queue-due :
    (draw : ℕ → String) (now next : ℕ) (q : Queues)
    → q.is_update_shutdown_requested ≡ false
    → let e = drain_ingest_queue draw now q in
      ltb (length e.active_ingest_runs) (effective_ingest_concurrency now e) ≡ true
      → get_next_claimable_run_at ingest_run_types ingesting e.runs ≡ some next
      → is_reached e.ingest_drain.due_at (now + retry_delay now next) ≡ true
drain_ingest_queue-due draw now next q s room e =
    let soon = λ (h : (q.is_processing_projection ≡ true) ⊎ (is_projection_due now q ≡ true)).
      is_reached-later (drain_ingest_queue draw now q).ingest_drain.due_at (now + 1000)
        (now + retry_delay now next) (omega arith) (drains_soon draw now q s h) in
    elim (Bool-cases q.is_processing_projection) [
      | inl p ↦ soon (inl p)
      | inr p ↦ elim (Bool-cases (is_projection_due now q)) [
        | inl d ↦ soon (inr d)
        | inr d ↦ elim (drain_ingest_queue-IsDue draw now q s p d) [
          | inl full ↦ absurd (cc (room, full))
          | inr (_, due) ↦ due next e
        ]
      ]
    ]
