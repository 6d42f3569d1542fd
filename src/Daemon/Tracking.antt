-- ===== src/Daemon/Tracking.antt =====
-- src/runtime/daemon/server.ts, `startDaemon`: the map of the runs that are ingested and their
-- processings, as long as no run is claimed again while it is processed.
use mathlib.Core.List.{Memᴰ}
use cued.Base.{
  ℕ, zero, suc, length, ltb, Bool, false, String, List, [], ◌∷◌, ◌++◌, Option, none, some, ◌≡◌, ◌≢◌,
  inl, inr, refl, ◌∙◌, sym, ap, subst, arith, Bool-cases, Option-cases, ◌==◌, string_eq, nat_eq,
  pos,
}
use cued.Platform.{run_type_eq, ingesting, failed, run_status_eq}
use cued.Runs.{
  SyncRun, RunTables, All, All-map, All-mem, All-append, All-filter_by, All-update_where, UniqueIds,
  update_where, is_claimable, claimed, claim_cases, after_claim, IsFirst, sync_runs-fail_run, ended,
  is_claimed_by,
}
use cued.Daemon.Timer.{begin_drain}
use cued.Daemon.Queues.{
  effective_ingest_concurrency, Queues, set_active, delete_active, without_promise,
}
use cued.Daemon.Drains.{
  drain_ingest_queue, fill_ingest, claim_ingest, ingest_started, start_ingest_run, refusal,
  claim_of, ingest_run_types, ingest_run_lease_ms, is_projection_due,
}
use cued.Daemon.Ingest.{
  drain_ingest_queue-fill, fill_ingest-full, fill_ingest-none, fill_ingest-some,
}
use cued.Daemon.Work.{Work, work, work-await_ingest}

set_active-append :
    (r : SyncRun) (runs : List SyncRun)
    → All (λ s. s.id ≢ r.id) runs
    → set_active r runs ≡ runs ++ r ∷ []
set_active-append r [] h = refl
set_active-append r (s ∷ ss) h = ground (arith, h.0, set_active-append r ss h.1)

UniqueIds-append :
    (r : SyncRun) (runs : List SyncRun)
    → All (λ s. s.id ≢ r.id) runs
    → UniqueIds runs
    → UniqueIds (runs ++ r ∷ [])
UniqueIds-append r [] h u = (tt, tt)
UniqueIds-append r (s ∷ ss) h u = (
  All-append (λ t. t.id ≢ s.id) ss (r ∷ []) u.0 (λ e. h.0 (sym e), tt),
  UniqueIds-append r ss h.1 u.1,
)

delete_active-none :
    (id : String) (runs : List SyncRun) → All (λ s. s.id ≢ id) runs → delete_active id runs ≡ runs
delete_active-none id [] h = refl
delete_active-none id (s ∷ ss) h = ground (arith, h.0, delete_active-none id ss h.1)

-- In a map the processing that ends is the one that stands under the identifier.
pub delete_active-without :
    (runs : List SyncRun) {r : SyncRun}
    → UniqueIds runs
    → Memᴰ r runs
    → without_promise r runs ≡ delete_active r.id runs
delete_active-without [] u m = elim m [ ]
delete_active-without (s ∷ ss) {r} u (Memᴰ.head e) =
    subst (λ x. without_promise x (s ∷ ss) ≡ delete_active x.id (s ∷ ss)) (sym e)
      (ground (arith, delete_active-none s.id ss u.0))
delete_active-without (s ∷ ss) {r} u (Memᴰ.tail m) =
    let other : r.id ≢ s.id = All-mem (λ t. t.id ≢ s.id) ss u.0 m in
    ground (arith, other, delete_active-without ss u.1 m)

All-delete_active :
    (P : SyncRun → Type 0) (id : String) (runs : List SyncRun)
    → All P runs
    → All P (delete_active id runs)
All-delete_active P id runs h = All-filter_by P _ runs h

pub UniqueIds-delete_active :
    (id : String) (runs : List SyncRun) → UniqueIds runs → UniqueIds (delete_active id runs)
UniqueIds-delete_active id [] u = tt
UniqueIds-delete_active id (s ∷ ss) u = elim (Bool-cases (s.id == id)) [
  | inl e ↦ rw e (UniqueIds-delete_active id ss u.1)
  | inr e ↦ rw e (All-delete_active (λ t. t.id ≢ s.id) id ss u.0, UniqueIds-delete_active id ss u.1)
]

-- The map holds the processings that have not ended, each under its own identifier.
unfoldable pub IsTracked : Work → Type 0
IsTracked w = (w.promises ≡ w.active) × UniqueIds w.active

-- Whatever projection is processed.
pub IsTracked-projected :
    (w : Work) (b : Bool) (p : Option SyncRun)
    → IsTracked w
    → IsTracked (record w { is_projecting = b; projected = p })
unfolding IsTracked
IsTracked-projected w b p h = h

pub IsTracked-same : (w w' : Work) → w' ≡ w → IsTracked w → IsTracked w'
IsTracked-same w w' e h = subst IsTracked (sym e) h

-- No row of the identifier can be claimed for ingesting.
abbrev NotOpen : ℕ → RunTables → String → Type 0
NotOpen now db id =
    All (λ s. s.id ≡ id → is_claimable ingest_run_types ingesting now s ≡ false) db.sync_runs

-- The leases of the runs that are processed have not run out, nor were the runs queued again: none
-- of them can be claimed.
abbrev pub LeasesKept : ℕ → Queues → Type 0
LeasesKept now q =
    All
      (λ r.
        All (λ s. s.id ≡ r.id → is_claimable ingest_run_types ingesting now s ≡ false)
          q.runs.sync_runs)
      q.ingest_promises

NotOpen-update_where :
    (now : ℕ) (p : SyncRun → Bool) (f : SyncRun → SyncRun) (db : RunTables) (id : String)
    → ((s : SyncRun) → is_claimable ingest_run_types ingesting now (f s) ≡ false)
    → NotOpen now db id
    → NotOpen now (record db { sync_runs = update_where p f db.sync_runs }) id
NotOpen-update_where now p f db id shut h =
    All-update_where p f
      {Q = λ s. s.id ≡ id → is_claimable ingest_run_types ingesting now s ≡ false} db.sync_runs
      (λ s q w e. shut s) (λ s q w. q) h

NotOpen-hit :
    (now : ℕ) (f : SyncRun → SyncRun) (rows : List SyncRun) (db : RunTables) (id : String)
    → ((s : SyncRun) → is_claimable ingest_run_types ingesting now (f s) ≡ false)
    → NotOpen now (record db { sync_runs = update_where (λ s. s.id == id) f rows }) id
NotOpen-hit now f [] db id shut = tt
NotOpen-hit now f (s ∷ ss) db id shut = elim (Bool-cases (s.id == id)) [
  | inl e ↦ rw e (λ _. shut s, NotOpen-hit now f ss db id shut)
  | inr e ↦ rw e (λ same. absurd (ground (arith, e, same)), NotOpen-hit now f ss db id shut)
]

NotOpen-start :
    (now : ℕ) (error_id : String) (r : SyncRun) (db : RunTables) (id : String)
    → NotOpen now db id
    → NotOpen now (start_ingest_run now error_id r db) id
unfolding start_ingest_run is_claimable ended
NotOpen-start now error_id r db id h = elim (Option-cases (refusal r)) [
  | inl e ↦ rw (e, start_ingest_run) h
  | inr (message, e) ↦
      rw (e, start_ingest_run)
        (rw (sync_runs-fail_run now error_id r.id message none none (some (claim_of r)) db) (
          NotOpen-update_where now (is_claimed_by r.id (some (claim_of r)))
            (ended failed now none none) db id (λ s. ground arith) h))
]

-- A run that a claim gives is not processed yet.
claimed-new :
    (now : ℕ) (q : Queues) {r : SyncRun}
    → LeasesKept now q
    → IsFirst (is_claimable ingest_run_types ingesting now) q.runs.sync_runs r
    → All (λ s. s.id ≢ r.id) q.ingest_promises
claimed-new now q {r} kept f =
    All-map q.ingest_promises
      (λ s shut same.
        let closed =
          All-mem (λ t. t.id ≡ s.id → is_claimable ingest_run_types ingesting now t ≡ false)
            q.runs.sync_runs shut f.member (sym same) in
        ground (arith, closed, f.kept))
      kept

module _ (now : ℕ) (q : Queues) where
  abbrev taken : SyncRun → SyncRun
  taken = claimed ingesting now (some q.run_owner_id) (some (pos ingest_run_lease_ms))

  taken-not_open : (s : SyncRun) → is_claimable ingest_run_types ingesting now (taken s) ≡ false
  unfolding is_claimable claimed
  taken-not_open s = ground arith

  module _ (error_id : String) (r : SyncRun) where
    abbrev with_taken : Queues
    with_taken =
        ingest_started now error_id
          (after_claim ingest_run_types ingesting (some q.run_owner_id)
            (some (pos ingest_run_lease_ms)) now q.runs r)
          (taken r) q

    started-IsTracked :
        All (λ s. s.id ≢ r.id) q.ingest_promises → IsTracked (work q) → IsTracked (work with_taken)
    unfolding IsTracked ingest_started claimed
    started-IsTracked new (same, unique) =
        let fresh : All (λ s. s.id ≢ r.id) q.active_ingest_runs =
          subst (All (λ s. s.id ≢ r.id)) same new in
        let added = set_active-append (taken r) q.active_ingest_runs fresh in
        (
          ap (λ l. l ++ taken r ∷ []) same ∙ sym added,
          subst UniqueIds (sym added)
              (UniqueIds-append (taken r) q.active_ingest_runs fresh unique),
        )

    started-LeasesKept : LeasesKept now q → LeasesKept now with_taken
    unfolding ingest_started claimed
    started-LeasesKept kept =
        let db =
          after_claim ingest_run_types ingesting (some q.run_owner_id)
            (some (pos ingest_run_lease_ms)) now q.runs r in
        All-append (λ s. NotOpen now (start_ingest_run now error_id (taken r) db) s.id)
          q.ingest_promises (taken r ∷ [])
          (All-map q.ingest_promises
            (λ s shut.
              NotOpen-start now error_id (taken r) db s.id (
                NotOpen-update_where now (λ t. t.id == r.id) taken q.runs s.id taken-not_open shut))
            kept)
          (
            NotOpen-start now error_id (taken r) db r.id
                (NotOpen-hit now taken q.runs.sync_runs q.runs r.id taken-not_open),
            tt,
          )

fill_ingest-IsTracked :
    (draw : ℕ → String) (now rounds : ℕ) (q : Queues)
    → LeasesKept now q
    → IsTracked (work q)
    → IsTracked (work (fill_ingest draw now rounds q))
unfolding fill_ingest claim_ingest
fill_ingest-IsTracked draw now zero q kept h = h
fill_ingest-IsTracked draw now (suc rounds) q kept h =
    elim (Bool-cases (ltb (length q.active_ingest_runs) (effective_ingest_concurrency now q))) [
      | inr e ↦ rw (fill_ingest-full draw now rounds q e) h
      | inl e ↦
          elim (claim_cases ingest_run_types ingesting (some q.run_owner_id)
            (some (pos ingest_run_lease_ms)) now q.runs) [
              | inl (c, shut) ↦
                  rw (fill_ingest-none draw now rounds q e (ap (λ x. x.1) c))
                    (IsTracked-same _ _ (work-await_ingest now q) h)
              | inr (r, c, f) ↦ rw (fill_ingest-some draw now rounds q e c) (
                  fill_ingest-IsTracked draw now rounds _
                    (started-LeasesKept now q (draw rounds) r kept)
                    (started-IsTracked now q (draw rounds) r (claimed-new now q kept f) h))
            ]
    ]

pub drain_ingest-IsTracked :
    (draw : ℕ → String) (now : ℕ) (q : Queues)
    → LeasesKept now q
    → IsTracked (work q)
    → IsTracked (work (drain_ingest_queue draw now q))
unfolding drain_ingest_queue
drain_ingest-IsTracked draw now q kept h = elim (Bool-cases q.is_update_shutdown_requested) [
  | inl s ↦
      IsTracked-same (work q) (work (drain_ingest_queue draw now q))
        (rw (s, drain_ingest_queue) refl) h
  | inr s ↦ elim (Bool-cases q.is_processing_projection) [
    | inl p ↦
        IsTracked-same (work q) (work (drain_ingest_queue draw now q))
          (rw (s, p, drain_ingest_queue) refl) h
    | inr p ↦ elim (Bool-cases (is_projection_due now q)) [
      | inl d ↦
          IsTracked-same (work q) (work (drain_ingest_queue draw now q))
            (rw (s, p, d, drain_ingest_queue) refl) h
      | inr d ↦ rw (drain_ingest_queue-fill draw now q s p d) (
          fill_ingest-IsTracked draw now (suc (length q.runs.sync_runs))
            (record q { ingest_drain = begin_drain q.ingest_drain }) kept h)
    ]
  ]
]
