-- ===== src/Runs/Exclusive.antt =====
-- src/db/database.ts: a run that was claimed under a lease is claimed by nobody else until the lease
-- ends, whatever else is written to the tables meanwhile that does not give it back.
use cued.Base.{
  ℕ, suc, ◌<◌, ◌≤◌, ◌+◌, Bool, true, false, filter_by, List, [], ◌∷◌, Option, none, some, String,
  ◌≡◌, ◌≢◌, refl, ◌⊎◌, inl, inr, arith, Bool-cases, ◌==◌, nat_eq, string_eq, ℤ, at_least_one,
}
use cued.Platform.{
  SyncRunType, SyncRunStatus, ingesting, projecting, completed, failed, run_status_eq,
}
use cued.Runs.Types.{SyncRun, SyncRunClaim, RunTables, update_where}
use cued.Runs.Queue.{queue_sync_run}
use cued.Runs.Delete.{reset_source, clear_integration_runtime_state}
use cued.Runs.Claim.{is_claimable, claimed, claim_next_queued_run}
use cued.Runs.Finish.{
  is_in_progress, progressed, ended, update_run_progress, finish_run, recover_in_progress_runs,
  reschedule_run, update_run_details, update_run_status, is_claimed_by,
}
use cued.Runs.Abandon.{given_up, give_up_each, fail_in_progress_runs}
use cued.Runs.Rows.{All, All-mem, All-append, All-filter_by, All-update_where}
use cued.Runs.Schedule.{IsActive, claim_cases}
use cued.Runs.Writes.{
  Write, queues, claims, progresses, finishes, fails, recovers, reschedules, details, sets_status,
  gives_up, resets, clears, write, writes, sync_runs-fail_run,
}

-- Under a lease until some time, or over.
unfoldable pub IsHeld : ℕ → SyncRun → Type 0
IsHeld until s =
    (((s.status ≡ ingesting) ⊎ (s.status ≡ projecting))
      × ((end : ℕ) × (s.lease_expires_at ≡ some end) × (until ≤ end)))
    ⊎ ((s.status ≡ completed) ⊎ (s.status ≡ failed))

abbrev pub LastsUntil : ℕ → ℕ → Option ℤ → Type 0
LastsUntil until now none = Unit
LastsUntil until now (some lease_ms) = until ≤ now + at_least_one lease_ms

-- Writes that do not give the run back before `until`: claims are made before that time, a renewal
-- of the run's lease is not for a shorter time, no new run takes its identifier, its status is not
-- set, and the runs in progress are not recovered.
abbrev pub KeepsLease : String → ℕ → List Write → Type 0
KeepsLease run_id until [] = Unit
KeepsLease run_id until (queues now id input ∷ ws) = (id ≢ run_id) × KeepsLease run_id until ws
KeepsLease run_id until (claims types next owner lease now ∷ ws) =
    now < until × KeepsLease run_id until ws
KeepsLease run_id until (progresses now id json lease claim ∷ ws) =
    ((id ≢ run_id) ⊎ LastsUntil until now lease) × KeepsLease run_id until ws
KeepsLease run_id until (recovers now code ∷ ws) = ⊥
KeepsLease run_id until (sets_status id status json ∷ ws) =
    (id ≢ run_id) × KeepsLease run_id until ws
KeepsLease run_id until (_ ∷ ws) = KeepsLease run_id until ws

held-is_claimable :
    (types : List SyncRunType) (next : SyncRunStatus) (until now : ℕ) (s : SyncRun)
    → now < until
    → IsHeld until s
    → is_claimable types next now s ≡ false
unfolding IsHeld is_claimable
held-is_claimable types next until now s h (inl (inl a, (end, e, le))) = ground (arith, a, e, le)
held-is_claimable types next until now s h (inl (inr a, (end, e, le))) = ground (arith, a, e, le)
held-is_claimable types next until now s h (inr (inl a)) = ground (arith, a)
held-is_claimable types next until now s h (inr (inr a)) = ground (arith, a)

module _ (run_id : String) (until : ℕ) where
  abbrev Held : List SyncRun → Type 0
  Held = All (λ s. (s.id ≢ run_id) ⊎ IsHeld until s)

  Held-update_where :
      (p : SyncRun → Bool) (f : SyncRun → SyncRun) (rows : List SyncRun)
      → ((s : SyncRun) → (f s).id ≡ s.id)
      → ((s : SyncRun) → IsHeld until s → IsHeld until (f s))
      → Held rows
      → Held (update_where p f rows)
  Held-update_where p f rows same keeps h =
      All-update_where p f rows
        (λ s q _. elim q [
          | inl other ↦ inl (ground (arith, same s, other))
          | inr k ↦ inr (keeps s k)
        ])
        (λ s q _. q) h

  Held-claim :
      (types : List SyncRunType) (next : SyncRunStatus) (owner : Option String) (lease : Option ℤ)
      (now : ℕ) (db : RunTables)
      → now < until
      → Held db.sync_runs
      → Held (claim_next_queued_run types next owner lease now db).0.sync_runs
  unfolding claimed
  Held-claim types next owner lease now db early h =
      elim (claim_cases types next owner lease now db) [
        | inl (e, _) ↦ rw e h
        | inr (r, e, first) ↦ elim (All-mem _ db.sync_runs h first.member) [
          | inr held ↦
              absurd
                (ground (arith, first.kept, held-is_claimable types next until now r early held))
          | inl other ↦ rw e (
              All-update_where (λ s. s.id == r.id) (claimed next now owner lease)
                {Q = λ s. (s.id ≢ run_id) ⊎ IsHeld until s} db.sync_runs
                (λ s q w. inl (ground (arith, w, other))) (λ s q w. q) h)
        ]
      ]

  progressed-IsHeld :
      (now : ℕ) (json : Option (Option String)) (lease : Option ℤ) (s : SyncRun)
      → LastsUntil until now lease
      → IsHeld until s
      → IsHeld until (progressed now json lease s)
  unfolding IsHeld progressed
  progressed-IsHeld now json lease s l (inr over) = inr over
  progressed-IsHeld now json none s l (inl h) = inl h
  progressed-IsHeld now json (some ms) s l (inl (a, h)) = inl (a, (now + at_least_one ms, refl, l))

  -- A write to the rows of another identifier.
  Held-other :
      (id : String) (p : SyncRun → Bool) (f : SyncRun → SyncRun) (rows : List SyncRun)
      → id ≢ run_id
      → ((s : SyncRun) → p s ≡ true → s.id ≡ id)
      → ((s : SyncRun) → (f s).id ≡ s.id)
      → Held rows
      → Held (update_where p f rows)
  Held-other id p f rows other only same h =
      All-update_where p f rows (λ s q w. inl (ground (arith, only s w, same s, other)))
        (λ s q _. q) h

  fits_id :
      (id : String) (claim : Option SyncRunClaim) (s : SyncRun)
      → is_claimed_by id claim s ≡ true
      → s.id ≡ id
  unfolding is_claimed_by
  fits_id id none s h = ground (arith, h)
  fits_id id (some claim) s h = ground (arith, h)

  Held-give_up_each :
      (draw : ℕ → String) (now : ℕ) (message : String) (n : ℕ) (runs : List SyncRun)
      (db : RunTables)
      → Held db.sync_runs
      → Held (give_up_each draw now message n runs db).sync_runs
  unfolding give_up_each given_up IsHeld
  Held-give_up_each draw now message n [] db h = h
  Held-give_up_each draw now message n (run ∷ runs) db h =
      Held-give_up_each draw now message (suc n) runs _
        (Held-update_where _ _ db.sync_runs (λ s. refl) (λ s _. inr (inr refl)) h)

  Held-write :
      (w : Write) (db : RunTables)
      → KeepsLease run_id until (w ∷ [])
      → Held db.sync_runs
      → Held (write w db).sync_runs
  unfolding write queue_sync_run update_run_progress finish_run recover_in_progress_runs ended
      progressed reschedule_run update_run_details update_run_status fail_in_progress_runs
      reset_source clear_integration_runtime_state IsHeld
  Held-write (queues now id input) db k h = All-append _ db.sync_runs _ h (inl k.0, tt)
  Held-write (claims types next owner lease now) db k h =
      Held-claim types next owner lease now db k.0 h
  Held-write (progresses now id json lease claim) db (inl other, _) h =
      Held-other id _ _ db.sync_runs other (fits_id id claim) (λ s. refl) h
  Held-write (progresses now id json lease claim) db (inr long, _) h =
      Held-update_where _ _ db.sync_runs (λ s. refl)
        (λ s q. progressed-IsHeld now json lease s long q) h
  Held-write (finishes now id json claim) db k h =
      Held-update_where _ _ db.sync_runs (λ s. refl) (λ s _. inr (inl refl)) h
  Held-write (fails now error_id id message json code claim) db k h =
      rw (sync_runs-fail_run now error_id id message json code claim db)
        (Held-update_where _ _ db.sync_runs (λ s. refl) (λ s _. inr (inr refl)) h)
  Held-write (recovers now code) db k h = absurd k
  Held-write (reschedules id at) db k h =
      Held-update_where _ _ db.sync_runs (λ s. refl) (λ s q. q) h
  Held-write (details id json) db k h = Held-update_where _ _ db.sync_runs (λ s. refl) (λ s q. q) h
  Held-write (sets_status id status json) db k h =
      Held-other id (λ r. r.id == id) _ db.sync_runs k.0 (λ s w. ground (arith, w)) (λ s. refl) h
  Held-write (gives_up draw now message) db k h =
      Held-give_up_each draw now message 0 (filter_by is_in_progress db.sync_runs) db h
  Held-write (resets p) db k h = All-filter_by _ _ db.sync_runs h
  Held-write (clears p key) db k h = All-filter_by _ _ db.sync_runs h

  Held-writes :
      (ws : List Write) (db : RunTables)
      → KeepsLease run_id until ws
      → Held db.sync_runs
      → Held (writes ws db).sync_runs
  unfolding writes
  Held-writes [] db k h = h
  Held-writes (queues now id input ∷ ws) db k h =
      Held-writes ws _ k.1 (Held-write (queues now id input) db (k.0, tt) h)
  Held-writes (claims types next owner lease now ∷ ws) db k h =
      Held-writes ws _ k.1 (Held-write (claims types next owner lease now) db (k.0, tt) h)
  Held-writes (progresses now id json lease claim ∷ ws) db k h =
      Held-writes ws _ k.1 (Held-write (progresses now id json lease claim) db (k.0, tt) h)
  Held-writes (recovers now code ∷ ws) db k h = absurd k
  Held-writes (sets_status id status json ∷ ws) db k h =
      Held-writes ws _ k.1 (Held-write (sets_status id status json) db (k.0, tt) h)
  Held-writes (w ∷ ws) db k h = Held-writes ws _ k (Held-write w db tt h)

claim-Held :
    (types : List SyncRunType) (next : SyncRunStatus) (owner : Option String) (lease_ms : ℤ)
    (now : ℕ) (db : RunTables) {r : SyncRun}
    → IsActive next
    → (claim_next_queued_run types next owner (some lease_ms) now db).1 ≡ some r
    → Held r.id
        (now + at_least_one lease_ms)
        (claim_next_queued_run types next owner (some lease_ms) now db).0.sync_runs
unfolding claimed IsHeld
claim-Held types next owner lease_ms now db {r} a e =
    elim (claim_cases types next owner (some lease_ms) now db) [
      | inl (c, _) ↦ absurd (cc (c, e))
      | inr (r0, c, f) ↦ rw c (rows_held r0 (ground (arith, c, e)) db.sync_runs)
    ]
  where
    rows_held :
        (r0 : SyncRun)
        → r.id ≡ r0.id
        → (rows : List SyncRun)
        → Held r.id
            (now + at_least_one lease_ms)
            (update_where (λ s. s.id == r0.id) (claimed next now owner (some lease_ms)) rows)
    rows_held r0 same [] = tt
    rows_held r0 same (s ∷ rest) = elim (Bool-cases (s.id == r0.id)) [
      | inl hit ↦
          rw hit (
            inr (inl (a, (now + at_least_one lease_ms, refl, omega arith))),
            rows_held r0 same rest,
          )
      | inr miss ↦ rw miss (inl (ground (arith, miss, same)), rows_held r0 same rest)
    ]

-- Until the lease of a claim ends no claim, by any worker and for any kind of run, gets the run that
-- it got, whatever is written to the tables in between, as long as claims are made before the lease
-- ends, a renewal of the run is not for a shorter time, no new run takes its identifier, its status
-- is not set by `updateRunStatus`, and the runs in progress are not recovered.
pub claim_is_exclusive :
    (types types' : List SyncRunType) (next next' : SyncRunStatus) (owner owner' : Option String)
    (lease_ms : ℤ) (lease_ms' : Option ℤ) (now later : ℕ) (db : RunTables) (ws : List Write)
    {r r' : SyncRun}
    → IsActive next
    → later < now + at_least_one lease_ms
    → (claim_next_queued_run types next owner (some lease_ms) now db).1 ≡ some r
    → KeepsLease r.id (now + at_least_one lease_ms) ws
    → (claim_next_queued_run types' next' owner' lease_ms' later
        (writes ws (claim_next_queued_run types next owner (some lease_ms) now db).0)).1
      ≡ some r'
    → r'.id ≢ r.id
unfolding claimed
claim_is_exclusive types types' next next' owner owner' lease_ms lease_ms' now later db ws {r} a h e
      keeps e' same =
    let until = now + at_least_one lease_ms in
    let first = claim_next_queued_run types next owner (some lease_ms) now db in
    let held =
      Held-writes r.id until ws first.0 keeps (claim-Held types next owner lease_ms now db a e) in
    elim (claim_cases types' next' owner' lease_ms' later (writes ws first.0)) [
      | inl (c, _) ↦ absurd (cc (c, e'))
      | inr (r1, c, f) ↦ elim (All-mem _ (writes ws first.0).sync_runs held f.member) [
        | inl other ↦ absurd (ground (arith, c, e', same, other))
        | inr kept ↦
            absurd (ground (arith, f.kept, held-is_claimable types' next' until later r1 h kept))
      ]
    ]
