-- ===== src/Runs/Fencing.antt =====
-- src/db/database.ts: what a worker whose run was claimed again, and the holder of the claim, can write
-- to it.
use mathlib.Core.List.{Memᴰ}
use cued.Base.{
  ℕ, ◌<◌, true, List, [], ◌∷◌, Option, none, some, String, ◌≡◌, ◌≢◌, refl, sym, ap, ◌∙◌, ◌⊎◌, inl,
  inr, arith, ◌==◌, nat_eq, string_eq, option_eq, ℤ,
}
use cued.Platform.{SyncRunType, SyncRunStatus, completed, run_status_eq}
use cued.Runs.Types.{SyncRun, RunTables, SyncRunClaim, update_where}
use cued.Runs.Claim.{claimed, claim_next_queued_run}
use cued.Runs.Finish.{is_claimed_by, ended, finish_run}
use cued.Runs.Rows.{
  All, All-mem, All-map, All-update_where, count_where-any, any_mem, mem-update_where,
}
use cued.Runs.Schedule.{claim_cases}
use cued.Runs.Writes.{
  Fenced, Write, writes, AvoidsId, Fenced-writes, Fenced-unclaimed, IsRejected,
  unclaimed-IsRejected,
}

-- The primary key.
abbrev pub UniqueIds : List SyncRun → Type 0
UniqueIds [] = Unit
UniqueIds (r ∷ rs) = All (λ s. s.id ≢ r.id) rs × UniqueIds rs

unique-attempt :
    (rows : List SyncRun) {r : SyncRun}
    → UniqueIds rows
    → Memᴰ r rows
    → All (λ s. (s.id ≢ r.id) ⊎ (s.attempt ≡ r.attempt)) rows
unique-attempt [] u m = elim m [ ]
unique-attempt (s ∷ rs) {r} u (Memᴰ.head e) = (
  inr (ap (λ (t : SyncRun). t.attempt) (sym e)),
  All-map rs (λ t q. inl (λ w. q (w ∙ ap (λ (t : SyncRun). t.id) e))) u.0,
)
unique-attempt (s ∷ rs) {r} u (Memᴰ.tail m) =
    (inl (λ w. All-mem _ rs u.0 m (sym w)), unique-attempt rs u.1 m)

-- What the daemon keeps of the run that a claim gave it.
abbrev pub held_claim : SyncRun → SyncRunClaim
held_claim r = record { attempt = r.attempt; owner_id = r.owner_id }

module _ (types : List SyncRunType) (next : SyncRunStatus) (owner : Option String)
    (lease : Option ℤ) (now : ℕ) (db : RunTables) where
  claim-Fenced :
      {r : SyncRun} (attempt : ℕ)
      → UniqueIds db.sync_runs
      → (claim_next_queued_run types next owner lease now db).1 ≡ some r
      → attempt < r.attempt
      → Fenced r.id attempt (claim_next_queued_run types next owner lease now db).0.sync_runs
  unfolding claimed
  claim-Fenced {r} attempt u e h = elim (claim_cases types next owner lease now db) [
    | inl (c, _) ↦ absurd (ground (arith, c))
    | inr (r0, c, f) ↦ rw c (
        All-update_where (λ s. s.id == r0.id) (claimed next now owner lease)
          {Q = λ s. (s.id ≢ r.id) ⊎ (attempt < s.attempt)} db.sync_runs
          (λ s q _. ground (arith, c, q)) (λ s q w. ground (arith, c, q, w))
          (unique-attempt db.sync_runs u f.member))
  ]

  -- A run was claimed, so every earlier attempt at it is over: whatever the methods that queue, claim,
  -- renew, finish, fail, recover, reschedule, describe, set, give up or delete runs write to the
  -- tables afterwards, as long as no new run takes its identifier, a worker that still holds an earlier
  -- attempt can neither finish the run, nor fail it, nor renew its lease. Nothing changes, and
  -- the worker is told so.
  pub lost_claim-IsRejected :
      {r : SyncRun} (stale : SyncRunClaim) (ws : List Write)
      → UniqueIds db.sync_runs
      → (claim_next_queued_run types next owner lease now db).1 ≡ some r
      → stale.attempt < r.attempt
      → AvoidsId r.id ws
      → IsRejected r.id stale (writes ws (claim_next_queued_run types next owner lease now db).0)
  lost_claim-IsRejected {r} stale ws u e h d =
      let after = writes ws (claim_next_queued_run types next owner lease now db).0 in
      unclaimed-IsRejected r.id stale after (
        Fenced-unclaimed r.id stale after.sync_runs
          (Fenced-writes r.id stale.attempt ws _ d (claim-Fenced stale.attempt u e h)))

  -- The worker that made the claim can finish the run: it is told so, and the run is then
  -- completed, with no owner and no lease.
  pub claim_holder_finishes :
      {r : SyncRun} (later : ℕ) (json : Option (Option String))
      → UniqueIds db.sync_runs
      → (claim_next_queued_run types next owner lease now db).1 ≡ some r
      → let (after, done) =
          finish_run later r.id json
            (some (held_claim r))
            (claim_next_queued_run types next owner lease now db).0 in
        (done ≡ true)
        × All
            (λ s.
              (s.id ≢ r.id)
              ⊎ ((s.status ≡ completed)
                  × (s.finished_at ≡ some later)
                  × (s.owner_id ≡ none)
                  × (s.lease_expires_at ≡ none)))
            after.sync_runs
  unfolding finish_run claimed ended is_claimed_by
  claim_holder_finishes {r} later json u e = elim (claim_cases types next owner lease now db) [
    | inl (c, _) ↦ absurd (ground (arith, c))
    | inr (r0, c, f) ↦
        let mine = λ (s : SyncRun). s.id == r0.id in
        let rows = update_where mine (claimed next now owner lease) db.sync_runs in
        let fits = is_claimed_by r.id (some (held_claim r)) in
        let held : All (λ s. (s.id ≢ r.id) ⊎ ((s.attempt ≡ r.attempt) × (s.owner_id ≡ r.owner_id)))
            rows =
          All-update_where mine (claimed next now owner lease)
            {Q = λ s. (s.id ≢ r.id) ⊎ ((s.attempt ≡ r.attempt) × (s.owner_id ≡ r.owner_id))}
            db.sync_runs (λ s q _. ground (arith, c, q)) (λ s q w. ground (arith, c, q, w))
            (unique-attempt db.sync_runs u f.member) in
        let member =
          mem-update_where mine (claimed next now owner lease) db.sync_runs f.member
            (ground arith) in
        rw c (
          count_where-any fits rows ∙ any_mem fits rows member (ground (arith, c)),
          All-update_where fits (ended completed later json none) rows
              (λ s q _. inr (refl, refl, refl, refl)) (λ s q w. inl (ground (arith, q, w))) held,
        )
  ]
