-- ===== src/Runs/Recovery.antt =====
-- src/db/database.ts, `recoverInProgressRuns`: what the daemon finds when it starts after a crash.
use cued.Base.{
  ℕ, ◌<◌, ◌≤◌, true, false, List, [], ◌∷◌, Option, some, any, String, ◌≡◌, ◌≢◌, ◌∙◌, ◌⊎◌, inl, inr,
  arith, is_some, ℤ, sym, Bool-cases, lt→ltb,
}
use cued.Platform.{SyncRunStatus, run_status_eq}
use cued.Runs.Types.{SyncRun, RunTables, update_where}
use cued.Runs.Claim.{is_claimable, has_run_type, claim_next_queued_run}
use cued.Runs.Finish.{is_claimed_by, is_in_progress, recovered, recover_in_progress_runs}
use cued.Runs.Rows.{All, All-update_where, count_where-any}
use cued.Runs.Schedule.{any_first}
use cued.Runs.Writes.{IsRejected, unclaimed-IsRejected}

recovered_rows :
    (now : ℕ) (code : String) (rows : List SyncRun)
    → All (λ r. is_in_progress r ≡ false) (update_where is_in_progress (recovered now code) rows)
unfolding is_in_progress recovered
recovered_rows now code [] = tt
recovered_rows now code (r ∷ rs) = (ground arith, recovered_rows now code rs)

recovered_claimable :
    (now later : ℕ) (code : String) (next : SyncRunStatus) (rows : List SyncRun)
    → now ≤ later
    → any is_in_progress rows ≡ true
    → any (is_claimable [] next later) (update_where is_in_progress (recovered now code) rows)
      ≡ true
unfolding is_in_progress recovered is_claimable has_run_type
recovered_claimable now later code next [] le h = cc
recovered_claimable now later code next (r ∷ rs) le h = elim (Bool-cases (is_in_progress r)) [
  | inl e ↦ ground (arith, e)
  | inr e ↦ ground (arith, e, recovered_claimable now later code next rs le (ground (arith, e)))
]

-- After the recovery no run is in progress, and if there was one, a worker that takes runs of every
-- kind gets a run from then on.
pub recovery_requeues :
    (now later : ℕ) (code : String) (next : SyncRunStatus) (owner : Option String)
    (lease : Option ℤ) (db : RunTables)
    → now ≤ later
    → let (after, recovered_count) = recover_in_progress_runs now code db in
      All (λ r. is_in_progress r ≡ false) after.sync_runs
      × (0 < recovered_count
          → is_some (claim_next_queued_run [] next owner lease later after).1 ≡ true)
unfolding recover_in_progress_runs claim_next_queued_run
recovery_requeues now later code next owner lease db le = (
  recovered_rows now code db.sync_runs,
  λ some_run.
      let after = update_where is_in_progress (recovered now code) db.sync_runs in
      let found =
        any_first (is_claimable [] next later) after
        ∙ recovered_claimable now later code next db.sync_runs le
            (sym (count_where-any is_in_progress db.sync_runs) ∙ lt→ltb 0 _ some_run) in
      ground (arith, found),
)

-- A worker that was named as the owner of a run in progress is cut off by the recovery.
pub recovery_cuts_owner_off :
    (now : ℕ) (code run_id owner : String) (attempt : ℕ) (db : RunTables)
    → All (λ r. (r.id ≢ run_id) ⊎ (is_in_progress r ≡ true)) db.sync_runs
    → IsRejected run_id
        (record { attempt = attempt; owner_id = some owner })
        (recover_in_progress_runs now code db).0
unfolding recover_in_progress_runs recovered is_claimed_by
recovery_cuts_owner_off now code run_id owner attempt db h = unclaimed-IsRejected run_id _ _ (
    All-update_where is_in_progress (recovered now code) db.sync_runs (λ r q _. ground arith)
      (λ r q e. ground (arith, q, e)) h)
