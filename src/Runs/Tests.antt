-- ===== src/Runs/Tests.antt =====
-- src/db/database.ts, table `sync_runs`, at concrete inputs: a run that a crashed worker left
-- active and a run that waits.
use text.Mathlib.TextEquality.{eq_iff}
use cued.Base.{
  ℕ, ◌+◌, length, ◌<◌, true, false, String, List, [], ◌∷◌, Option, none, some, ◌≡◌, ◌≢◌, refl,
  arith, inl, inr, pos, String-discrete, ℕ_discrete, is_some, ◌⊎◌,
}
use cued.Platform.{slack, gmail, sync, queued, ingesting, SyncRunStatus-discrete}
use cued.Runs.Types.{SyncRun, RunTables, QueueInput}
use cued.Runs.Queue.{queue_sync_runs}
use cued.Runs.Claim.{
  is_claimable, claimed, claim_next_queued_run, get_next_claimable_run_at, is_reached,
}
use cued.Runs.Finish.{finish_run, is_in_progress, recover_in_progress_runs}
use cued.Runs.Rows.{All, IsFirst}
use cued.Runs.Schedule.{claim_when_reached, claim_cases, after_claim, claim}
use cued.Runs.Exclusive.{claim_is_exclusive}
use cued.Runs.Writes.{progresses, recovers, claims, writes, IsRejected}
use cued.Runs.Fencing.{UniqueIds, lost_claim-IsRejected, claim_holder_finishes, held_claim}
use cued.Runs.Recovery.{recovery_requeues, recovery_cuts_owner_off}
use cued.Runs.Abandon.{fail_in_progress_runs, fail_in_progress_runs-none_left}
use cued.Runs.Batch.{queue_each, queue_sync_runs-queue_each}

abbrev slack_input : QueueInput
slack_input = record {
  platform = some slack;
  account_key = some "T1";
  run_type = sync;
  trigger = "cli";
  details_json = none;
  scheduled_at = none;
  delay_ms = none;
}

-- Claimed at 100 by worker `w1` until 160.
abbrev active_run : SyncRun
active_run = record {
  id = "r1";
  platform = some slack;
  account_key = some "T1";
  run_type = sync;
  status = ingesting;
  trigger = "cli";
  queued_at = 90;
  scheduled_at = 90;
  started_at = some 100;
  finished_at = none;
  attempt = 1;
  owner_id = some "w1";
  lease_expires_at = some 160;
  last_progress_at = some 100;
  error_code = none;
  details_json = none;
}

abbrev waiting_run : SyncRun
waiting_run = record active_run {
  id = "r2";
  platform = some gmail;
  status = queued;
  scheduled_at = 300;
  started_at = none;
  attempt = 0;
  owner_id = none;
  lease_expires_at = none;
}

abbrev tables : RunTables
tables = record { sync_runs = active_run ∷ waiting_run ∷ []; sync_run_errors = [] }

abbrev w2 : Option String
w2 = some "w2"

tables-UniqueIds : UniqueIds tables.sync_runs
tables-UniqueIds = ((ground (arith, eq_iff "r2" "r1"), tt), (tt, tt))

-- At 200 the lease has run out, so worker `w2` gets the run of `w1`.
reclaim :
    (claim_next_queued_run [] ingesting w2 (some (pos 60)) 200 tables).1
    ≡ some (record active_run {
      attempt = 2;
      owner_id = w2;
      lease_expires_at = some 260;
      last_progress_at = some 200;
    })
unfolding claim_next_queued_run SyncRunStatus-discrete String-discrete ℕ_discrete
reclaim = refl

next_at : get_next_claimable_run_at [] ingesting tables ≡ some 160
unfolding get_next_claimable_run_at SyncRunStatus-discrete
next_at = refl

claim_when_reached_example :
    is_some (claim_next_queued_run [] ingesting w2 none 159 tables).1
    ≡ is_reached (get_next_claimable_run_at [] ingesting tables) 159
claim_when_reached_example = claim_when_reached [] ingesting w2 none 159 tables (inl refl)

claim_is_exclusive_example : waiting_run.id ≢ active_run.id
unfolding writes claim_next_queued_run SyncRunStatus-discrete String-discrete ℕ_discrete
claim_is_exclusive_example =
    claim_is_exclusive [] [] ingesting ingesting w2 w2 (pos 200) none 200 320 tables
      (progresses 250 "r1" none (some (pos 200)) none ∷ claims [] ingesting w2 none 260 ∷ [])
      {r = record active_run {
        attempt = 2;
        owner_id = w2;
        lease_expires_at = some 400;
        last_progress_at = some 200;
      }}
      {r' = claimed ingesting 320 w2 none waiting_run} (inl refl) (omega arith) refl
      (inr (omega arith), (omega arith, tt)) refl

lost_claim-IsRejected_example :
    IsRejected "r1"
      (record { attempt = 1; owner_id = some "w1" })
      (writes
        (recovers 210 "daemon_recovered" ∷ claims [] ingesting w2 none 220 ∷ [])
        (claim_next_queued_run [] ingesting w2 (some (pos 60)) 200 tables).0)
lost_claim-IsRejected_example =
    lost_claim-IsRejected [] ingesting w2 (some (pos 60)) 200 tables
      (record { attempt = 1; owner_id = some "w1" })
      (recovers 210 "daemon_recovered" ∷ claims [] ingesting w2 none 220 ∷ []) tables-UniqueIds
      reclaim (omega arith) tt

abbrev w2_run : SyncRun
w2_run = record active_run {
  attempt = 2;
  owner_id = w2;
  lease_expires_at = some 260;
  last_progress_at = some 200;
}

claim_holder_finishes_example :
    (finish_run 230 "r1" none
      (some (held_claim w2_run))
      (claim_next_queued_run [] ingesting w2 (some (pos 60)) 200 tables).0).1
    ≡ true
claim_holder_finishes_example =
    (claim_holder_finishes [] ingesting w2 (some (pos 60)) 200 tables 230 none tables-UniqueIds
      reclaim).0

claim_cases_example :
    ((claim [] ingesting w2 none 159 tables ≡ (tables, none))
      × All (λ r. is_claimable [] ingesting 159 r ≡ false) tables.sync_runs)
    ⊎ ((r : SyncRun) × (claim [] ingesting w2 none 159 tables
          ≡ (after_claim [] ingesting w2 none 159 tables r, some (claimed ingesting 159 w2 none r)))
        × IsFirst (is_claimable [] ingesting 159) tables.sync_runs r)
claim_cases_example = claim_cases [] ingesting w2 none 159 tables

recovery_requeues_example :
    All (λ r. is_in_progress r ≡ false) (recover_in_progress_runs 210 "crash" tables).0.sync_runs
    × (0 < (recover_in_progress_runs 210 "crash" tables).1
        → is_some
            (claim_next_queued_run [] ingesting w2 none 210
              (recover_in_progress_runs 210 "crash" tables).0).1
          ≡ true)
recovery_requeues_example = recovery_requeues 210 210 "crash" ingesting w2 none tables (omega arith)

recovery_cuts_owner_off_example :
    IsRejected "r1"
      (record { attempt = 1; owner_id = some "w1" })
      (recover_in_progress_runs 210 "crash" tables).0
unfolding is_in_progress SyncRunStatus-discrete
recovery_cuts_owner_off_example =
    recovery_cuts_owner_off 210 "crash" "r1" "w1" 1 tables
      (inr refl, (inl (ground (arith, eq_iff "r2" "r1")), tt))

abbrev two_inputs : List (String × QueueInput)
two_inputs = ("r3", slack_input) ∷ ("r4", slack_input) ∷ []

queue_sync_runs-queue_each_example :
    queue_sync_runs 400 two_inputs tables ≡ (queue_each 400 two_inputs tables, "r3" ∷ "r4" ∷ [])
queue_sync_runs-queue_each_example = queue_sync_runs-queue_each 400 two_inputs tables

abbrev draw_error : ℕ → String
draw_error n = "e"

fail_in_progress_runs-none_left_example :
    let (after, count) = fail_in_progress_runs draw_error 200 "stopped" tables in
    All (λ r. is_in_progress r ≡ false) after.sync_runs
    × (length after.sync_run_errors ≡ length tables.sync_run_errors + count)
fail_in_progress_runs-none_left_example =
    fail_in_progress_runs-none_left draw_error 200 "stopped" tables
