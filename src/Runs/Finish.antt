-- ===== src/Runs/Finish.antt =====
-- src/db/database.ts: keeping a claim alive, finishing and failing a run, and what the daemon does
-- with the runs that a crash left active.
use cued.Base.{
  ℕ, ◌+◌, ltb, Bool, true, false, ◌&&◌, ◌||◌, String, List, [], ◌∷◌, ◌++◌, Option, none, some, ℤ,
  pos_part, at_least_one, find_by, or_else, ◌==◌, nat_eq, string_eq, option_eq, if◌then◌else◌,
}
use cued.Platform.{SyncRunStatus, queued, ingesting, projecting, completed, failed, run_status_eq}
use cued.Runs.Types.{SyncRun, SyncRunError, RunTables, SyncRunClaim, update_where, count_where}

-- `syncRunClaimPredicate`: without a claim every holder of the identifier may write.
unfoldable pub is_claimed_by : String → Option SyncRunClaim → SyncRun → Bool
is_claimed_by run_id none r = r.id == run_id
is_claimed_by run_id (some claim) r =
    r.id == run_id && r.attempt == claim.attempt && r.owner_id == claim.owner_id

-- A missing `details` leaves the column alone; `some` is the text that `safeStringifyJson` gives.
abbrev pub new_details : Option (Option String) → Option String → Option String
new_details none old = old
new_details (some json) old = json

-- A missing lease leaves the column alone.
abbrev pub new_lease : ℕ → Option ℤ → Option ℕ → Option ℕ
new_lease now none old = old
new_lease now (some lease_ms) old = some (now + at_least_one lease_ms)

unfoldable pub progressed : ℕ → Option (Option String) → Option ℤ → SyncRun → SyncRun
progressed now details lease_ms r = record r {
  lease_expires_at = new_lease now lease_ms r.lease_expires_at;
  last_progress_at = some now;
  details_json = new_details details r.details_json;
}

abbrev pub with_runs : RunTables → List SyncRun → RunTables
with_runs db rows = record db { sync_runs = rows }

unfoldable pub update_run_progress :
    ℕ
    → String
    → Option (Option String)
    → Option ℤ
    → Option SyncRunClaim
    → RunTables
    → RunTables × Bool
unfolding is_claimed_by progressed
update_run_progress now run_id details lease_ms claim db = (
  with_runs db
      (update_where (is_claimed_by run_id claim) (progressed now details lease_ms) db.sync_runs),
  ltb 0 (count_where (is_claimed_by run_id claim) db.sync_runs),
)

-- The columns that `finishRun` and `failRun` set.
unfoldable pub ended :
    SyncRunStatus → ℕ → Option (Option String) → Option String → SyncRun → SyncRun
ended status now details error_code r = record r {
  status = status;
  finished_at = some now;
  owner_id = none;
  lease_expires_at = none;
  last_progress_at = some now;
  error_code = error_code;
  details_json = new_details details r.details_json;
}

unfoldable pub finish_run :
    ℕ → String → Option (Option String) → Option SyncRunClaim → RunTables → RunTables × Bool
unfolding is_claimed_by ended
finish_run now run_id details claim db = (
  with_runs db
      (update_where (is_claimed_by run_id claim) (ended completed now details none) db.sync_runs),
  ltb 0 (count_where (is_claimed_by run_id claim) db.sync_runs),
)

-- The row of `sync_run_errors`; `error_id` is the identifier drawn for it.
unfoldable pub error_row :
    ℕ
    → String
    → String
    → String
    → Option (Option String)
    → Option String
    → Option SyncRun
    → SyncRunError
error_row now error_id run_id message details error_code run = record {
  id = error_id;
  sync_run_id = run_id;
  platform = elim run [ none ↦ none | some r ↦ r.platform ];
  account_key = elim run [ none ↦ none | some r ↦ r.account_key ];
  error_code = error_code;
  error_message = message;
  details_json = or_else details none;
  created_at = now;
}

-- Nothing is recorded for a run that the claim no longer holds.
unfoldable pub fail_run :
    ℕ
    → String
    → String
    → String
    → Option (Option String)
    → Option String
    → Option SyncRunClaim
    → RunTables
    → RunTables × Bool
unfolding is_claimed_by ended error_row
fail_run now error_id run_id message details error_code claim db =
    let run = find_by (λ r. r.id == run_id) db.sync_runs in
    let rows =
      update_where (is_claimed_by run_id claim) (ended failed now details error_code)
        db.sync_runs in
    let updated = ltb 0 (count_where (is_claimed_by run_id claim) db.sync_runs) in
    if updated
    then (
      record {
        sync_runs = rows;
        sync_run_errors =
            db.sync_run_errors ++ error_row now error_id run_id message details error_code run ∷ [];
      },
      true,
    )
    else (with_runs db rows, false)

unfoldable pub is_in_progress : SyncRun → Bool
is_in_progress r = r.status == ingesting || r.status == projecting

unfoldable pub recovered : ℕ → String → SyncRun → SyncRun
recovered now error_code r = record r {
  status = queued;
  scheduled_at = now;
  owner_id = none;
  lease_expires_at = none;
  last_progress_at = some now;
  error_code = some error_code;
}

unfoldable pub recover_in_progress_runs : ℕ → String → RunTables → RunTables × ℕ
unfolding is_in_progress recovered
recover_in_progress_runs now error_code db = (
  with_runs db (update_where is_in_progress (recovered now error_code) db.sync_runs),
  count_where is_in_progress db.sync_runs,
)

unfoldable pub reschedule_run : String → ℤ → RunTables → RunTables
reschedule_run run_id scheduled_at db = with_runs db (
    update_where (λ r. r.id == run_id) (λ r. record r { scheduled_at = pos_part scheduled_at })
      db.sync_runs)

unfoldable pub update_run_details : String → Option String → RunTables → RunTables
update_run_details run_id json db =
    with_runs db
      (update_where (λ r. r.id == run_id) (λ r. record r { details_json = json }) db.sync_runs)

unfoldable pub update_run_status :
    String → SyncRunStatus → Option (Option String) → RunTables → RunTables
update_run_status run_id status details db = with_runs db (
    update_where (λ r. r.id == run_id)
      (λ r. record r { status = status; details_json = new_details details r.details_json })
      db.sync_runs)
