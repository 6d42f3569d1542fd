-- ===== src/Runs/Claim.antt =====
-- src/db/database.ts: claiming the next run under a lease, and when one can next be claimed.
use cued.Base.{
  ℕ, ◌+◌, min, Bool, true, false, ◌&&◌, ◌||◌, String, List, [], ◌∷◌, Option, none, some, ℤ,
  at_least_one, any, filter_by, leb, ltb, or_else, ◌==◌, nat_eq, string_eq, if◌then◌else◌,
}
use cued.Platform.{
  SyncRunType, run_type_eq, SyncRunStatus, queued, ingesting, projecting, run_status_eq,
}
use cued.Runs.Types.{SyncRun, RunTables, update_where, first_by}

-- `runTypes && runTypes.length > 0 ? inArray(…) : 1 = 1`; a missing list is the empty one.
unfoldable pub has_run_type : List SyncRunType → SyncRun → Bool
has_run_type [] r = true
has_run_type (t ∷ ts) r = any (λ u. r.run_type == u) (t ∷ ts)

unfoldable pub active_status : SyncRunStatus → SyncRunStatus
active_status projecting = projecting
active_status _ = ingesting

abbrev pub is_reached : Option ℕ → ℕ → Bool
is_reached none now = false
is_reached (some at) now = leb at now

-- A queued run whose time has come, or an active one whose lease has run out.
unfoldable pub is_claimable : List SyncRunType → SyncRunStatus → ℕ → SyncRun → Bool
unfolding has_run_type active_status
is_claimable run_types next now r =
    has_run_type run_types r
    && ((r.status == queued && leb r.scheduled_at now)
        || (r.status == active_status next && is_reached r.lease_expires_at now))

-- `ORDER BY scheduled_at ASC, queued_at ASC`
unfoldable pub goes_before : SyncRun → SyncRun → Bool
goes_before r s =
    ltb r.scheduled_at s.scheduled_at
    || (r.scheduled_at == s.scheduled_at && ltb r.queued_at s.queued_at)

lease_end : ℕ → Option ℤ → Option ℕ
lease_end now none = none
lease_end now (some lease_ms) = some (now + at_least_one lease_ms)

-- The row as the claim leaves it.
unfoldable pub claimed : SyncRunStatus → ℕ → Option String → Option ℤ → SyncRun → SyncRun
unfolding lease_end
claimed next now owner lease_ms r = record r {
  status = next;
  started_at = some (or_else r.started_at now);
  attempt = r.attempt + 1;
  owner_id = owner;
  lease_expires_at = lease_end now lease_ms;
  last_progress_at = some now;
  error_code = none;
}

-- The row that the caller gets is the claimed one but for `error_code`, which it does not show.
unfoldable pub claim_next_queued_run :
    List SyncRunType
    → SyncRunStatus
    → Option String
    → Option ℤ
    → ℕ
    → RunTables
    → RunTables × Option SyncRun
unfolding is_claimable goes_before claimed
claim_next_queued_run run_types next owner lease_ms now db =
    elim (first_by goes_before (filter_by (is_claimable run_types next now) db.sync_runs)) [
      | none ↦ (db, none)
      | some r ↦ (
        record db {
          sync_runs =
              update_where (λ s. s.id == r.id) (claimed next now owner lease_ms) db.sync_runs;
        },
        some (claimed next now owner lease_ms r),
      )
    ]

-- `MIN` over the rows of a column that may be NULL.
abbrev pub min_of : Option ℕ → Option ℕ → Option ℕ
min_of none b = b
min_of (some a) none = some a
min_of (some a) (some b) = some (min a b)

unfoldable pub claimable_from : List SyncRunType → SyncRunStatus → SyncRun → Option ℕ
unfolding has_run_type
claimable_from run_types active r =
    if has_run_type run_types r
    then (if r.status == queued
        then some r.scheduled_at
        else if r.status == active
        then r.lease_expires_at
        else none)
    else none

unfoldable pub next_claimable : List SyncRunType → SyncRunStatus → List SyncRun → Option ℕ
unfolding claimable_from
next_claimable run_types active [] = none
next_claimable run_types active (r ∷ rs) =
    min_of (claimable_from run_types active r) (next_claimable run_types active rs)

unfoldable pub get_next_claimable_run_at : List SyncRunType → SyncRunStatus → RunTables → Option ℕ
unfolding next_claimable
get_next_claimable_run_at run_types active db = next_claimable run_types active db.sync_runs

unfoldable pub get_next_queued_run_scheduled_at : List SyncRunType → RunTables → Option ℕ
unfolding has_run_type goes_before
get_next_queued_run_scheduled_at run_types db =
    elim (first_by goes_before
      (filter_by (λ r. r.status == queued && has_run_type run_types r) db.sync_runs)) [
        | none ↦ none
        | some r ↦ some r.scheduled_at
      ]
