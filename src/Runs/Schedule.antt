-- ===== src/Runs/Schedule.antt =====
-- src/db/database.ts: which run a claim takes, and when the next one can be taken.
use cued.Base.{
  ℕ, Bool, false, ◌||◌, List, [], ◌∷◌, Option, none, some, any, filter_by, String, ◌≡◌, refl, ap₂,
  ◌∙◌, ◌⊎◌, inl, inr, arith, Bool-cases, Option-cases, is_some, ◌==◌, nat_eq, string_eq, ℤ,
}
use cued.Platform.{SyncRunType, SyncRunStatus, ingesting, projecting, run_status_eq}
use cued.Runs.Types.{SyncRun, RunTables, update_where, first_by}
use cued.Runs.Claim.{
  has_run_type, active_status, is_claimable, is_reached, goes_before, claimed,
  claim_next_queued_run, min_of, claimable_from, next_claimable, get_next_claimable_run_at,
}
use cued.Runs.Rows.{All, IsFirst, first_by-cases}

-- The statuses that a worker claims a run for.
abbrev pub IsActive : SyncRunStatus → Type 0
IsActive s = (s ≡ ingesting) ⊎ (s ≡ projecting)

module _ (run_types : List SyncRunType) (next : SyncRunStatus) (owner : Option String)
    (lease_ms : Option ℤ) (now : ℕ) (db : RunTables) where
  abbrev pub claim : RunTables × Option SyncRun
  claim = claim_next_queued_run run_types next owner lease_ms now db

  abbrev pub after_claim : SyncRun → RunTables
  after_claim r = record db {
    sync_runs = update_where (λ s. s.id == r.id) (claimed next now owner lease_ms) db.sync_runs;
  }

  -- Either no run can be claimed and nothing changes, or the run that is claimed comes first among
  -- those that can be, by its scheduled time and then by the time it was queued.
  pub claim_cases :
      ((claim ≡ (db, none)) × All (λ r. is_claimable run_types next now r ≡ false) db.sync_runs)
      ⊎ ((r : SyncRun) × (claim ≡ (after_claim r, some (claimed next now owner lease_ms r)))
          × IsFirst (is_claimable run_types next now) db.sync_runs r)
  unfolding claim_next_queued_run
  claim_cases = elim (first_by-cases (is_claimable run_types next now) db.sync_runs) [
    | inl (e, all) ↦ inl (rw (e, claim_next_queued_run), all)
    | inr (r, e, first) ↦ inr (r, rw (e, claim_next_queued_run), first)
  ]

is_reached-min_of :
    (a b : Option ℕ) (now : ℕ) → is_reached (min_of a b) now ≡ is_reached a now || is_reached b now
is_reached-min_of none b now = refl
is_reached-min_of (some a) none now = ground arith
is_reached-min_of (some a) (some b) now = ground arith

claimable_from-is_claimable :
    (run_types : List SyncRunType) (next : SyncRunStatus) (now : ℕ) (r : SyncRun)
    → IsActive next
    → is_reached (claimable_from run_types next r) now ≡ is_claimable run_types next now r
unfolding claimable_from is_claimable active_status
claimable_from-is_claimable run_types next now r a =
    ground (arith, Option-cases r.lease_expires_at, Bool-cases (has_run_type run_types r))

next_claimable-any :
    (run_types : List SyncRunType) (next : SyncRunStatus) (now : ℕ) (rows : List SyncRun)
    → IsActive next
    → is_reached (next_claimable run_types next rows) now
      ≡ any (is_claimable run_types next now) rows
unfolding next_claimable
next_claimable-any run_types next now [] a = refl
next_claimable-any run_types next now (r ∷ rs) a =
    is_reached-min_of (claimable_from run_types next r) (next_claimable run_types next rs) now
    ∙ ap₂ ◌||◌ (claimable_from-is_claimable run_types next now r a)
        (next_claimable-any run_types next now rs a)

pub any_first :
    (keep : SyncRun → Bool) (rows : List SyncRun)
    → is_some (first_by goes_before (filter_by keep rows)) ≡ any keep rows
any_first keep [] = refl
any_first keep (r ∷ rs) = ground (arith, any_first keep rs)

-- The time that the daemon sleeps until is exact: at any moment a claim finds a run just when that
-- time has been reached.
pub claim_when_reached :
    (run_types : List SyncRunType) (next : SyncRunStatus) (owner : Option String)
    (lease_ms : Option ℤ) (now : ℕ) (db : RunTables)
    → IsActive next
    → is_some (claim_next_queued_run run_types next owner lease_ms now db).1
      ≡ is_reached (get_next_claimable_run_at run_types next db) now
unfolding claim_next_queued_run get_next_claimable_run_at
claim_when_reached run_types next owner lease_ms now db a = ground (
  arith,
  any_first (is_claimable run_types next now) db.sync_runs,
  next_claimable-any run_types next now db.sync_runs a,
)
