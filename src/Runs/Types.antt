-- ===== src/Runs/Types.antt =====
-- src/db/schema.ts, table `sync_runs`, and the rows and arguments of src/db/database.ts. A column
-- that may be NULL is an `Option`; a time is the number of milliseconds that `now()` returned.
use cued.Base.{ℕ, Bool, String, List, [], ◌∷◌, Option, none, some, Number, suc, if◌then◌else◌}
use cued.Platform.{Platform, SyncRunType, SyncRunStatus}

pub record SyncRun : Type 0 where
  pub id : String
  pub platform : Option Platform
  pub account_key : Option String
  pub run_type : SyncRunType
  pub status : SyncRunStatus
  pub trigger : String
  pub queued_at : ℕ
  pub scheduled_at : ℕ
  pub started_at : Option ℕ
  pub finished_at : Option ℕ
  pub attempt : ℕ
  pub owner_id : Option String
  pub lease_expires_at : Option ℕ
  pub last_progress_at : Option ℕ
  pub error_code : Option String
  pub details_json : Option String

pub record SyncRunError : Type 0 where
  pub id : String
  pub sync_run_id : String
  pub platform : Option Platform
  pub account_key : Option String
  pub error_code : Option String
  pub error_message : String
  pub details_json : Option String
  pub created_at : ℕ

-- The two tables that the methods below read and write.
pub record RunTables : Type 0 where
  pub sync_runs : List SyncRun
  pub sync_run_errors : List SyncRunError

-- The argument of `queueSyncRun`. `details_json` is what `safeStringifyJson` makes of `details`.
pub record QueueInput : Type 0 where
  pub platform : Option Platform
  pub account_key : Option String
  pub run_type : SyncRunType
  pub trigger : String
  pub details_json : Option String
  pub scheduled_at : Option ℕ
  pub delay_ms : Option Number

-- What a worker remembers of the run that it claimed.
pub record SyncRunClaim : Type 0 where
  pub attempt : ℕ
  pub owner_id : Option String

-- `UPDATE … SET f WHERE p`, and its `changes`.
abbrev pub update_where : (SyncRun → Bool) → (SyncRun → SyncRun) → List SyncRun → List SyncRun
update_where p f [] = []
update_where p f (r ∷ rs) = (if p r then f r else r) ∷ update_where p f rs

abbrev pub count_where : (SyncRun → Bool) → List SyncRun → ℕ
count_where p [] = 0
count_where p (r ∷ rs) = let rest = count_where p rs in if p r then suc rest else rest

-- `ORDER BY … LIMIT 1`: the first row that no other row goes before. SQLite leaves open which of
-- several equal rows it is; here it is the one that stands first in the table.
abbrev pub earlier : (SyncRun → SyncRun → Bool) → SyncRun → Option SyncRun → SyncRun
earlier before r none = r
earlier before r (some s) = if before s r then s else r

abbrev pub first_by : (SyncRun → SyncRun → Bool) → List SyncRun → Option SyncRun
first_by before [] = none
first_by before (r ∷ rs) = some (earlier before r (first_by before rs))
