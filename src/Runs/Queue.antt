-- ===== src/Runs/Queue.antt =====
-- src/db/database.ts: putting runs into the table, and asking for waiting ones. The identifiers
-- that `randomUUID` draws and the time that `now` reads are arguments.
use cued.Base.{
  ℕ, zero, suc, ◌+◌, Bool, true, ◌&&◌, ◌||◌, String, List, [], ◌∷◌, ◌++◌, map, Option, none, some,
  Number, finite, not_finite, pos_part, length, take, drop, any, ◌==◌, string_eq, option_eq,
}
use cued.Platform.{
  Platform, platform_eq, project, rebuild, run_type_eq, queued, ingesting, projecting,
  run_status_eq,
}
use cued.Runs.Types.{SyncRun, RunTables, QueueInput}

-- A delay counts only if it is finite, and never moves a run into the past.
scheduled_for : ℕ → Option ℕ → Option Number → ℕ
scheduled_for queued_at (some at) delay = at
scheduled_for queued_at none none = queued_at
scheduled_for queued_at none (some not_finite) = queued_at
scheduled_for queued_at none (some (finite z)) = queued_at + pos_part z

-- The row that `queueSyncRun` and `queueSyncRuns` insert.
unfoldable pub queued_row : ℕ → String → QueueInput → SyncRun
unfolding scheduled_for
queued_row queued_at id input = record {
  id = id;
  platform = input.platform;
  account_key = input.account_key;
  run_type = input.run_type;
  status = queued;
  trigger = input.trigger;
  queued_at = queued_at;
  scheduled_at = scheduled_for queued_at input.scheduled_at input.delay_ms;
  started_at = none;
  finished_at = none;
  attempt = 0;
  owner_id = none;
  lease_expires_at = none;
  last_progress_at = none;
  error_code = none;
  details_json = input.details_json;
}

-- `INSERT`: the row goes to the end of the table.
unfoldable pub queue_sync_run : ℕ → String → QueueInput → RunTables → RunTables
unfolding queued_row
queue_sync_run now id input db = record db {
  sync_runs = db.sync_runs ++ queued_row now id input ∷ [];
}

abbrev pub write_batch_size : ℕ
write_batch_size = 250

-- The loop of `chunkArray`: `rounds` bounds the number of chunks.
unfoldable pub chunk_from {ℓ} : {A : Type ℓ} → ℕ → ℕ → List A → List (List A)
chunk_from zero size items = []
chunk_from (suc rounds) size [] = []
chunk_from (suc rounds) size (x ∷ xs) =
    take size (x ∷ xs) ∷ chunk_from rounds size (drop size (x ∷ xs))

-- A chunk holds at least one item, so there are no more chunks than items.
unfoldable pub chunk_array {ℓ} : {A : Type ℓ} → List A → ℕ → List (List A)
unfolding chunk_from
chunk_array items size = chunk_from (length items) size items

-- One `INSERT` for each chunk, in one transaction.
unfoldable pub insert_chunks : ℕ → List (List (String × QueueInput)) → List SyncRun → List SyncRun
unfolding queued_row
insert_chunks now [] rows = rows
insert_chunks now (chunk ∷ chunks) rows =
    insert_chunks now chunks (rows ++ map (λ e. queued_row now e.0 e.1) chunk)

-- Each input comes with the identifier drawn for it; the identifiers are returned.
unfoldable pub queue_sync_runs :
    ℕ → List (String × QueueInput) → RunTables → RunTables × List String
queue_sync_runs now [] db = (db, [])
queue_sync_runs now (input ∷ inputs) db = (
  record db {
    sync_runs = insert_chunks now (chunk_array (input ∷ inputs) write_batch_size) db.sync_runs;
  },
  map (λ e. e.0) (input ∷ inputs),
)

abbrev is_account : Option String → SyncRun → Bool
is_account none r = true
is_account (some key) r = r.account_key == some key

unfoldable pub has_queued_or_running_run : Platform → Option String → RunTables → Bool
has_queued_or_running_run platform account_key db =
    any
      (λ r.
        (r.platform == some platform)
        && is_account account_key r
        && (r.status == queued || r.status == ingesting))
      db.sync_runs

unfoldable pub has_queued_or_active_projection_run : RunTables → Bool
has_queued_or_active_projection_run db =
    any
      (λ r.
        (r.run_type == project || r.run_type == rebuild)
        && (r.status == queued || r.status == projecting))
      db.sync_runs
