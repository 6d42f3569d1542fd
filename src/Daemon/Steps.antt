-- ===== src/Daemon/Steps.antt =====
-- src/runtime/daemon/server.ts, `startDaemon`: everything that happens to the work queues, as the
-- steps of a relation, and the states that the daemon can reach by them. The event loop runs one
-- callback at a time, so a step is a whole callback.
use mathlib.Core.List.{Memᴰ}
use cued.Base.{ℕ, ◌≤◌, Bool, false, String, [], Option, none, some, Number, ℤ, ◌≡◌}
use cued.Runs.{SyncRun, RunTables}
use cued.Daemon.Timer.{Armed, idle_drain, fire}
use cued.Daemon.Queues.{
  Queues, BootstrapState, wake_ingest, wake_projection, wake_search_index, ingest_ended,
  projection_ended, pause_projection, complete_bootstrap, request_update_shutdown,
  maybe_finish_update_shutdown, shutdown, begin_interactive_auth, end_interactive_auth,
}
use cued.Daemon.Drains.{
  SearchBatch, drain_ingest_queue, drain_projection_queue, drain_search_index_queue,
}

-- The variables as `startDaemon` declares them, over the runs that the database holds.
unfoldable pub start_queues : String → ℕ → RunTables → Queues
start_queues run_owner_id ingest_concurrency runs = record {
  runs = runs;
  run_owner_id = run_owner_id;
  ingest_concurrency = ingest_concurrency;
  active_ingest_runs = [];
  ingest_promises = [];
  is_processing_projection = false;
  projection_run = none;
  auth_projection_paused_until = 0;
  ingest_drain = idle_drain;
  projection_drain = idle_drain;
  search_index_drain = idle_drain;
  interactive_auth = record { active_until = 0; expirations = [] };
  bootstrap_state = BootstrapState.starting;
  is_update_shutdown_requested = false;
  update_shutdown_requested_at = none;
  shutdown_initiated = false;
}

pub data Step (now : ℕ) (q : Queues) : Queues → Type 0 where
  ingest_drained :
      (draw : ℕ → String) (a : Armed)
      → Memᴰ a q.ingest_drain.armed
      → Step now q (drain_ingest_queue draw now (record q { ingest_drain = fire a q.ingest_drain }))
  projection_drained :
      (claim_busy next_busy : Bool) (a : Armed)
      → Memᴰ a q.projection_drain.armed
      → Step now q (
          drain_projection_queue claim_busy next_busy now
            (record q { projection_drain = fire a q.projection_drain }))
  search_index_drained :
      (pending_raw_events : Option ℕ) (batch : SearchBatch) (a : Armed)
      → Memᴰ a q.search_index_drain.armed
      → Step now q (
          drain_search_index_queue pending_raw_events batch now
            (record q { search_index_drain = fire a q.search_index_drain }))
  ingest_woken : (delay_ms : ℤ) → Step now q (wake_ingest now delay_ms q)
  projection_woken : (delay_ms : ℤ) → Step now q (wake_projection now delay_ms q)
  search_index_woken : (delay_ms : ℤ) → Step now q (wake_search_index now delay_ms q)
  run_ingested : (r : SyncRun) → Memᴰ r q.ingest_promises → Step now q (ingest_ended now r q)
  run_projected : (r : SyncRun) → q.projection_run ≡ some r → Step now q (projection_ended now q)
  -- The database is written by a run that is processed, by a command or by another process.
  runs_written : (runs : RunTables) → Step now q (record q { runs = runs })
  auth_begun :
      (default_ttl : ℕ) (session_id : String) (ttl_ms : Option Number) (wake_queues : Bool)
      → Step now q (begin_interactive_auth default_ttl now session_id ttl_ms wake_queues q)
  auth_ended : (session_id : String) → Step now q (end_interactive_auth now session_id q)
  projection_paused : Step now q (pause_projection now q)
  bootstrap_completed : (state : BootstrapState) → Step now q (complete_bootstrap state q)
  shutdown_requested : Step now q (request_update_shutdown now q)
  shutdown_checked : Step now q (maybe_finish_update_shutdown now q)
  shut_down : Step now q (shutdown q)

-- The clock does not run backwards.
pub data Reach (run_owner_id : String) (ingest_concurrency : ℕ) : ℕ → Queues → Type 0 where
  started :
      (now : ℕ) (runs : RunTables)
      → Reach run_owner_id ingest_concurrency now
          (start_queues run_owner_id ingest_concurrency runs)
  later :
      {before now : ℕ} {q q' : Queues}
      → Reach run_owner_id ingest_concurrency before q
      → before ≤ now
      → Step now q q'
      → Reach run_owner_id ingest_concurrency now q'
