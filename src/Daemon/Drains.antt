-- ===== src/Daemon/Drains.antt =====
-- src/runtime/daemon/server.ts, `drainIngestQueue`, `drainProjectionQueue` and
-- `drainSearchIndexQueue`: one run of each. Where SQLite may answer that the database is busy, that
-- answer is an argument; the writes of a run that is being processed are steps of their own, but
-- for the refusal of a run, which `processIngestRun` writes before it first waits.
use Prim.Native.String.{◌++◌ as append}
use cued.Base.{
  ℕ, zero, suc, ◌-◌, max, length, ltb, Bool, true, false, not, ◌&&◌, ◌||◌, String, List, [], ◌∷◌,
  ◌++◌, Option, none, some, pos, ◌==◌, if◌then◌else◌,
}
use cued.Platform.{
  platform_word, is_adapter_platform, SyncRunType, sync, sync_resume, project, rebuild, run_type_eq,
  ingesting, projecting,
}
use cued.Runs.{
  SyncRun, SyncRunClaim, RunTables, claim_next_queued_run, get_next_claimable_run_at,
  get_next_queued_run_scheduled_at, update_run_progress, fail_run, is_reached,
}
use cued.Daemon.Timer.{begin_drain}
use cued.Daemon.Queues.{
  Queues, BootstrapState, bootstrap_eq, wake_ingest, wake_projection, wake_search_index, set_active,
  is_idle, queue_drain_retry_delay_ms, projection_auth_retry_delay_ms, effective_ingest_concurrency,
}

abbrev pub ingest_run_lease_ms : ℕ
ingest_run_lease_ms = 900000

abbrev pub projection_run_lease_ms : ℕ
projection_run_lease_ms = 2100000

abbrev pub ingest_run_types : List SyncRunType
ingest_run_types = sync ∷ sync_resume ∷ []

abbrev pub fts_projection_throttle_delay_ms : ℕ
fts_projection_throttle_delay_ms = 5000

run_type_word : SyncRunType → String
run_type_word sync = "sync"
run_type_word sync_resume = "sync_resume"
run_type_word project = "project"
run_type_word rebuild = "rebuild"

-- Why `processIngestRun` refuses a run, if it does.
unfoldable pub refusal : SyncRun → Option String
unfolding run_type_word
refusal r = elim r.platform [
  | none ↦
      some (append "Unsupported ingest run target: " (append (run_type_word r.run_type) ":none"))
  | some p ↦
      if not (r.run_type == sync) && not (r.run_type == sync_resume)
      then some (
          append "Unsupported ingest run target: "
            (append (run_type_word r.run_type) (append ":" (platform_word p))))
      else if not (is_adapter_platform (platform_word p))
      then some (append "No adapter registered for platform: " (platform_word p))
      else none
]

abbrev pub claim_of : SyncRun → SyncRunClaim
claim_of r = record { attempt = r.attempt; owner_id = r.owner_id }

-- `error_id` is the identifier drawn for the error's row.
unfoldable pub start_ingest_run : ℕ → String → SyncRun → RunTables → RunTables
unfolding refusal
start_ingest_run now error_id r runs = elim (refusal r) [
  | none ↦ runs
  | some message ↦ (fail_run now error_id r.id message none none (some (claim_of r)) runs).0
]

-- `Math.max(QUEUE_DRAIN_RETRY_DELAY_MS, next - now())`
abbrev pub retry_delay : ℕ → ℕ → ℕ
retry_delay now next = max queue_drain_retry_delay_ms (next - now)

unfoldable pub claim_ingest : ℕ → Queues → RunTables × Option SyncRun
claim_ingest now q =
    claim_next_queued_run ingest_run_types ingesting (some q.run_owner_id)
      (some (pos ingest_run_lease_ms)) now q.runs

-- No run can be claimed: the queue is drained again when the next one can be.
unfoldable pub await_ingest : ℕ → Queues → Queues
await_ingest now q = elim (get_next_claimable_run_at ingest_run_types ingesting q.runs) [
  | none ↦ q
  | some next ↦ wake_ingest now (pos (retry_delay now next)) q
]

-- A claimed run begins.
unfoldable pub ingest_started : ℕ → String → RunTables → SyncRun → Queues → Queues
ingest_started now error_id claimed_runs r q = record q {
  runs = start_ingest_run now error_id r claimed_runs;
  active_ingest_runs = set_active r q.active_ingest_runs;
  ingest_promises = q.ingest_promises ++ r ∷ [];
}

-- The `while` loop, for at most as many rounds as `rounds`; `draw` gives the identifiers that
-- `randomUUID` draws.
unfoldable pub fill_ingest : (ℕ → String) → ℕ → ℕ → Queues → Queues
unfolding claim_ingest await_ingest ingest_started
fill_ingest draw now zero q = q
fill_ingest draw now (suc rounds) q =
    elim (ltb (length q.active_ingest_runs) (effective_ingest_concurrency now q)) [
      | false ↦ q
      | true ↦ elim (claim_ingest now q).1 [
        | none ↦ await_ingest now q
        | some r ↦
            fill_ingest draw now rounds
              (ingest_started now (draw rounds) (claim_ingest now q).0 r q)
      ]
    ]

unfoldable pub is_projection_due : ℕ → Queues → Bool
is_projection_due now q =
    is_idle q.active_ingest_runs
    && is_reached (get_next_queued_run_scheduled_at (project ∷ rebuild ∷ []) q.runs) now

-- A round claims a row that no later round can claim, so there are no more rounds than rows and
-- one that finds none.
unfoldable pub drain_ingest_queue : (ℕ → String) → ℕ → Queues → Queues
unfolding is_projection_due fill_ingest
drain_ingest_queue draw now q0 =
    let q = record q0 { ingest_drain = begin_drain q0.ingest_drain } in
    if q.is_update_shutdown_requested
    then q
    else if q.is_processing_projection
    then wake_ingest now (pos queue_drain_retry_delay_ms) q
    else if is_projection_due now q
    then wake_ingest now (pos queue_drain_retry_delay_ms) (wake_projection now (pos 0) q)
    else fill_ingest draw now (suc (length q.runs.sync_runs)) q

-- A rebuild is claimed only while nothing is ingested.
unfoldable pub projection_run_types : List SyncRun → List SyncRunType
projection_run_types active = if is_idle active then project ∷ rebuild ∷ [] else project ∷ []

-- One of the two renewals of the lease that `processProjectionRun` writes before it first waits.
unfoldable pub renew_projection : ℕ → SyncRun → RunTables → RunTables
renew_projection now r runs =
    (update_run_progress now r.id none (some (pos projection_run_lease_ms)) (some (claim_of r))
      runs).0

unfoldable pub projection_started : ℕ → RunTables → SyncRun → Queues → Queues
unfolding renew_projection
projection_started now claimed_runs r q = record q {
  runs = renew_projection now r (renew_projection now r claimed_runs);
  is_processing_projection = true;
  projection_run = some r;
}

unfoldable pub await_projection : Bool → ℕ → Queues → Queues
unfolding projection_run_types
await_projection next_busy now q =
    if next_busy
    then wake_projection now (pos queue_drain_retry_delay_ms) q
    else elim (get_next_claimable_run_at (projection_run_types q.active_ingest_runs) projecting
        q.runs) [ none ↦ q | some next ↦ wake_projection now (pos (retry_delay now next)) q ]

unfoldable pub claim_projection : Bool → ℕ → Queues → Queues
unfolding projection_run_types projection_started await_projection
claim_projection next_busy now q =
    let (claimed_runs, run) =
      claim_next_queued_run (projection_run_types q.active_ingest_runs) projecting
        (some q.run_owner_id) (some (pos projection_run_lease_ms)) now q.runs in
    elim run [
      | none ↦ await_projection next_busy now q
      | some r ↦ projection_started now claimed_runs r q
    ]

-- `claim_busy` and `next_busy`: SQLite answers that it is busy to the claim and to the question
-- when the next run can be claimed.
unfoldable pub drain_projection_queue : Bool → Bool → ℕ → Queues → Queues
unfolding claim_projection
drain_projection_queue claim_busy next_busy now q0 =
    let q = record q0 { projection_drain = begin_drain q0.projection_drain } in
    if q.is_update_shutdown_requested || q.is_processing_projection
    then q
    else if not (q.bootstrap_state == BootstrapState.ready)
    then wake_projection now (pos queue_drain_retry_delay_ms) q
    else if ltb now q.auth_projection_paused_until
    then wake_projection now (pos projection_auth_retry_delay_ms) q
    else if claim_busy
    then wake_projection now (pos queue_drain_retry_delay_ms) q
    else claim_projection next_busy now q

-- How a batch of the message index ends: with the texts that are still queued, or with an error.
pub data SearchBatch : Type 0 where
  indexed : ℕ → SearchBatch
  index_failed : SearchBatch

-- `pending_raw_events` is the backlog of the projection, missing where SQLite is busy.
unfoldable pub drain_search_index_queue : Option ℕ → SearchBatch → ℕ → Queues → Queues
drain_search_index_queue pending_raw_events batch now q0 =
    let q = record q0 { search_index_drain = begin_drain q0.search_index_drain } in
    let retry = wake_search_index now (pos queue_drain_retry_delay_ms) q in
    let throttle = wake_search_index now (pos fts_projection_throttle_delay_ms) q in
    if q.is_update_shutdown_requested
    then q
    else if q.is_processing_projection
    then throttle
    else if not (q.bootstrap_state == BootstrapState.ready)
    then retry
    else elim pending_raw_events [
      | none ↦ retry
      | some pending ↦ if ltb 0 pending then throttle else elim batch [
        | SearchBatch.index_failed ↦ retry
        | SearchBatch.indexed left ↦ if ltb 0 left then wake_search_index now (pos 0) q else q
      ]
    ]
