-- ===== src/Daemon/Queues.antt =====
-- src/runtime/daemon/server.ts, `startDaemon`: the variables of the work queues, and the callbacks
-- that wake them. A function that reads the clock reads it once, as `now`.
use cued.Base.{
  ℕ, zero, suc, ◌+◌, ◌-◌, leb, Bool, true, false, not, ◌&&◌, ◌||◌, String, List, [], ◌∷◌, Option,
  none, some, Number, finite, not_finite, ℤ, pos, pos_part, filter_by, Eq, ◌==◌, string_eq, nat_eq,
  if◌then◌else◌,
}
use cued.Runs.{SyncRun, RunTables}
use cued.Daemon.Timer.{Drain, schedule_drain, clear_timer}
use cued.Daemon.AuthSessions.{AuthSessions, is_active, begin, end}

pub data BootstrapState : Type 0 where
  starting ready failed : BootstrapState

unfoldable pub BootstrapState-discrete : Discrete BootstrapState
BootstrapState-discrete = hlevel

instance abbrev pub bootstrap_eq : Eq BootstrapState
bootstrap_eq = record { dec = BootstrapState-discrete }

-- `active_ingest_runs` is a `Map` from the identifier of a run to the promise of its processing, of
-- which the model keeps the run. `ingest_promises` are the processings that have not ended, in the
-- map or not: one whose run is claimed again goes on beside the new one. `projection_run` is the argument of the
-- `processProjectionRun` that has not ended.
pub record Queues : Type 0 where
  pub runs : RunTables
  pub run_owner_id : String
  pub ingest_concurrency : ℕ
  pub active_ingest_runs : List SyncRun
  pub ingest_promises : List SyncRun
  pub is_processing_projection : Bool
  pub projection_run : Option SyncRun
  pub auth_projection_paused_until : ℕ
  pub ingest_drain : Drain
  pub projection_drain : Drain
  pub search_index_drain : Drain
  pub interactive_auth : AuthSessions
  pub bootstrap_state : BootstrapState
  pub is_update_shutdown_requested : Bool
  pub update_shutdown_requested_at : Option ℕ
  pub shutdown_initiated : Bool

abbrev pub queue_drain_retry_delay_ms : ℕ
queue_drain_retry_delay_ms = 1000

abbrev pub projection_auth_retry_delay_ms : ℕ
projection_auth_retry_delay_ms = 250

abbrev pub projection_auth_grace_ms : ℕ
projection_auth_grace_ms = 2000

abbrev pub update_shutdown_grace_ms : ℕ
update_shutdown_grace_ms = 30000

abbrev pub wake_ingest : ℕ → ℤ → Queues → Queues
wake_ingest now delay_ms q = record q { ingest_drain = schedule_drain now delay_ms q.ingest_drain }

abbrev pub wake_projection : ℕ → ℤ → Queues → Queues
wake_projection now delay_ms q = record q {
  projection_drain = schedule_drain now delay_ms q.projection_drain;
}

abbrev pub wake_search_index : ℕ → ℤ → Queues → Queues
wake_search_index now delay_ms q = record q {
  search_index_drain = schedule_drain now delay_ms q.search_index_drain;
}

-- `getEffectiveIngestConcurrency`: one run at a time while a person signs in.
unfoldable pub effective_ingest_concurrency : ℕ → Queues → ℕ
effective_ingest_concurrency now q =
    if (is_active now q.interactive_auth).1 then 1 else q.ingest_concurrency

-- `Map.prototype.set` and `Map.prototype.delete`
abbrev pub set_active : SyncRun → List SyncRun → List SyncRun
set_active r [] = r ∷ []
set_active r (s ∷ ss) = let rest = set_active r ss in if s.id == r.id then r ∷ ss else s ∷ rest

abbrev pub delete_active : String → List SyncRun → List SyncRun
delete_active id runs = filter_by (λ r. not (r.id == id)) runs

-- One processing of a run under an attempt has ended.
abbrev pub without_promise : SyncRun → List SyncRun → List SyncRun
without_promise r [] = []
without_promise r (s ∷ ss) =
    let rest = without_promise r ss in
    if s.id == r.id && s.attempt == r.attempt then ss else s ∷ rest

abbrev pub is_idle : List SyncRun → Bool
is_idle [] = true
is_idle (r ∷ rs) = false

-- What `shutdown` does to the queues before it first waits: an immediate callback stays armed.
unfoldable pub shutdown : Queues → Queues
shutdown q = if q.shutdown_initiated then q else record q {
  shutdown_initiated = true;
  projection_drain = clear_timer q.projection_drain;
  search_index_drain = clear_timer q.search_index_drain;
  ingest_drain = clear_timer q.ingest_drain;
}

-- `updateShutdownRequestedAt != null && now() - updateShutdownRequestedAt >= …`
unfoldable pub is_deadline_reached : ℕ → Option ℕ → Bool
is_deadline_reached now none = false
is_deadline_reached now (some at) = leb update_shutdown_grace_ms (now - at)

unfoldable pub maybe_finish_update_shutdown : ℕ → Queues → Queues
unfolding shutdown is_deadline_reached
maybe_finish_update_shutdown now q =
    if not q.is_update_shutdown_requested || q.shutdown_initiated
    then q
    else if is_deadline_reached now q.update_shutdown_requested_at
        || (is_idle q.active_ingest_runs && not q.is_processing_projection)
    then shutdown q
    else q

unfoldable pub request_update_shutdown : ℕ → Queues → Queues
request_update_shutdown now q =
    if q.is_update_shutdown_requested
    then q
    else record q { is_update_shutdown_requested = true; update_shutdown_requested_at = some now }

-- The socket's callback when a sign-in asks for the database.
unfoldable pub pause_projection : ℕ → Queues → Queues
pause_projection now q =
    wake_projection now (pos projection_auth_retry_delay_ms)
      (record q { auth_projection_paused_until = now + projection_auth_grace_ms })

-- `processIngestRun(currentRun).finally(…)`
unfoldable pub ingest_ended : ℕ → SyncRun → Queues → Queues
unfolding maybe_finish_update_shutdown
ingest_ended now r q = maybe_finish_update_shutdown now (
    wake_projection now (pos 0) (
      wake_ingest now (pos 0) (record q {
        active_ingest_runs = delete_active r.id q.active_ingest_runs;
        ingest_promises = without_promise r q.ingest_promises;
      })))

-- The `finally` of `processProjectionRun`.
unfoldable pub projection_ended : ℕ → Queues → Queues
unfolding maybe_finish_update_shutdown
projection_ended now q = maybe_finish_update_shutdown now (
    wake_projection now (pos 0)
      (record q { is_processing_projection = false; projection_run = none }))

-- `completeBootstrap`
unfoldable pub complete_bootstrap : BootstrapState → Queues → Queues
complete_bootstrap state q = record q { bootstrap_state = state }

-- `Number.isFinite(ttlMs) && ttlMs != null && ttlMs > 0 ? Math.trunc(ttlMs) : getInteractiveAuthTtlMs()`
-- for a number of whole milliseconds.
auth_ttl : ℕ → Option Number → ℕ
auth_ttl default none = default
auth_ttl default (some not_finite) = default
auth_ttl default (some (finite z)) = elim (pos_part z) [ zero ↦ default | suc n ↦ suc n ]

-- `default_ttl` is what `getInteractiveAuthTtlMs` reads from the environment.
unfoldable pub begin_interactive_auth : ℕ → ℕ → String → Option Number → Bool → Queues → Queues
unfolding auth_ttl
begin_interactive_auth default_ttl now session_id ttl_ms wake_queues q =
    let q1 = record q {
      interactive_auth =
          (begin now session_id (auth_ttl default_ttl ttl_ms)
            (is_active now q.interactive_auth).0).0;
    } in
    if wake_queues
    then wake_ingest now (pos queue_drain_retry_delay_ms) (wake_projection now (pos 0) q1)
    else q1

unfoldable pub end_interactive_auth : ℕ → String → Queues → Queues
end_interactive_auth now session_id q =
    let (before, was_active) = is_active now q.interactive_auth in
    let q1 = record q { interactive_auth = (end now session_id before).0 } in
    if was_active && not (is_active now q1.interactive_auth).1
    then wake_projection now (pos 0) (wake_ingest now (pos 0) q1)
    else q1
