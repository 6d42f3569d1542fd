-- ===== src/Daemon/Work.antt =====
-- src/runtime/daemon/server.ts, `startDaemon`: the variables that tell which runs are
-- processed, and the operations that leave them alone.
use cued.Base.{
  ℕ, ◌≤◌, length, Bool, true, false, String, List, [], Option, some, is_some, ◌≡◌, inl, inr, refl,
  sym, subst, arith, Bool-cases, string_eq, Number,
}
use cued.Platform.{rebuild, run_type_eq}
use cued.Runs.{SyncRun}
use cued.Daemon.Queues.{
  Queues, request_update_shutdown, maybe_finish_update_shutdown, shutdown, begin_interactive_auth,
  end_interactive_auth,
}
use cued.Daemon.Drains.{SearchBatch, drain_search_index_queue, await_ingest, await_projection}

-- The variables that tell what is processed.
pub record Work : Type 0 where
  pub active : List SyncRun
  pub promises : List SyncRun
  pub room : ℕ
  pub is_projecting : Bool
  pub projected : Option SyncRun

abbrev pub work : Queues → Work
work q = record {
  active = q.active_ingest_runs;
  promises = q.ingest_promises;
  room = q.ingest_concurrency;
  is_projecting = q.is_processing_projection;
  projected = q.projection_run;
}

-- At most `c` runs stand in the map of those that are ingested, and none beside a rebuild.
abbrev pub IsSafe : ℕ → Work → Type 0
IsSafe c w =
    length w.active ≤ c
    × 1 ≤ c
    × (w.room ≡ c)
    × (w.is_projecting ≡ is_some w.projected)
    × ((r : SyncRun) → w.projected ≡ some r → r.run_type ≡ rebuild → w.active ≡ [])

pub IsSafe-same : {c : ℕ} (w w' : Work) → w' ≡ w → IsSafe c w → IsSafe c w'
IsSafe-same {c} w w' e h = subst (IsSafe c) (sym e) h

pub work-shutdown : (q : Queues) → work (shutdown q) ≡ work q
unfolding shutdown
work-shutdown q = elim (Bool-cases q.shutdown_initiated) [
  | inl e ↦ rw (e, shutdown) refl
  | inr e ↦ rw (e, shutdown) refl
]

pub work-maybe_finish : (now : ℕ) (q : Queues) → work (maybe_finish_update_shutdown now q) ≡ work q
unfolding maybe_finish_update_shutdown
work-maybe_finish now q = ground (arith, work-shutdown q)

pub work-request : (now : ℕ) (q : Queues) → work (request_update_shutdown now q) ≡ work q
unfolding request_update_shutdown
work-request now q = ground arith

pub work-auth_begun :
    (default now : ℕ) (id : String) (ttl : Option Number) (wake : Bool) (q : Queues)
    → work (begin_interactive_auth default now id ttl wake q) ≡ work q
unfolding begin_interactive_auth
work-auth_begun default now id ttl true q = refl
work-auth_begun default now id ttl false q = refl

pub work-auth_ended :
    (now : ℕ) (id : String) (q : Queues) → work (end_interactive_auth now id q) ≡ work q
unfolding end_interactive_auth
work-auth_ended now id q = ground arith

pub work-search :
    (pending : Option ℕ) (batch : SearchBatch) (now : ℕ) (q : Queues)
    → work (drain_search_index_queue pending batch now q) ≡ work q
unfolding drain_search_index_queue
work-search pending batch now q = ground arith

pub work-await_ingest : (now : ℕ) (q : Queues) → work (await_ingest now q) ≡ work q
unfolding await_ingest
work-await_ingest now q = ground arith

pub work-await_projection :
    (busy : Bool) (now : ℕ) (q : Queues) → work (await_projection busy now q) ≡ work q
unfolding await_projection
work-await_projection busy now q = ground arith
