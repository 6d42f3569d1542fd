-- ===== src/Daemon/Tests.antt =====
-- src/runtime/daemon/server.ts, the work queues, at concrete inputs: a daemon that starts over a
-- queued sync run, and one that starts over a queued rebuild.
use mathlib.Core.List.{Memᴰ}
use cued.Base.{
  String-discrete, ℕ, ◌≤◌, length, true, false, [], ◌∷◌, none, some, pos, ◌≡◌, inl, inr, refl,
  arith,
}
use cued.Platform.{
  is_adapter_platform, slack, sync, rebuild, queued, projecting, SyncRunType-discrete,
  SyncRunStatus-discrete,
}
use cued.Runs.{
  SyncRun, RunTables, get_next_claimable_run_at, get_next_queued_run_scheduled_at,
  claim_next_queued_run,
}
use cued.Daemon.Timer.{TimerKind, Armed, Drain, schedule_drain, fire}
use cued.Daemon.Wakeups.{IsTimed, schedule_drain-one_callback}
use cued.Daemon.AuthSessions.{is_active}
use cued.Daemon.Queues.{
  BootstrapState-discrete, Queues, wake_ingest, wake_projection, complete_bootstrap, BootstrapState,
  effective_ingest_concurrency,
}
use cued.Daemon.Drains.{
  start_ingest_run, drain_ingest_queue, drain_projection_queue, is_projection_due,
}
use cued.Daemon.Redrain.{
  IsArmedBy, IsSettled, drained, drain_ingest_queue-IsSettled, drain_ingest_queue-strands_none,
}
use cued.Daemon.Steps.{start_queues, Step}
use cued.Daemon.Promises.{Kept, ingest_stays_bounded, rebuild_runs_alone}

-- Queued at 90, for 300.
abbrev waiting_sync : SyncRun
waiting_sync = record {
  id = "r1";
  platform = some slack;
  account_key = some "T1";
  run_type = sync;
  status = queued;
  trigger = "cli";
  queued_at = 90;
  scheduled_at = 300;
  started_at = none;
  finished_at = none;
  attempt = 0;
  owner_id = none;
  lease_expires_at = none;
  last_progress_at = none;
  error_code = none;
  details_json = none;
}

abbrev waiting_rebuild : SyncRun
waiting_rebuild = record waiting_sync {
  id = "r2";
  platform = none;
  account_key = none;
  run_type = rebuild;
}

abbrev at_start : SyncRun → Queues
unfolding start_queues
at_start r = start_queues "daemon:1:5" 4 (record { sync_runs = r ∷ []; sync_run_errors = [] })

-- A timeout at 1100 is replaced by one at 600.
abbrev retrying : Drain
retrying = record {
  scheduled = true;
  due_at = some 1100;
  timer = some 0;
  armed = record { handle = 0; due = 1100; kind = TimerKind.timeout } ∷ [];
  next_handle = 1;
}

schedule_drain-one_callback_example :
    IsTimed 200 (schedule_drain 200 (pos 400) retrying)
    × ((schedule_drain 200 (pos 400) retrying).scheduled ≡ true)
    × ((schedule_drain 200 (pos 400) retrying).due_at ≡ some 600)
schedule_drain-one_callback_example =
    schedule_drain-one_callback 100 200 (pos 400) retrying (omega arith) (
      inr (
        record { handle = 0; due = 1100; kind = TimerKind.timeout },
        refl,
        refl,
        refl,
        inr (refl, refl),
      ))

-- The daemon over the run, with a callback of the ingest queue that is due.
abbrev due_at : ℕ → Armed
due_at at = record { handle = 0; due = at; kind = TimerKind.immediate }

abbrev woken_at : ℕ → Queues
woken_at at = record (at_start waiting_sync) {
  ingest_drain = record {
    scheduled = true;
    due_at = some at;
    timer = none;
    armed = due_at at ∷ [];
    next_handle = 1;
  };
}

woken_at-IsTimed : (at : ℕ) → IsTimed at (woken_at at).ingest_drain
woken_at-IsTimed at = inr (due_at at, refl, refl, refl, inl (refl, refl, omega arith))

-- At 100 the run cannot be claimed before 300, so the queue is drained again a second later.
drain_ingest_queue-strands_none_example :
    IsArmedBy 1100 (drained (λ n. "e") 100 (due_at 100) (woken_at 100)).ingest_drain
unfolding drain_ingest_queue start_queues get_next_queued_run_scheduled_at SyncRunStatus-discrete
    SyncRunType-discrete effective_ingest_concurrency is_active claim_next_queued_run
    get_next_claimable_run_at
drain_ingest_queue-strands_none_example =
    drain_ingest_queue-strands_none (λ n. "e") 100 (due_at 100) (woken_at 100)
      (woken_at-IsTimed 100) (Memᴰ.head refl) 300 refl refl refl

drain_ingest_queue-IsSettled_example :
    IsSettled 400 (drained (λ n. "e") 400 (due_at 400) (woken_at 400))
unfolding start_queues is_projection_due get_next_queued_run_scheduled_at SyncRunStatus-discrete
    SyncRunType-discrete
drain_ingest_queue-IsSettled_example =
    drain_ingest_queue-IsSettled (λ n. "e") 400 (due_at 400) (woken_at 400) (woken_at-IsTimed 400)
      (Memᴰ.head refl) refl refl refl

abbrev woken : Queues
unfolding complete_bootstrap
woken =
    complete_bootstrap BootstrapState.ready (wake_projection 300 (pos 0) (at_start waiting_rebuild))

abbrev at_once : Armed
at_once = record { handle = 0; due = 300; kind = TimerKind.immediate }

abbrev rebuilding : Queues
unfolding drain_projection_queue
rebuilding =
    drain_projection_queue false false 300
      (record woken { projection_drain = fire at_once woken.projection_drain })

abbrev tables : RunTables
tables = record { sync_runs = waiting_rebuild ∷ []; sync_run_errors = [] }

woken-Kept : Kept "daemon:1:5" 4 300 woken
unfolding woken at_start start_queues
woken-Kept =
    Kept.later {before = 300} {now = 300}
      (Kept.later {before = 100} {now = 300} (Kept.started 100 tables) (omega arith) tt
        (Step.projection_woken (pos 0)))
      (omega arith) tt (Step.bootstrap_completed BootstrapState.ready)

rebuilding-Kept : Kept "daemon:1:5" 4 300 rebuilding
unfolding rebuilding woken at_start start_queues schedule_drain
rebuilding-Kept =
    Kept.later {before = 300} {now = 300} woken-Kept (omega arith) tt
      (Step.projection_drained false false at_once (Memᴰ.head refl))

-- The rebuild as it is claimed.
abbrev claimed_rebuild : SyncRun
claimed_rebuild = record waiting_rebuild {
  status = projecting;
  started_at = some 300;
  attempt = 1;
  owner_id = some "daemon:1:5";
  lease_expires_at = some 2100300;
  last_progress_at = some 300;
}

rebuild_runs_alone_example : rebuilding.ingest_promises ≡ []
unfolding rebuilding woken at_start start_queues drain_projection_queue BootstrapState-discrete
    SyncRunStatus-discrete SyncRunType-discrete claim_next_queued_run schedule_drain
    complete_bootstrap
rebuild_runs_alone_example =
    rebuild_runs_alone {r = claimed_rebuild} (omega arith) rebuilding-Kept refl refl

-- At 300 the waiting run is claimed and ingested.
abbrev asked_to_drain : Queues
unfolding start_queues
asked_to_drain = wake_ingest 300 (pos 0) (at_start waiting_sync)

abbrev ingesting_one : Queues
ingesting_one = drained (λ n. "e") 300 at_once asked_to_drain

abbrev sync_tables : RunTables
sync_tables = record { sync_runs = waiting_sync ∷ []; sync_run_errors = [] }

ingesting_one-Kept : Kept "daemon:1:5" 4 300 ingesting_one
unfolding asked_to_drain at_start start_queues schedule_drain
ingesting_one-Kept =
    Kept.later {before = 300} {now = 300}
      (Kept.later {before = 100} {now = 300} (Kept.started 100 sync_tables) (omega arith) tt
        (Step.ingest_woken (pos 0)))
      (omega arith) tt (Step.ingest_drained (λ n. "e") at_once (Memᴰ.head refl))

one_ingested : length ingesting_one.ingest_promises ≡ 1
unfolding asked_to_drain at_start start_queues drain_ingest_queue get_next_queued_run_scheduled_at
    SyncRunStatus-discrete SyncRunType-discrete effective_ingest_concurrency is_active
    claim_next_queued_run get_next_claimable_run_at start_ingest_run is_adapter_platform
    String-discrete
one_ingested = refl

ingest_stays_bounded_example : length ingesting_one.ingest_promises ≤ 4
ingest_stays_bounded_example = ingest_stays_bounded (omega arith) ingesting_one-Kept
