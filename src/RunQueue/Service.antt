-- ===== src/RunQueue/Service.antt =====
-- src/runtime/run-queue.ts, `RunQueueService`: `queueSyncRun`, `queueSyncResume` and
-- `queueRebuild`. The identifiers that `randomUUID` draws during a call are a sequence `draw`, the
-- time is `now`, and `JSON.stringify` of a run's details is the parameter `stringify`.
use cued.Base.{
  is_empty, ℕ, suc, Bool, true, false, not, String, List, [], ◌∷◌, ◌++◌, map, Option, none, some,
  ◌==◌, string_eq, if◌then◌else◌,
}
use cued.Platform.{
  Platform, whatsapp, platform_word, is_adapter_platform, parse_platform,
  get_default_account_key_for_platform, SyncRunType, sync, sync_resume, rebuild,
}
use cued.Runs.{RunTables, QueueInput, queue_sync_run, queue_sync_runs, has_queued_or_running_run}
use cued.RunQueue.Target.{
  IntegrationRow, target_key, parse_run_target_key, unique, list_manual_sync_targets,
}

-- The callbacks `wakeIngest` and `wakeProjection`, in the order in which they are called.
pub data Wake : Type 0 where
  wake_ingest wake_projection : Wake

pub record Daemon : Type 0 where
  pub runs : RunTables
  pub integrations : List IntegrationRow
  pub wakes : List Wake

pub record Queued : Type 0 where
  pub queued : Bool
  pub run_id : Option String
  pub run_ids : List String
  pub targets : List String

pub record Resumed : Type 0 where
  pub queued : Bool
  pub run_ids : List String
  pub targets : List String

-- `throw new Error(...)` leaves the database as it was.
pub data Outcome : Type 0 where
  done : Daemon → Queued → Outcome
  unsupported_source : String → Outcome

-- The object that is stored as a run's details: `source`, and `accountKey` where it is given.
pub record Details : Type 0 where
  pub source : Option String
  pub account_key : Option String

abbrev pub wake : Wake → Daemon → Daemon
wake w d = record d { wakes = d.wakes ++ w ∷ [] }

abbrev pub first_of_list : List String → Option String
first_of_list [] = none
first_of_list (x ∷ xs) = some x

-- Gives each input the next identifier of the sequence.
abbrev pub with_ids : (ℕ → String) → ℕ → List QueueInput → List (String × QueueInput)
with_ids draw n [] = []
with_ids draw n (input ∷ inputs) = (draw n, input) ∷ with_ids draw (suc n) inputs

module _ (stringify : Details → Option String) where
  unfoldable pub target_input : SyncRunType → Platform → String → QueueInput
  target_input run_type platform account_key = record {
    platform = some platform;
    account_key = some account_key;
    run_type = run_type;
    trigger = "cli";
    details_json =
        stringify
          (record { source = some (platform_word platform); account_key = some account_key });
    scheduled_at = none;
    delay_ms = none;
  }

  unfoldable pub whatsapp_desktop_input : String → QueueInput
  whatsapp_desktop_input account_key = record {
    platform = some whatsapp;
    account_key = some account_key;
    run_type = sync;
    trigger = "cli";
    details_json =
        stringify (record { source = some "whatsapp_desktop"; account_key = some account_key });
    scheduled_at = none;
    delay_ms = none;
  }

  unfoldable pub source_input : Option Platform → Option String → QueueInput
  source_input platform source = record {
    platform = platform;
    account_key = none;
    run_type = sync;
    trigger = "cli";
    details_json = stringify (record { source = source; account_key = none });
    scheduled_at = none;
    delay_ms = none;
  }

  -- The body of `flatMap`: the targets that have no waiting or running run yet, and their inputs.
  unfoldable pub free_targets : RunTables → List String → List (String × QueueInput)
  unfolding target_input
  free_targets runs [] = []
  free_targets runs (key ∷ keys) =
      let rest = free_targets runs keys in
      elim (parse_run_target_key key) [
        | none ↦ rest
        | some (platform, account_key) ↦
            if has_queued_or_running_run platform (some account_key) runs
            then rest
            else (key, target_input sync platform account_key) ∷ rest
      ]

  -- The accounts of one platform, all in one transaction.
  unfoldable pub queue_targets : (ℕ → String) → ℕ → List String → Daemon → Daemon × Queued
  unfolding free_targets
  queue_targets draw now targets d =
      let free = free_targets d.runs targets in
      let (runs, run_ids) = queue_sync_runs now (with_ids draw 0 (map (λ e. e.1) free)) d.runs in
      let d' = record d { runs = runs } in
      (
        elim run_ids [ [] ↦ d' | _ ∷ _ ↦ wake wake_ingest d' ],
        record {
          queued = elim run_ids [ [] ↦ false | _ ∷ _ ↦ true ];
          run_id = first_of_list run_ids;
          run_ids = run_ids;
          targets = map (λ e. e.0) free;
        },
      )

  -- One run for the source as a whole, or for every source.
  unfoldable pub queue_source :
      (ℕ → String) → ℕ → Option Platform → Option String → List String → Daemon → Daemon × Queued
  unfolding source_input
  queue_source draw now platform source targets d = (
    wake wake_ingest
        (record d { runs = queue_sync_run now (draw 0) (source_input platform source) d.runs }),
    record { queued = true; run_id = some (draw 0); run_ids = draw 0 ∷ []; targets = targets },
  )

  unfoldable pub queue_whatsapp_desktop : (ℕ → String) → ℕ → Daemon → Daemon × Queued
  unfolding whatsapp_desktop_input
  queue_whatsapp_desktop draw now d =
      let account_key = get_default_account_key_for_platform whatsapp in
      let targets = "whatsapp-desktop" ∷ [] in
      if has_queued_or_running_run whatsapp (some account_key) d.runs
      then (d, record { queued = false; run_id = none; run_ids = []; targets = targets })
      else (
        wake wake_ingest (record d {
          runs = queue_sync_run now (draw 0) (whatsapp_desktop_input account_key) d.runs;
        }),
        record { queued = true; run_id = some (draw 0); run_ids = draw 0 ∷ []; targets = targets },
      )

  abbrev finish : Daemon × Queued → Outcome
  finish (d, q) = done d q

  -- A source that is named: the WhatsApp import, a platform's accounts, or the platform as a whole.
  unfoldable pub queue_named_source : (ℕ → String) → ℕ → String → Daemon → Outcome
  unfolding queue_targets queue_source queue_whatsapp_desktop
  queue_named_source draw now source d =
      if source == "whatsapp-desktop"
      then finish (queue_whatsapp_desktop draw now d)
      else if not (is_adapter_platform source)
      then unsupported_source source
      else elim (list_manual_sync_targets source d.integrations) [
        | [] ↦ finish (queue_source draw now (parse_platform source) (some source) (source ∷ []) d)
        | t ∷ ts ↦ finish (queue_targets draw now (t ∷ ts) d)
      ]

  -- `queueSyncRun`. The empty text is no source, but it is kept in the details.
  unfoldable pub queue_sync : (ℕ → String) → ℕ → Option String → Daemon → Outcome
  unfolding queue_named_source
  queue_sync draw now none d = finish (queue_source draw now none none [] d)
  queue_sync draw now (some source) d =
      if is_empty source
      then finish (queue_source draw now none (some source) [] d)
      else queue_named_source draw now source d

  -- The loop of `queueSyncResume`; `n` identifiers have been drawn.
  unfoldable pub resume_targets :
      (ℕ → String) → ℕ → ℕ → List String → RunTables → RunTables × List String
  unfolding target_input
  resume_targets draw now n [] runs = (runs, [])
  resume_targets draw now n (key ∷ keys) runs = elim (parse_run_target_key key) [
    | none ↦ resume_targets draw now n keys runs
    | some (platform, account_key) ↦
        elim (has_queued_or_running_run platform (some account_key) runs) [
          | true ↦ resume_targets draw now n keys runs
          | false ↦
              let (runs', ids) = resume_targets draw now (suc n) keys (
                queue_sync_run now (draw n) (target_input sync_resume platform account_key) runs) in
              (runs', draw n ∷ ids)
        ]
  ]

  -- `queueSyncResume`
  unfoldable pub queue_sync_resume :
      (ℕ → String) → ℕ → List (Platform × String) → Daemon → Daemon × Resumed
  unfolding resume_targets
  queue_sync_resume draw now targets d =
      let keys = unique (map (λ t. target_key (platform_word t.0) t.1) targets) in
      let (runs, run_ids) = resume_targets draw now 0 keys d.runs in
      let d' = record d { runs = runs } in
      (
        elim run_ids [ [] ↦ d' | _ ∷ _ ↦ wake wake_ingest d' ],
        record {
          queued = elim run_ids [ [] ↦ false | _ ∷ _ ↦ true ];
          run_ids = run_ids;
          targets = keys;
        },
      )

  unfoldable pub rebuild_input : Option String → QueueInput
  rebuild_input details_json = record {
    platform = none;
    account_key = none;
    run_type = rebuild;
    trigger = "cli";
    details_json = details_json;
    scheduled_at = none;
    delay_ms = none;
  }

  -- `queueRebuild`; `details_json` is the text of `{ trigger: "cli" }`.
  unfoldable pub queue_rebuild : (ℕ → String) → ℕ → Option String → Daemon → Daemon × String
  unfolding rebuild_input
  queue_rebuild draw now details_json d = (
    wake wake_projection
        (record d { runs = queue_sync_run now (draw 0) (rebuild_input details_json) d.runs }),
    draw 0,
  )
