-- ===== src/RunQueue/Manual.antt =====
-- src/runtime/run-queue.ts, `queueSyncRun`: a manual sync, on every way through the method.
use cued.Base.{
  ℕ, suc, ◌+◌, ◌≤◌, ◌<◌, ◌&&◌, not, String, List, [], ◌∷◌, map, Option, none, some, ◌==◌, string_eq,
  option_eq, if◌then◌else◌, ◌≡◌, refl, ap, ◌∙◌, arith, Option-cases, filter_by,
}
use cued.Platform.{
  Platform, whatsapp, platform_eq, platform_word, parse_platform, run_status_eq,
  get_default_account_key_for_platform,
}
use cued.Runs.{
  RunTables, QueueInput, queued_row, queue_sync_run, count_where, queue_each,
  queue_sync_runs-queue_each, queue_each_rows,
}
use cued.RunQueue.Target.{target_key, parse_run_target_key, unique, list_manual_sync_targets}
use cued.RunQueue.TargetKey.{parse_run_target_key_iff}
use cued.RunQueue.Service.{
  Details, Daemon, Queued, done, with_ids, target_input, source_input, whatsapp_desktop_input,
  free_targets, queue_targets, queue_source, queue_whatsapp_desktop, queue_named_source, queue_sync,
}
use cued.RunQueue.OneRun.{is_pending, pending, count_where-append, has_queued-pending}

-- How often a key stands in a list of keys.
times : String → List String → ℕ
times j [] = 0
times j (k ∷ ks) = let rest = times j ks in if k == j then suc rest else rest

times-filter_self : (k : String) (ks : List String) → times k (filter_by (λ j. not (j == k)) ks) ≡ 0
unfolding times
times-filter_self k [] = refl
times-filter_self k (j ∷ ks) = ground (arith, times-filter_self k ks)

times-filter-le :
    (j k : String) (ks : List String) → times j (filter_by (λ i. not (i == k)) ks) ≤ times j ks
unfolding times
times-filter-le j k [] = omega arith
times-filter-le j k (i ∷ ks) = ground (arith, times-filter-le j k ks)

times-unique-le : (j : String) (ks : List String) → times j (unique ks) ≤ 1
unfolding times unique
times-unique-le j [] = omega arith
times-unique-le j (k ∷ ks) =
    ground (
      arith,
      times-unique-le j ks,
      times-filter_self k (unique ks),
      times-filter-le j k (unique ks),
    )

module _ (stringify : Details → Option String) (p : Platform) (k : String) where
  -- The inputs for one account.
  hits : List (String × QueueInput) → ℕ
  hits [] = 0
  hits (e ∷ es) =
      let rest = hits es in
      if (e.1.platform == some p) && (e.1.account_key == some k) then suc rest else rest

  hits-free_targets-le :
      (runs : RunTables) (keys : List String)
      → hits (free_targets stringify runs keys) ≤ times (target_key (platform_word p) k) keys
  unfolding hits free_targets times target_input
  hits-free_targets-le runs [] = omega arith
  hits-free_targets-le runs (key ∷ keys) =
      let read = (parse_run_target_key_iff key p k).0 in
      ground (arith, hits-free_targets-le runs keys, Option-cases (parse_run_target_key key), read)

  hits-free_targets-none :
      (runs : RunTables) (keys : List String)
      → 0 < pending p k runs
      → hits (free_targets stringify runs keys) ≡ 0
  unfolding hits free_targets target_input
  hits-free_targets-none runs [] h = refl
  hits-free_targets-none runs (key ∷ keys) h = ground (
    arith,
    hits-free_targets-none runs keys h,
    Option-cases (parse_run_target_key key),
    has_queued-pending p k runs,
  )

  pending-with_ids :
      (draw : ℕ → String) (now n : ℕ) (es : List (String × QueueInput))
      → count_where
          (is_pending p k)
          (map (λ e. queued_row now e.0 e.1) (with_ids draw n (map (λ e. e.1) es)))
        ≡ hits es
  unfolding hits queued_row
  pending-with_ids draw now n [] = refl
  pending-with_ids draw now n (e ∷ es) = ground (arith, pending-with_ids draw now (suc n) es)

  runs-queue_targets :
      (draw : ℕ → String) (now : ℕ) (keys : List String) (d : Daemon)
      → (queue_targets stringify draw now keys d).0.runs
        ≡ queue_each now
            (with_ids draw 0 (map (λ e. e.1) (free_targets stringify d.runs keys)))
            d.runs
  unfolding queue_targets
  runs-queue_targets draw now keys d =
      let inputs = with_ids draw 0 (map (λ e. e.1) (free_targets stringify d.runs keys)) in
      ground (arith, queue_sync_runs-queue_each now inputs d.runs)

  pending-queue_targets :
      (draw : ℕ → String) (now : ℕ) (keys : List String) (d : Daemon)
      → pending p k (queue_targets stringify draw now keys d).0.runs
        ≡ pending p k d.runs + hits (free_targets stringify d.runs keys)
  unfolding pending
  pending-queue_targets draw now keys d =
      let free = free_targets stringify d.runs keys in
      let inputs = with_ids draw 0 (map (λ e. e.1) free) in
      ap (pending p k) (runs-queue_targets draw now keys d ∙ queue_each_rows now inputs d.runs)
      ∙ count_where-append (is_pending p k) d.runs.sync_runs _
      ∙ ap (λ n. pending p k d.runs + n) (pending-with_ids draw now 0 free)

  queue_targets-one_run :
      (draw : ℕ → String) (now : ℕ) (keys : List String) (d : Daemon)
      → times (target_key (platform_word p) k) keys ≤ 1
      → pending p k d.runs ≤ 1
      → pending p k (queue_targets stringify draw now keys d).0.runs ≤ 1
  queue_targets-one_run draw now keys d single one =
      rw (pending-queue_targets draw now keys d)
        (ground (arith, hits-free_targets-le d.runs keys, hits-free_targets-none d.runs keys))

  pending-queue_sync_run :
      (now : ℕ) (id : String) (input : QueueInput) (runs : RunTables)
      → pending p k (queue_sync_run now id input runs)
        ≡ pending p k runs
          + (if (input.platform == some p) && (input.account_key == some k) then 1 else 0)
  unfolding pending queue_sync_run queued_row
  pending-queue_sync_run now id input runs =
      count_where-append (is_pending p k) runs.sync_runs _ ∙ ground arith

  pending-queue_source :
      (draw : ℕ → String) (now : ℕ) (platform : Option Platform) (source : Option String)
      (targets : List String) (d : Daemon)
      → pending p k (queue_source stringify draw now platform source targets d).0.runs
        ≡ pending p k d.runs
  unfolding queue_source source_input
  pending-queue_source draw now platform source targets d =
      ground
        (arith, pending-queue_sync_run now (draw 0) (source_input stringify platform source) d.runs)

  queue_whatsapp_desktop-one_run :
      (draw : ℕ → String) (now : ℕ) (d : Daemon)
      → pending p k d.runs ≤ 1
      → pending p k (queue_whatsapp_desktop stringify draw now d).0.runs ≤ 1
  unfolding queue_whatsapp_desktop whatsapp_desktop_input
  queue_whatsapp_desktop-one_run draw now d one =
      let key = get_default_account_key_for_platform whatsapp in
      ground (
        arith,
        pending-queue_sync_run now (draw 0) (whatsapp_desktop_input stringify key) d.runs,
        has_queued-pending whatsapp key d.runs,
      )

times-choice :
    (j : String) (xs ys : List String)
    → times j (elim xs [ [] ↦ unique ys | x ∷ rest ↦ unique (x ∷ rest) ]) ≤ 1
times-choice j [] ys = times-unique-le j ys
times-choice j (x ∷ xs) ys = times-unique-le j (x ∷ xs)

times-list_manual_sync_targets-le :
    (j source : String) (d : Daemon) → times j (list_manual_sync_targets source d.integrations) ≤ 1
unfolding list_manual_sync_targets
times-list_manual_sync_targets-le j source d = times-choice j _ _

-- A manual sync, of everything, of a platform with or without accounts, or of the WhatsApp
-- import, leaves no account with two pending runs, if none had two before.
pub queue_sync-one_run :
    (stringify : Details → Option String) (draw : ℕ → String) (now : ℕ) (source : Option String)
    (d after : Daemon) (answer : Queued) (p : Platform) (k : String)
    → queue_sync stringify draw now source d ≡ done after answer
    → pending p k d.runs ≤ 1
    → pending p k after.runs ≤ 1
unfolding queue_sync queue_named_source
queue_sync-one_run stringify draw now none d after answer p k e one =
    ground (arith, pending-queue_source stringify p k draw now none none [] d)
queue_sync-one_run stringify draw now (some source) d after answer p k e one =
    let targets = list_manual_sync_targets source d.integrations in
    let key = target_key (platform_word p) k in
    ground (
      arith,
      pending-queue_source stringify p k draw now none (some source) [] d,
      pending-queue_source stringify p k draw now (parse_platform source) (some source)
          (source ∷ []) d,
      queue_whatsapp_desktop-one_run stringify p k draw now d one,
      queue_targets-one_run stringify p k draw now targets d
          (times-list_manual_sync_targets-le key source d) one,
    )
