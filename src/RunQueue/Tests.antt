-- ===== src/RunQueue/Tests.antt =====
-- src/runtime/run-queue.ts at concrete inputs.
use cued.Base.{
  is_empty, ℕ, ◌≤◌, true, false, String, List, [], ◌∷◌, Option, some, ◌≡◌, ◌↔◌, refl, arith,
  String-discrete, ℕ_discrete,
}
use cued.Platform.{
  slack, platform_word, authenticated, Platform-discrete, parse_platform, is_adapter_platform,
}
use cued.RunQueue.Target.{
  IntegrationRow, target_key, parse_run_target_key, list_manual_sync_targets,
}
use cued.RunQueue.TargetKey.{parse_run_target_key_iff}
use cued.RunQueue.Service.{Details, Daemon, queue_targets, queue_sync, queue_sync_resume}
use cued.RunQueue.OneRun.{pending, queue_sync_resume-one_run}
use cued.RunQueue.Manual.{queue_sync-one_run}

-- The accounts may hold colons of their own.
abbrev odd_key : String
odd_key = "slack:T1:beta"

odd_key_read : parse_run_target_key odd_key ≡ some (slack, "T1:beta")
unfolding parse_run_target_key String-discrete ℕ_discrete is_adapter_platform parse_platform
odd_key_read = refl

parse_run_target_key_iff_example :
    (parse_run_target_key odd_key ≡ some (slack, "T1:beta"))
    ↔ ((odd_key ≡ target_key (platform_word slack) "T1:beta") × (is_empty "T1:beta" ≡ false))
parse_run_target_key_iff_example = parse_run_target_key_iff odd_key slack "T1:beta"

abbrev source_text : Details → Option String
source_text d = d.source

abbrev draw : ℕ → String
draw n = "run"

abbrev two_teams : List IntegrationRow
two_teams =
    record {
      platform = "slack";
      account_key = "T2";
      auth_state = authenticated;
      enabled = true;
      sync_capable = true;
    }
    ∷ record {
      platform = "slack";
      account_key = "T1";
      auth_state = authenticated;
      enabled = true;
      sync_capable = false;
    }
    ∷ []

abbrev idle : Daemon
idle = record {
  runs = record { sync_runs = []; sync_run_errors = [] };
  integrations = two_teams;
  wakes = [];
}

-- Only the account that can be synced is a target.
slack_targets : list_manual_sync_targets "slack" two_teams ≡ "slack:T2" ∷ []
unfolding list_manual_sync_targets is_adapter_platform parse_platform String-discrete
slack_targets = refl

queue_sync_resume-one_run_example :
    pending slack "T1"
      (queue_sync_resume source_text draw 5 ((slack, "T1") ∷ (slack, "T1") ∷ []) idle).0.runs
    ≡ 1
unfolding pending Platform-discrete String-discrete
queue_sync_resume-one_run_example =
    (queue_sync_resume-one_run source_text draw 5 ((slack, "T1") ∷ (slack, "T1") ∷ []) idle slack
        "T1" (omega arith)).2
      refl refl

abbrev slack_keys : List String
slack_keys = "slack:T2" ∷ []

queue_sync-one_run_example :
    pending slack "T2" (queue_targets source_text draw 5 slack_keys idle).0.runs ≤ 1
unfolding queue_sync list_manual_sync_targets is_adapter_platform parse_platform String-discrete
    pending
queue_sync-one_run_example =
    queue_sync-one_run source_text draw 5 (some "slack") idle
      (queue_targets source_text draw 5 slack_keys idle).0
      (queue_targets source_text draw 5 slack_keys idle).1 slack "T2" refl (omega arith)
