-- ===== src/Runs/Delete.antt =====
-- src/db/database.ts: the methods that delete runs, `resetSource` for a platform and
-- `clearIntegrationRuntimeState` for an account, as far as they change the two tables.
use cued.Base.{◌&&◌, not, String, some, filter_by, ◌==◌, string_eq, option_eq}
use cued.Platform.{Platform, platform_eq}
use cued.Runs.Types.{RunTables}

unfoldable pub reset_source : Platform → RunTables → RunTables
reset_source p db = record {
  sync_runs = filter_by (λ r. not (r.platform == some p)) db.sync_runs;
  sync_run_errors = filter_by (λ e. not (e.platform == some p)) db.sync_run_errors;
}

unfoldable pub clear_integration_runtime_state : Platform → String → RunTables → RunTables
clear_integration_runtime_state p key db = record {
  sync_runs = filter_by (λ r. not (r.platform == some p && r.account_key == some key)) db.sync_runs;
  sync_run_errors =
      filter_by (λ e. not (e.platform == some p && e.account_key == some key)) db.sync_run_errors;
}
