-- ===== src/AccountKey/Tests.antt =====
-- src/platforms/core/account-keys.ts at concrete keys.
use cued.Base.{String, none, some, ◌≡◌, refl, inl, inr, String-discrete, ℕ_discrete, trim}
use cued.Platform.{slack, platform_word}
use cued.RunQueue.{target_key, parse_run_target_key}
use cued.AccountKey.Validate.{
  outer_space, path_segment, validate_integration_account_key, resolve_integration_account_key,
}
use cued.AccountKey.Laws.{resolve_integration_account_key-parse_run_target_key}

abbrev team_key : String
team_key = "T1:beta"

team_key_accepted : validate_integration_account_key team_key ≡ inr team_key
unfolding validate_integration_account_key String-discrete ℕ_discrete trim
team_key_accepted = refl

spaced_refused : validate_integration_account_key " T1" ≡ inl outer_space
unfolding validate_integration_account_key String-discrete ℕ_discrete trim
spaced_refused = refl

parent_refused : validate_integration_account_key ".." ≡ inl path_segment
unfolding validate_integration_account_key String-discrete ℕ_discrete trim
parent_refused = refl

default_accepted : resolve_integration_account_key none team_key ≡ inr team_key
unfolding resolve_integration_account_key validate_integration_account_key String-discrete
    ℕ_discrete trim
default_accepted = refl

resolve_integration_account_key-parse_run_target_key_example :
    parse_run_target_key (target_key (platform_word slack) team_key) ≡ some (slack, team_key)
resolve_integration_account_key-parse_run_target_key_example =
    resolve_integration_account_key-parse_run_target_key none team_key team_key slack
      default_accepted
