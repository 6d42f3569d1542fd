-- ===== src/RunQueue/Target.antt =====
-- src/runtime/run-queue.ts: the targets of a manual sync, written `platform:account`; with the
-- queries of src/db/database.ts that list them.
use Prim.Native.Char.{code}
use Prim.Native.String.{◌++◌ as append}
use cued.Base.{
  is_empty, text_le, Bool, ◌&&◌, ◌||◌, not, String, List, [], ◌∷◌, map, Option, none, some,
  filter_by, sort_by, is_some, ◌==◌, nat_eq, string_eq, option_eq, if◌then◌else◌,
}
use cued.Platform.{
  Platform, parse_platform, is_adapter_platform, AuthState, authenticated, authorized,
  auth_state_eq,
}

-- A row of `integration_states`, as far as the queries below read it. The platform is a text: the
-- table may hold rows of a platform that this version does not know.
pub record IntegrationRow : Type 0 where
  pub platform : String
  pub account_key : String
  pub auth_state : AuthState
  pub enabled : Bool
  pub sync_capable : Bool

-- `platform`, `":"` and `account_key` after one another.
abbrev pub target_key : String → String → String
target_key platform account_key = append platform (append ":" account_key)

-- The text before the first colon and the text after it.
unfoldable pub split_at_colon : String → Option (String × String)
split_at_colon String.[] = none
split_at_colon (String.◌∷◌ c s) =
    let rest = split_at_colon s in
    if code c == b':'
    then some (String.[], s)
    else elim rest [ none ↦ none | some (before, after) ↦ some (String.◌∷◌ c before, after) ]

-- The tests of `parseRunTargetKey` on the two parts. The platform is given as the value that the
-- text names.
unfoldable pub target_of : String → String → Option (Platform × String)
target_of platform account_key =
    if is_empty platform || is_empty account_key
    then none
    else if not (is_adapter_platform platform)
    then none
    else elim (parse_platform platform) [ none ↦ none | some p ↦ some (p, account_key) ]

-- `parseRunTargetKey`
unfoldable pub parse_run_target_key : String → Option (Platform × String)
unfolding split_at_colon target_of
parse_run_target_key key = elim (split_at_colon key) [
  | none ↦ none
  | some (platform, account_key) ↦ target_of platform account_key
]

row_le : IntegrationRow → IntegrationRow → Bool
unfolding text_le
row_le r s =
    if r.platform == s.platform
    then text_le r.account_key s.account_key
    else text_le r.platform s.platform

unfoldable pub list_integration_states : List IntegrationRow → List IntegrationRow
unfolding row_le
list_integration_states rows =
    filter_by (λ r. is_some (parse_platform r.platform)) (sort_by row_le rows)

unfoldable pub list_enabled_sync_targets : List IntegrationRow → List IntegrationRow
unfolding row_le
list_enabled_sync_targets rows =
    filter_by (λ r. is_some (parse_platform r.platform))
      (sort_by row_le (filter_by (λ r. r.enabled && r.sync_capable) rows))

-- `[...new Set(keys)]`: each key where it first stands.
unfoldable pub unique : List String → List String
unique [] = []
unique (k ∷ ks) = k ∷ filter_by (λ j. not (j == k)) (unique ks)

-- `listManualSyncTargets`: the accounts that can be synced, and if there is none, the accounts
-- that are signed in.
unfoldable pub list_manual_sync_targets : String → List IntegrationRow → List String
unfolding list_enabled_sync_targets list_integration_states unique
list_manual_sync_targets source rows =
    let capable =
      map (λ r. target_key r.platform r.account_key)
        (filter_by (λ r. is_adapter_platform r.platform && r.platform == source)
          (list_enabled_sync_targets rows)) in
    let signed_in =
      map (λ r. target_key r.platform r.account_key)
        (filter_by
          (λ r.
            r.platform == source
            && r.enabled
            && (r.auth_state == authenticated || r.auth_state == authorized))
          (list_integration_states rows)) in
    elim capable [ [] ↦ unique signed_in | k ∷ ks ↦ unique (k ∷ ks) ]
