-- ===== src/Platform/Catalog.antt =====
-- src/platforms/core/types.ts: `PLATFORM_DEFINITIONS` and the functions that read it.
use cued.Base.{
  ℕ, Bool, true, false, String, List, [], ◌∷◌, none, some, ◌==◌, any, leb, or_else, filter_by,
  sort_by,
}
use cued.Platform.Types.{
  Platform, contacts, discord, gmail, imessage, linkedin, signal, slack, whatsapp, HostOs, macos,
  windows, linux, host_os_eq, PermissionRequirement, contacts_access, full_disk_access,
  HelperRequirement, signal_cli, slack_helper, whatsapp_helper, Definition, platform_values,
}

unfoldable pub platform_definitions : Platform → Definition
platform_definitions contacts = record {
  adapter = true;
  default_account_key = "local";
  supports_multiple_accounts = false;
  requestable_integration = false;
  requestable_order = none;
  supported_host_os = macos ∷ [];
  onboarding_visible = true;
  permission_requirements = contacts_access ∷ [];
  helper_requirements = [];
}
platform_definitions gmail = record {
  adapter = true;
  default_account_key = "default";
  supports_multiple_accounts = true;
  requestable_integration = true;
  requestable_order = some 2;
  supported_host_os = macos ∷ windows ∷ linux ∷ [];
  onboarding_visible = true;
  permission_requirements = [];
  helper_requirements = [];
}
platform_definitions imessage = record {
  adapter = true;
  default_account_key = "local";
  supports_multiple_accounts = false;
  requestable_integration = false;
  requestable_order = none;
  supported_host_os = macos ∷ [];
  onboarding_visible = true;
  permission_requirements = full_disk_access ∷ [];
  helper_requirements = [];
}
platform_definitions discord = record {
  adapter = true;
  default_account_key = "default";
  supports_multiple_accounts = false;
  requestable_integration = true;
  requestable_order = some 3;
  supported_host_os = macos ∷ windows ∷ linux ∷ [];
  onboarding_visible = true;
  permission_requirements = [];
  helper_requirements = [];
}
platform_definitions linkedin = record {
  adapter = true;
  default_account_key = "default";
  supports_multiple_accounts = false;
  requestable_integration = true;
  requestable_order = some 4;
  supported_host_os = macos ∷ windows ∷ linux ∷ [];
  onboarding_visible = true;
  permission_requirements = [];
  helper_requirements = [];
}
platform_definitions signal = record {
  adapter = true;
  default_account_key = "default";
  supports_multiple_accounts = false;
  requestable_integration = true;
  requestable_order = some 6;
  supported_host_os = macos ∷ windows ∷ linux ∷ [];
  onboarding_visible = true;
  permission_requirements = [];
  helper_requirements = signal_cli ∷ [];
}
platform_definitions slack = record {
  adapter = true;
  default_account_key = "default";
  supports_multiple_accounts = true;
  requestable_integration = true;
  requestable_order = some 1;
  supported_host_os = macos ∷ windows ∷ linux ∷ [];
  onboarding_visible = true;
  permission_requirements = [];
  helper_requirements = slack_helper ∷ [];
}
platform_definitions whatsapp = record {
  adapter = true;
  default_account_key = "default";
  supports_multiple_accounts = false;
  requestable_integration = true;
  requestable_order = some 5;
  supported_host_os = macos ∷ windows ∷ linux ∷ [];
  onboarding_visible = true;
  permission_requirements = [];
  helper_requirements = whatsapp_helper ∷ [];
}

unfoldable pub adapter_platform_values : List Platform
unfolding platform_definitions
adapter_platform_values = filter_by (λ p. (platform_definitions p).adapter) platform_values

-- `Number.MAX_SAFE_INTEGER`
abbrev pub max_safe_integer : ℕ
max_safe_integer = 9007199254740991

-- The key by which the requestable platforms are sorted.
unfoldable pub request_rank : Platform → ℕ
unfolding platform_definitions
request_rank p = or_else (platform_definitions p).requestable_order max_safe_integer

unfoldable pub requestable_integration_platform_values : List Platform
unfolding platform_definitions request_rank
requestable_integration_platform_values =
    sort_by (λ p q. leb (request_rank p) (request_rank q))
      (filter_by (λ p. (platform_definitions p).requestable_integration) platform_values)

unfoldable pub get_default_account_key_for_platform : Platform → String
unfolding platform_definitions
get_default_account_key_for_platform p = (platform_definitions p).default_account_key

unfoldable pub platform_supports_multiple_accounts : Platform → Bool
unfolding platform_definitions
platform_supports_multiple_accounts p = (platform_definitions p).supports_multiple_accounts

unfoldable pub get_supported_host_os_for_platform : Platform → List HostOs
unfolding platform_definitions
get_supported_host_os_for_platform p = (platform_definitions p).supported_host_os

unfoldable pub is_platform_supported_on_host : Platform → HostOs → Bool
unfolding platform_definitions
is_platform_supported_on_host p os = any (λ h. h == os) (platform_definitions p).supported_host_os

unfoldable pub is_onboarding_visible_platform : Platform → Bool
unfolding platform_definitions
is_onboarding_visible_platform p = (platform_definitions p).onboarding_visible

unfoldable pub get_platform_permission_requirements : Platform → List PermissionRequirement
unfolding platform_definitions
get_platform_permission_requirements p = (platform_definitions p).permission_requirements

unfoldable pub get_platform_helper_requirements : Platform → List HelperRequirement
unfolding platform_definitions
get_platform_helper_requirements p = (platform_definitions p).helper_requirements
