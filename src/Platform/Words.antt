-- ===== src/Platform/Words.antt =====
-- src/platforms/core/types.ts: the words that stand for the values in rows, requests and
-- environment variables, and the functions that recognise them. `is…` tests membership in the set
-- of words; `parse…` gives back the value that the word stands for.
use cued.Base.{Bool, String, Option, none, some, any, ◌==◌, find_by, string_eq, or_else}
use cued.Platform.Types.{
  Platform, contacts, discord, gmail, imessage, linkedin, signal, slack, whatsapp, HostOs, macos,
  windows, linux, platform_values, host_os_values, AuthState, authenticated, authorized, blocked,
  cancelled, check_failed, auth_failed, in_progress, missing, native_helper_missing, needs_auth,
  needs_full_disk_access, not_determined, outdated, requested, unknown, auth_state_values,
  RuntimeKind, chromium, native, oauth, qr_native, runtime_kind_values,
}
use cued.Platform.Catalog.{adapter_platform_values, requestable_integration_platform_values}

unfoldable pub platform_word : Platform → String
platform_word contacts = "contacts"
platform_word discord = "discord"
platform_word gmail = "gmail"
platform_word imessage = "imessage"
platform_word linkedin = "linkedin"
platform_word signal = "signal"
platform_word slack = "slack"
platform_word whatsapp = "whatsapp"

unfoldable pub host_os_word : HostOs → String
host_os_word macos = "macos"
host_os_word windows = "windows"
host_os_word linux = "linux"

unfoldable pub auth_state_word : AuthState → String
auth_state_word authenticated = "authenticated"
auth_state_word authorized = "authorized"
auth_state_word blocked = "blocked"
auth_state_word cancelled = "cancelled"
auth_state_word check_failed = "check_failed"
auth_state_word auth_failed = "failed"
auth_state_word in_progress = "in_progress"
auth_state_word missing = "missing"
auth_state_word native_helper_missing = "native_helper_missing"
auth_state_word needs_auth = "needs_auth"
auth_state_word needs_full_disk_access = "needs_full_disk_access"
auth_state_word not_determined = "not_determined"
auth_state_word outdated = "outdated"
auth_state_word requested = "requested"
auth_state_word unknown = "unknown"

unfoldable pub runtime_kind_word : RuntimeKind → String
runtime_kind_word chromium = "chromium"
runtime_kind_word native = "native"
runtime_kind_word oauth = "oauth"
runtime_kind_word qr_native = "qr_native"

unfoldable pub is_platform : String → Bool
unfolding platform_word
is_platform value = any (λ p. platform_word p == value) platform_values

unfoldable pub is_adapter_platform : String → Bool
unfolding platform_word adapter_platform_values
is_adapter_platform value = any (λ p. platform_word p == value) adapter_platform_values

unfoldable pub is_requestable_integration_platform : String → Bool
unfolding platform_word requestable_integration_platform_values
is_requestable_integration_platform value =
    any (λ p. platform_word p == value) requestable_integration_platform_values

-- The value whose word it is: what `value` itself is once it is known to be a platform.
unfoldable pub parse_platform : String → Option Platform
unfolding platform_word
parse_platform value = find_by (λ p. platform_word p == value) platform_values

unfoldable pub is_host_os : String → Bool
unfolding host_os_word
is_host_os value = any (λ h. host_os_word h == value) host_os_values

-- `value && isHostOS(value) ? value : null`; a missing value is `none`.
unfoldable pub parse_host_os : Option String → Option HostOs
unfolding host_os_word
parse_host_os none = none
parse_host_os (some value) = find_by (λ h. host_os_word h == value) host_os_values

unfoldable pub is_integration_auth_state : String → Bool
unfolding auth_state_word
is_integration_auth_state value = any (λ a. auth_state_word a == value) auth_state_values

unfoldable pub parse_integration_auth_state : Option String → AuthState → AuthState
unfolding auth_state_word
parse_integration_auth_state none fallback = fallback
parse_integration_auth_state (some value) fallback =
    or_else (find_by (λ a. auth_state_word a == value) auth_state_values) fallback

unfoldable pub is_integration_runtime_kind : String → Bool
unfolding runtime_kind_word
is_integration_runtime_kind value = any (λ k. runtime_kind_word k == value) runtime_kind_values

unfoldable pub parse_integration_runtime_kind : Option String → RuntimeKind → RuntimeKind
unfolding runtime_kind_word
parse_integration_runtime_kind none fallback = fallback
parse_integration_runtime_kind (some value) fallback =
    or_else (find_by (λ k. runtime_kind_word k == value) runtime_kind_values) fallback
