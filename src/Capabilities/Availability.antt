-- ===== src/Capabilities/Availability.antt =====
-- src/core/platform-capabilities.ts. What the inspections of the helpers' files find is an argument.
use Prim.Native.String.{◌++◌ as append}
use cued.Base.{
  Bool, true, false, not, ◌&&◌, ◌||◌, String, List, [], ◌∷◌, Option, none, some, any, is_some,
  is_empty, Eq, ◌==◌, string_eq, if◌then◌else◌,
}
use cued.Platform.{
  Platform, contacts, imessage, platform_eq, HostOs, macos, windows, linux, host_os_eq,
  host_os_values, host_os_word, AuthState, authorized, authenticated, missing, outdated,
  auth_state_eq, PermissionRequirement, HelperRequirement, signal_cli, slack_helper,
  whatsapp_helper, get_supported_host_os_for_platform, get_platform_permission_requirements,
  get_platform_helper_requirements, is_onboarding_visible_platform,
  platform_supports_multiple_accounts, is_platform_supported_on_host,
}

unfoldable pub HelperRequirement-discrete : Discrete HelperRequirement
HelperRequirement-discrete = hlevel

instance abbrev pub helper_eq : Eq HelperRequirement
helper_eq = record { dec = HelperRequirement-discrete }

pub data Availability : Type 0 where
  available requires_permission requires_helper unsupported_here : Availability

-- A value of an integration's metadata. Numbers, arrays and objects are told apart by whether they
-- count as true only.
pub data Value : Type 0 where
  null_value : Value
  boolean : Bool → Value
  text : String → Value
  another : Bool → Value

-- The fields of the metadata that are read, each of which may be absent.
pub record Metadata : Type 0 where
  pub signal_cli_path : Option Value
  pub signal_version_supported : Option Value
  pub whatsapp_helper_path : Option Value
  pub slack_helper_path : Option Value
  pub slack_helper_version_supported : Option Value

pub record CapabilityIntegration : Type 0 where
  pub platform : Platform
  pub auth_state : AuthState
  pub metadata : Metadata

-- What `inspectWhatsAppHelper` and `inspectSlackHelper` answer.
pub record Inspections : Type 0 where
  pub whatsapp_path : Option String
  pub slack_path : Option String
  pub slack_version_supported : Option Bool

-- Whether a value counts as true.
abbrev pub counts : Option Value → Bool
counts (some (boolean b)) = b
counts (some (text s)) = not (is_empty s)
counts (some (another b)) = b
counts _ = false

abbrev pub path_counts : Option String → Bool
path_counts none = false
path_counts (some path) = not (is_empty path)

abbrev pub is_true : Option Value → Bool
is_true (some (boolean true)) = true
is_true _ = false

abbrev pub is_text : Option Value → Bool
is_text (some (text s)) = true
is_text _ = false

abbrev pub is_null : Option Value → Bool
is_null (some null_value) = true
is_null _ = false

abbrev pub is_boolean : Option Value → Bool
is_boolean (some (boolean b)) = true
is_boolean _ = false

-- On the words of Node's `process.platform`.
unfoldable pub resolve_host_os : String → HostOs
resolve_host_os platform =
    if platform == "darwin"
    then macos
    else if platform == "win32"
    then windows
    else if any (λ os. os == linux) host_os_values
    then linux
    else macos

abbrev pub needs_authorization : Platform → Bool
needs_authorization contacts = true
needs_authorization imessage = true
needs_authorization _ = false

unfoldable pub resolve_permission_availability :
    Option CapabilityIntegration → List PermissionRequirement → Option Availability
resolve_permission_availability none requirements = none
resolve_permission_availability (some i) [] = none
resolve_permission_availability (some i) (r ∷ rs) =
    if needs_authorization i.platform && not (i.auth_state == authorized)
    then some requires_permission
    else none

abbrev pub required_unless : Bool → Option Availability
required_unless true = none
required_unless false = some requires_helper

unfoldable pub signal_availability : Metadata → Option Availability
signal_availability m =
    if is_some m.signal_cli_path || is_some m.signal_version_supported
    then required_unless (counts m.signal_cli_path && is_true m.signal_version_supported)
    else none

unfoldable pub whatsapp_availability : Inspections → Metadata → Option Availability
whatsapp_availability found m =
    if is_text m.whatsapp_helper_path
    then none
    else if is_null m.whatsapp_helper_path
    then some requires_helper
    else required_unless (path_counts found.whatsapp_path)

abbrev pub version_counts : Option Bool → Bool
version_counts (some true) = true
version_counts _ = false

unfoldable pub slack_availability : Inspections → Metadata → Option Availability
slack_availability found m =
    if is_text m.slack_helper_path
      || is_null m.slack_helper_path
      || is_boolean m.slack_helper_version_supported
    then required_unless (counts m.slack_helper_path && is_true m.slack_helper_version_supported)
    else required_unless
        (path_counts found.slack_path && version_counts found.slack_version_supported)

unfoldable pub resolve_helper_availability :
    Inspections → Option CapabilityIntegration → List HelperRequirement → Option Availability
unfolding signal_availability whatsapp_availability slack_availability
resolve_helper_availability found none requirements = none
resolve_helper_availability found (some i) requirements =
    if any (λ r. r == signal_cli) requirements
      && (i.auth_state == missing || i.auth_state == outdated)
    then signal_availability i.metadata
    else if any (λ r. r == whatsapp_helper) requirements && i.auth_state == missing
    then whatsapp_availability found i.metadata
    else if any (λ r. r == slack_helper) requirements && i.auth_state == authenticated
    then slack_availability found i.metadata
    else none

pub record PlatformCapabilitySummary : Type 0 where
  pub platform : Platform
  pub host_os : HostOs
  pub supported_host_os : List HostOs
  pub onboarding_visible : Bool
  pub supports_multiple_accounts : Bool
  pub permission_requirements : List PermissionRequirement
  pub helper_requirements : List HelperRequirement
  pub availability : Availability
  pub reason : Option String

unfoldable pub summary :
    Platform → HostOs → Availability → Option String → PlatformCapabilitySummary
summary p os state why = record {
  platform = p;
  host_os = os;
  supported_host_os = get_supported_host_os_for_platform p;
  onboarding_visible = is_onboarding_visible_platform p;
  supports_multiple_accounts = platform_supports_multiple_accounts p;
  permission_requirements = get_platform_permission_requirements p;
  helper_requirements = get_platform_helper_requirements p;
  availability = state;
  reason = why;
}

unfoldable pub summarize_platform_capability :
    Inspections → Platform → Option CapabilityIntegration → HostOs → PlatformCapabilitySummary
unfolding summary resolve_permission_availability resolve_helper_availability host_os_word
    is_platform_supported_on_host
summarize_platform_capability found p integration os =
    if not (is_platform_supported_on_host p os)
    then summary p os unsupported_here (some (append "Unsupported on " (host_os_word os)))
    else elim (resolve_permission_availability integration
        (get_platform_permission_requirements p)) [
          | some state ↦ summary p os state (some "Permission required")
          | none ↦
              elim (resolve_helper_availability found integration
                (get_platform_helper_requirements p)) [
                  | some state ↦ summary p os state (some "Helper required")
                  | none ↦ summary p os available none
                ]
        ]
