-- ===== src/Capabilities/Tests.antt =====
-- src/core/platform-capabilities.ts at concrete integrations.
use cued.Base.{none, some, refl, ◌≡◌, arith, false}
use cued.Platform.{
  Platform, HostOs, macos, windows, imessage, slack, authorized, authenticated, AuthState-discrete,
  HostOs-discrete, is_platform_supported_on_host, get_platform_permission_requirements,
  get_platform_helper_requirements, AuthState, missing,
}
use cued.Capabilities.Availability.{
  Availability, available, requires_permission, requires_helper, unsupported_here, Inspections,
  Metadata, CapabilityIntegration, summarize_platform_capability, summary,
  resolve_permission_availability, resolve_helper_availability, HelperRequirement-discrete,
  slack_availability, text, boolean,
}
use cued.Capabilities.Permission.{summarize_platform_capability-authorized}

abbrev nothing_found : Inspections
nothing_found = record { whatsapp_path = none; slack_path = none; slack_version_supported = none }

abbrev no_metadata : Metadata
no_metadata = record {
  signal_cli_path = none;
  signal_version_supported = none;
  whatsapp_helper_path = none;
  slack_helper_path = none;
  slack_helper_version_supported = none;
}

abbrev messages : AuthState → CapabilityIntegration
messages state = record { platform = imessage; auth_state = state; metadata = no_metadata }

abbrev availability_on : HostOs → Platform → CapabilityIntegration → Availability
availability_on os p i = (summarize_platform_capability nothing_found p (some i) os).availability

messages_available : availability_on macos imessage (messages authorized) ≡ available
unfolding summarize_platform_capability summary resolve_permission_availability
    resolve_helper_availability AuthState-discrete HostOs-discrete HelperRequirement-discrete
    is_platform_supported_on_host get_platform_permission_requirements
    get_platform_helper_requirements
messages_available = refl

messages_refused : availability_on macos imessage (messages missing) ≡ requires_permission
unfolding summarize_platform_capability summary resolve_permission_availability
    resolve_helper_availability AuthState-discrete HostOs-discrete HelperRequirement-discrete
    is_platform_supported_on_host get_platform_permission_requirements
    get_platform_helper_requirements
messages_refused = refl

messages_on_windows : availability_on windows imessage (messages authorized) ≡ unsupported_here
unfolding summarize_platform_capability summary HostOs-discrete is_platform_supported_on_host
messages_on_windows = refl

abbrev old_helper : CapabilityIntegration
old_helper = record {
  platform = slack;
  auth_state = authenticated;
  metadata = record {
    signal_cli_path = none;
    signal_version_supported = none;
    whatsapp_helper_path = none;
    slack_helper_path = some (text "/opt/slack");
    slack_helper_version_supported = some (boolean false);
  };
}

old_helper_refused : availability_on macos slack old_helper ≡ requires_helper
unfolding summarize_platform_capability summary resolve_permission_availability slack_availability
    resolve_helper_availability AuthState-discrete HostOs-discrete HelperRequirement-discrete
    is_platform_supported_on_host get_platform_permission_requirements
    get_platform_helper_requirements
old_helper_refused = refl

summarize_platform_capability-authorized_example : (messages authorized).auth_state ≡ authorized
unfolding get_platform_permission_requirements
summarize_platform_capability-authorized_example =
    summarize_platform_capability-authorized nothing_found imessage (messages authorized) macos refl
      (omega arith) messages_available
