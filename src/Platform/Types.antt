-- ===== src/Platform/Types.antt =====
-- src/platforms/core/types.ts: the enumerations. A union of string literals is a data type
-- with one constructor for each literal; the literals themselves are in Words.
use cued.Base.{ℕ, Bool, List, [], ◌∷◌, String, Option, Eq}

pub data Platform : Type 0 where
  contacts discord gmail imessage linkedin signal slack whatsapp : Platform

pub data HostOs : Type 0 where
  macos windows linux : HostOs

-- `contacts` here is the permission, not the platform.
pub data PermissionRequirement : Type 0 where
  contacts_access full_disk_access : PermissionRequirement

pub data HelperRequirement : Type 0 where
  signal_cli slack_helper whatsapp_helper : HelperRequirement

pub data Feature : Type 0 where
  receive realtime_ingest full_history_sync message_edits deletes : Feature
  reactions threads_replies read_receipts attachments contact_sync : Feature

pub data FeatureSupport : Type 0 where
  supported partial unsupported : FeatureSupport

pub data SyncMode : Type 0 where
  full incremental : SyncMode

pub data SyncRunType : Type 0 where
  sync sync_resume project rebuild : SyncRunType

pub data SyncRunStatus : Type 0 where
  queued ingesting projecting completed failed : SyncRunStatus

pub data EntityKind : Type 0 where
  contact conversation call message reaction participant timeline_event : EntityKind

pub data AuthState : Type 0 where
  authenticated authorized blocked cancelled check_failed auth_failed in_progress : AuthState
  missing native_helper_missing needs_auth needs_full_disk_access not_determined : AuthState
  outdated requested unknown : AuthState

pub data RuntimeKind : Type 0 where
  chromium native oauth qr_native : RuntimeKind

abbrev pub platform_values : List Platform
platform_values = contacts ∷ discord ∷ gmail ∷ imessage ∷ linkedin ∷ signal ∷ slack ∷ whatsapp ∷ []

abbrev pub host_os_values : List HostOs
host_os_values = macos ∷ windows ∷ linux ∷ []

abbrev pub auth_state_values : List AuthState
auth_state_values =
    authenticated ∷ authorized ∷ blocked ∷ cancelled ∷ check_failed ∷ auth_failed ∷ in_progress
    ∷ missing ∷ native_helper_missing ∷ needs_auth ∷ needs_full_disk_access ∷ not_determined
    ∷ outdated ∷ requested ∷ unknown ∷ []

abbrev pub runtime_kind_values : List RuntimeKind
runtime_kind_values = chromium ∷ native ∷ oauth ∷ qr_native ∷ []

unfoldable pub Platform-discrete : Discrete Platform
Platform-discrete = hlevel

instance abbrev pub platform_eq : Eq Platform
platform_eq = record { dec = Platform-discrete }

unfoldable pub HostOs-discrete : Discrete HostOs
HostOs-discrete = hlevel

instance abbrev pub host_os_eq : Eq HostOs
host_os_eq = record { dec = HostOs-discrete }

unfoldable pub SyncRunType-discrete : Discrete SyncRunType
SyncRunType-discrete = hlevel

instance abbrev pub run_type_eq : Eq SyncRunType
run_type_eq = record { dec = SyncRunType-discrete }

unfoldable pub SyncRunStatus-discrete : Discrete SyncRunStatus
SyncRunStatus-discrete = hlevel

instance abbrev pub run_status_eq : Eq SyncRunStatus
run_status_eq = record { dec = SyncRunStatus-discrete }

unfoldable pub AuthState-discrete : Discrete AuthState
AuthState-discrete = hlevel

instance abbrev pub auth_state_eq : Eq AuthState
auth_state_eq = record { dec = AuthState-discrete }

-- The row of the platform table, `PlatformDefinition`.
pub record Definition : Type 0 where
  pub adapter : Bool
  pub default_account_key : String
  pub supports_multiple_accounts : Bool
  pub requestable_integration : Bool
  pub requestable_order : Option ℕ
  pub supported_host_os : List HostOs
  pub onboarding_visible : Bool
  pub permission_requirements : List PermissionRequirement
  pub helper_requirements : List HelperRequirement
