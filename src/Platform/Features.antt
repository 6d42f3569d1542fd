-- ===== src/Platform/Features.antt =====
-- src/platforms/core/types.ts: `PLATFORM_FEATURE_MATRIX`, a row for each platform.
use cued.Platform.Types.{
  Platform, contacts, discord, gmail, imessage, linkedin, signal, slack, whatsapp, Feature, receive,
  realtime_ingest, full_history_sync, message_edits, deletes, reactions, threads_replies,
  read_receipts, attachments, contact_sync, FeatureSupport, supported, partial, unsupported,
}

-- `getPlatformFeatureMatrixRow`: a row is a function of the feature.
unfoldable pub platform_feature_matrix : Platform → Feature → FeatureSupport
platform_feature_matrix contacts receive = unsupported
platform_feature_matrix contacts realtime_ingest = supported
platform_feature_matrix contacts full_history_sync = supported
platform_feature_matrix contacts message_edits = unsupported
platform_feature_matrix contacts deletes = unsupported
platform_feature_matrix contacts reactions = unsupported
platform_feature_matrix contacts threads_replies = unsupported
platform_feature_matrix contacts read_receipts = unsupported
platform_feature_matrix contacts attachments = unsupported
platform_feature_matrix contacts contact_sync = supported
platform_feature_matrix gmail receive = supported
platform_feature_matrix gmail realtime_ingest = partial
platform_feature_matrix gmail full_history_sync = supported
platform_feature_matrix gmail message_edits = unsupported
platform_feature_matrix gmail deletes = partial
platform_feature_matrix gmail reactions = unsupported
platform_feature_matrix gmail threads_replies = supported
platform_feature_matrix gmail read_receipts = unsupported
platform_feature_matrix gmail attachments = partial
platform_feature_matrix gmail contact_sync = partial
platform_feature_matrix imessage receive = supported
platform_feature_matrix imessage realtime_ingest = supported
platform_feature_matrix imessage full_history_sync = supported
platform_feature_matrix imessage message_edits = unsupported
platform_feature_matrix imessage deletes = unsupported
platform_feature_matrix imessage reactions = supported
platform_feature_matrix imessage threads_replies = unsupported
platform_feature_matrix imessage read_receipts = partial
platform_feature_matrix imessage attachments = supported
platform_feature_matrix imessage contact_sync = partial
platform_feature_matrix discord receive = supported
platform_feature_matrix discord realtime_ingest = supported
platform_feature_matrix discord full_history_sync = unsupported
platform_feature_matrix discord message_edits = unsupported
platform_feature_matrix discord deletes = unsupported
platform_feature_matrix discord reactions = unsupported
platform_feature_matrix discord threads_replies = partial
platform_feature_matrix discord read_receipts = unsupported
platform_feature_matrix discord attachments = supported
platform_feature_matrix discord contact_sync = partial
platform_feature_matrix linkedin receive = supported
platform_feature_matrix linkedin realtime_ingest = supported
platform_feature_matrix linkedin full_history_sync = partial
platform_feature_matrix linkedin message_edits = supported
platform_feature_matrix linkedin deletes = supported
platform_feature_matrix linkedin reactions = supported
platform_feature_matrix linkedin threads_replies = supported
platform_feature_matrix linkedin read_receipts = partial
platform_feature_matrix linkedin attachments = supported
platform_feature_matrix linkedin contact_sync = supported
platform_feature_matrix signal receive = supported
platform_feature_matrix signal realtime_ingest = supported
platform_feature_matrix signal full_history_sync = unsupported
platform_feature_matrix signal message_edits = unsupported
platform_feature_matrix signal deletes = unsupported
platform_feature_matrix signal reactions = unsupported
platform_feature_matrix signal threads_replies = unsupported
platform_feature_matrix signal read_receipts = unsupported
platform_feature_matrix signal attachments = supported
platform_feature_matrix signal contact_sync = partial
platform_feature_matrix slack receive = supported
platform_feature_matrix slack realtime_ingest = supported
platform_feature_matrix slack full_history_sync = supported
platform_feature_matrix slack message_edits = partial
platform_feature_matrix slack deletes = unsupported
platform_feature_matrix slack reactions = partial
platform_feature_matrix slack threads_replies = supported
platform_feature_matrix slack read_receipts = unsupported
platform_feature_matrix slack attachments = supported
platform_feature_matrix slack contact_sync = supported
platform_feature_matrix whatsapp receive = supported
platform_feature_matrix whatsapp realtime_ingest = supported
platform_feature_matrix whatsapp full_history_sync = supported
platform_feature_matrix whatsapp message_edits = unsupported
platform_feature_matrix whatsapp deletes = unsupported
platform_feature_matrix whatsapp reactions = unsupported
platform_feature_matrix whatsapp threads_replies = unsupported
platform_feature_matrix whatsapp read_receipts = partial
platform_feature_matrix whatsapp attachments = supported
platform_feature_matrix whatsapp contact_sync = partial

unfoldable pub get_platform_feature_support : Platform → Feature → FeatureSupport
unfolding platform_feature_matrix
get_platform_feature_support p f = platform_feature_matrix p f
