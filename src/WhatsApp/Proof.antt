-- ===== src/WhatsApp/Proof.antt =====
-- src/platforms/whatsapp/sync/proof.ts: what a resync over several pages has covered, and the proof
-- that is stored of it. The timestamp of a message is `none` where it is not a finite number.
use cued.Base.{
  ℕ, ◌+◌, ◌-◌, min, max, Bool, String, List, [], ◌∷◌, Option, none, some, ℤ, pos_part,
  if◌then◌else◌,
}
use cued.Platform.{SyncMode, full, incremental}

pub record WhatsAppResyncStats : Type 0 where
  pub page_count : ℕ
  pub contact_count : ℕ
  pub chat_count : ℕ
  pub message_count : ℕ
  pub raw_event_count : ℕ

pub record WhatsAppResyncCoverage : Type 0 where
  pub oldest_message_at : Option ℕ
  pub newest_message_at : Option ℕ

-- The fields of `WhatsAppSourceCursor` that the functions below read; `newestMessageAt` of
-- `desktopDb` stands in it directly.
pub record WhatsAppSourceCursor : Type 0 where
  pub last_sync_at : Option ℕ
  pub resync_since_ms : Option ℕ
  pub desktop_newest_message_at : Option ℕ

abbrev pub default_overlap_ms : ℕ
default_overlap_ms = 604800000

-- `selectWhatsAppHelperSinceMs`
unfoldable pub select_helper_since_ms :
    Option String → WhatsAppSourceCursor → SyncMode → Option ℕ → Option ℤ → Option ℕ
select_helper_since_ms (some cursor) source mode last_success overlap = source.resync_since_ms
select_helper_since_ms none source full last_success overlap = none
select_helper_since_ms none source incremental last_success overlap = elim source.last_sync_at [
  | some at ↦ some at
  | none ↦ elim source.desktop_newest_message_at [
    | some newest ↦
        let overlap_ms : ℕ = elim overlap [ none ↦ default_overlap_ms | some z ↦ pos_part z ] in
        some (newest - overlap_ms)
    | none ↦ last_success
  ]
]

unfoldable pub empty_resync_stats : WhatsAppResyncStats
empty_resync_stats = record {
  page_count = 0;
  contact_count = 0;
  chat_count = 0;
  message_count = 0;
  raw_event_count = 0;
}

unfoldable pub add_resync_stats : WhatsAppResyncStats → WhatsAppResyncStats → WhatsAppResyncStats
add_resync_stats left right = record {
  page_count = left.page_count + right.page_count;
  contact_count = left.contact_count + right.contact_count;
  chat_count = left.chat_count + right.chat_count;
  message_count = left.message_count + right.message_count;
  raw_event_count = left.raw_event_count + right.raw_event_count;
}

abbrev pub empty_coverage : WhatsAppResyncCoverage
empty_coverage = record { oldest_message_at = none; newest_message_at = none }

-- `bound == null ? timestamp : Math.min(bound, timestamp)`, and with `Math.max`
unfoldable pub widen : (ℕ → ℕ → ℕ) → Option ℕ → ℕ → Option ℕ
widen choose none timestamp = some timestamp
widen choose (some bound) timestamp = some (choose bound timestamp)

-- The loop of `summarizeWhatsAppMessageCoverage`.
unfoldable pub summarize_from : WhatsAppResyncCoverage → List (Option ℕ) → WhatsAppResyncCoverage
unfolding widen
summarize_from coverage [] = coverage
summarize_from coverage (none ∷ messages) = summarize_from coverage messages
summarize_from coverage (some timestamp ∷ messages) =
    summarize_from
      (record {
        oldest_message_at = widen min coverage.oldest_message_at timestamp;
        newest_message_at = widen max coverage.newest_message_at timestamp;
      })
      messages

unfoldable pub summarize_message_coverage : List (Option ℕ) → WhatsAppResyncCoverage
unfolding summarize_from
summarize_message_coverage messages = summarize_from empty_coverage messages

unfoldable pub merge_bound : (ℕ → ℕ → ℕ) → Option ℕ → Option ℕ → Option ℕ
merge_bound choose none right = right
merge_bound choose (some left) none = some left
merge_bound choose (some left) (some right) = some (choose left right)

unfoldable pub merge_resync_coverage :
    WhatsAppResyncCoverage → WhatsAppResyncCoverage → WhatsAppResyncCoverage
unfolding merge_bound
merge_resync_coverage left right = record {
  oldest_message_at = merge_bound min left.oldest_message_at right.oldest_message_at;
  newest_message_at = merge_bound max left.newest_message_at right.newest_message_at;
}

pub data ProofStatus : Type 0 where
  running complete : ProofStatus

-- The argument of `buildWhatsAppMessagesProof`.
pub record ProofInput : Type 0 where
  pub account_key : String
  pub sync_mode : SyncMode
  pub observed_at : ℕ
  pub run_started_at : ℕ
  pub has_more : Bool
  pub next_cursor : Option String
  pub since_ms : Option ℕ
  pub completed_at : ℕ
  pub stats : WhatsAppResyncStats
  pub coverage : WhatsAppResyncCoverage

-- `SyncProofInput` as it is built here, with the fields of `coverage` beside the others.
pub record MessagesProof : Type 0 where
  pub scope_kind : String
  pub scope_key : String
  pub display_name : String
  pub source : String
  pub proof_kind : String
  pub status : ProofStatus
  pub sync_mode : SyncMode
  pub observed_at : ℕ
  pub run_started_at : ℕ
  pub completed_at : Option ℕ
  pub resume_cursor : Option (Option String × Option ℕ)
  pub since_ms : Option ℕ
  pub snapshot_completed_at : ℕ
  pub oldest_message_at : Option ℕ
  pub newest_message_at : Option ℕ
  pub stats : WhatsAppResyncStats

-- `buildWhatsAppMessagesProof`
unfoldable pub build_messages_proof : ProofInput → MessagesProof
build_messages_proof input = record {
  scope_kind = "account";
  scope_key = input.account_key;
  display_name = "WhatsApp";
  source = "whatsmeow_history_cache";
  proof_kind = "messages";
  status = if input.has_more then running else complete;
  sync_mode = input.sync_mode;
  observed_at = input.observed_at;
  run_started_at = input.run_started_at;
  completed_at = if input.has_more then none else some input.completed_at;
  resume_cursor = if input.has_more then some (input.next_cursor, input.since_ms) else none;
  since_ms = input.since_ms;
  snapshot_completed_at = input.completed_at;
  oldest_message_at = input.coverage.oldest_message_at;
  newest_message_at = input.coverage.newest_message_at;
  stats = input.stats;
}
