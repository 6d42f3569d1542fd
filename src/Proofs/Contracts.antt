-- ===== src/Proofs/Contracts.antt =====
-- src/platforms/core/proofs.ts: what a stored proof of each kind means, and the lookup of kinds.
use cued.Base.{
  Bool, ◌&&◌, String, List, [], ◌∷◌, Option, none, some, filter_by, find_by, is_some, ◌==◌,
  string_eq,
}
use cued.Platform.{Platform, discord, gmail, linkedin, signal, slack, whatsapp, platform_eq}

pub record SyncProofKindContract : Type 0 where
  pub platform : Platform
  pub proof_kind : String
  pub scope_kind : String
  pub complete_means : String
  pub invalidated_by : String
  pub resume_cursor_means : String

unfoldable pub proof_kind_contracts : List SyncProofKindContract
proof_kind_contracts =
    record {
      platform = discord;
      proof_kind = "discovery";
      scope_kind = "account";
      complete_means = "All currently visible direct-message channels were listed for the account.";
      invalidated_by = "A later account discovery run observes a different channel set.";
      resume_cursor_means = "Discovery is account-scoped today and does not use a cursor.";
    }
    ∷ record {
      platform = discord;
      proof_kind = "discovery";
      scope_kind = "conversation";
      complete_means = "The direct-message conversation was observed during account discovery.";
      invalidated_by = "A later account discovery run no longer observes the conversation.";
      resume_cursor_means =
          "No cursor when complete; coverage carries the latest known message edge for the conversation.";
    }
    ∷ record {
      platform = discord;
      proof_kind = "latest_messages";
      scope_kind = "conversation";
      complete_means = "The current newest known message edge for the conversation was checked.";
      invalidated_by = "The provider reports a newer latest message for the conversation.";
      resume_cursor_means =
          "No cursor when complete; running cursors carry the latest edge still being checked.";
    }
    ∷ record {
      platform = discord;
      proof_kind = "messages";
      scope_kind = "conversation";
      complete_means =
          "Historical direct-message pages for the conversation were walked to exhaustion.";
      invalidated_by =
          "The provider exposes older messages not covered by the stored oldest message id.";
      resume_cursor_means = "The message id to request before when resuming historical backfill.";
    }
    ∷ record {
      platform = gmail;
      proof_kind = "messages";
      scope_kind = "account";
      complete_means =
          "All non-spam, non-trash Gmail messages reachable by the current historical or incremental page walk were fetched.";
      invalidated_by = "A later Gmail history id or historical page token remains unprocessed.";
      resume_cursor_means =
          "The Gmail page token/history id state needed to continue the current account walk.";
    }
    ∷ record {
      platform = linkedin;
      proof_kind = "discovery";
      scope_kind = "account";
      complete_means = "The LinkedIn conversation discovery scan reached the provider end.";
      invalidated_by = "A later sync starts a new discovery scan or resumes an incomplete scan.";
      resume_cursor_means =
          "The LinkedIn conversation-list cursor and scan counters for account discovery.";
    }
    ∷ record {
      platform = linkedin;
      proof_kind = "messages";
      scope_kind = "conversation";
      complete_means =
          "The selected LinkedIn conversation's message pages reached the provider end.";
      invalidated_by =
          "A later sync observes a newer or older uncovered message range for the conversation.";
      resume_cursor_means =
          "The LinkedIn message cursor and delivered-at range for that conversation.";
    }
    ∷ record {
      platform = slack;
      proof_kind = "history";
      scope_kind = "conversation";
      complete_means =
          "An initial unbounded history and known-thread traversal completed successfully, including empty conversations; this does not assert current freshness.";
      invalidated_by =
          "A deliberate historical rescan when the provider exposes previously unavailable history; incremental windows do not replace this evidence.";
      resume_cursor_means =
          "Written only on completion. Incomplete traversals resume through messages and replies proofs.";
    }
    ∷ record {
      platform = slack;
      proof_kind = "messages";
      scope_kind = "conversation";
      complete_means =
          "Slack channel history for the conversation completed or moved past the history phase.";
      invalidated_by = "A later Slack history scan observes an uncovered message range.";
      resume_cursor_means =
          "The Slack history cursor and conversation phase for resuming channel history.";
    }
    ∷ record {
      platform = slack;
      proof_kind = "replies";
      scope_kind = "conversation";
      complete_means = "Slack thread replies for known roots in the conversation completed.";
      invalidated_by =
          "A later Slack scan observes pending thread roots or an active replies cursor.";
      resume_cursor_means = "The active thread timestamp, replies cursor, and conversation phase.";
    }
    ∷ record {
      platform = signal;
      proof_kind = "messages";
      scope_kind = "account";
      complete_means =
          "Signal message history for the local account reached the selected sync cursor.";
      invalidated_by = "A later Signal sync observes additional message history for the account.";
      resume_cursor_means = "The Signal account-level message cursor needed to continue sync.";
    }
    ∷ record {
      platform = whatsapp;
      proof_kind = "messages";
      scope_kind = "account";
      complete_means =
          "WhatsApp helper resync pages for the account completed for the selected since cursor.";
      invalidated_by = "A later helper resync reports additional pages or a newer message range.";
      resume_cursor_means = "The WhatsApp helper resync cursor and selected since timestamp.";
    }
    ∷ []

unfoldable pub list_sync_proof_kind_contracts : Option Platform → List SyncProofKindContract
unfolding proof_kind_contracts
list_sync_proof_kind_contracts none = proof_kind_contracts
list_sync_proof_kind_contracts (some p) = filter_by (λ c. c.platform == p) proof_kind_contracts

-- A proof is looked up by its kind and the kind of its scope.
abbrev pub is_contract_of : Platform → String → String → SyncProofKindContract → Bool
is_contract_of p kind scope c = c.platform == p && c.proof_kind == kind && c.scope_kind == scope

unfoldable pub get_sync_proof_kind_contract :
    Platform → String → String → Option SyncProofKindContract
unfolding proof_kind_contracts
get_sync_proof_kind_contract p kind scope =
    find_by (is_contract_of p kind scope) proof_kind_contracts

-- Whether no exception is thrown.
unfoldable pub assert_known_sync_proof_kind_contract : Platform → String → String → Bool
unfolding get_sync_proof_kind_contract
assert_known_sync_proof_kind_contract p kind scope =
    is_some (get_sync_proof_kind_contract p kind scope)
