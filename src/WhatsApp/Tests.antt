-- ===== src/WhatsApp/Tests.antt =====
-- src/platforms/whatsapp/sync/proof.ts at concrete pages.
use mathlib.Core.List.{Memᴰ}
use cued.Base.{ℕ, List, [], ◌∷◌, ◌++◌, Option, none, some, ◌≡◌, refl}
use cued.Platform.{incremental}
use cued.WhatsApp.Proof.{
  WhatsAppResyncCoverage, WhatsAppSourceCursor, summarize_message_coverage, merge_resync_coverage,
  select_helper_since_ms, summarize_from, widen,
}
use cued.WhatsApp.Coverage.{
  IsCovered, summarize_message_coverage-append, summarize_message_coverage-IsCovered,
}

abbrev first_page : List (Option ℕ)
first_page = some 50 ∷ none ∷ some 30 ∷ []

abbrev second_page : List (Option ℕ)
second_page = some 40 ∷ some 10 ∷ []

abbrev both : WhatsAppResyncCoverage
both = record { oldest_message_at = some 10; newest_message_at = some 50 }

both_summarized : summarize_message_coverage (first_page ++ second_page) ≡ both
unfolding summarize_message_coverage summarize_from widen
both_summarized = refl

summarize_message_coverage-append_example :
    (summarize_message_coverage (first_page ++ second_page)
      ≡ merge_resync_coverage
          (summarize_message_coverage first_page)
          (summarize_message_coverage second_page))
    × (merge_resync_coverage both (summarize_message_coverage (first_page ++ second_page))
        ≡ merge_resync_coverage
            (merge_resync_coverage both (summarize_message_coverage first_page))
            (summarize_message_coverage second_page))
summarize_message_coverage-append_example =
    summarize_message_coverage-append first_page second_page both

summarize_message_coverage-IsCovered_example : IsCovered (summarize_message_coverage first_page) 30
summarize_message_coverage-IsCovered_example =
    summarize_message_coverage-IsCovered first_page 30 (Memᴰ.tail (Memᴰ.tail (Memᴰ.head refl)))

-- An account whose messages were imported from the desktop application.
abbrev imported : WhatsAppSourceCursor
imported = record {
  last_sync_at = none;
  resync_since_ms = none;
  desktop_newest_message_at = some 604800500;
}

imported_since : select_helper_since_ms none imported incremental none none ≡ some 500
unfolding select_helper_since_ms
imported_since = refl
