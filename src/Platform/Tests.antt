-- ===== src/Platform/Tests.antt =====
-- src/platforms/core/types.ts at concrete inputs.
use cued.Base.{String, [], ◌∷◌, some, is_some, ◌≡◌, refl, String-discrete}
use cued.Platform.Types.{discord, gmail, linkedin, signal, slack, whatsapp, partial, deletes, linux}
use cued.Platform.Catalog.{requestable_integration_platform_values}
use cued.Platform.Features.{get_platform_feature_support}
use cued.Platform.Words.{is_platform, parse_platform, is_adapter_platform, parse_host_os}
use cued.Platform.Laws.{is_platform-parse_platform}

requestable_list :
    requestable_integration_platform_values
    ≡ slack ∷ gmail ∷ discord ∷ linkedin ∷ whatsapp ∷ signal ∷ []
unfolding requestable_integration_platform_values
requestable_list = refl

gmail_deletes : get_platform_feature_support gmail deletes ≡ partial
unfolding get_platform_feature_support
gmail_deletes = refl

host_read : parse_host_os (some "linux") ≡ some linux
unfolding parse_host_os String-discrete
host_read = refl

abbrev slack_text : String
slack_text = "slack"

is_platform-of_slack :
    (is_platform slack_text ≡ is_some (parse_platform slack_text))
    × (is_adapter_platform slack_text ≡ is_platform slack_text)
is_platform-of_slack = is_platform-parse_platform slack_text
