-- ===== src/Platform/Laws.antt =====
-- src/platforms/core/types.ts: the words and their values agree, and the tables of the catalogue
-- are consistent with one another.
use cued.Base.{
  ◌<◌, true, false, String, List, [], ◌∷◌, some, is_some, any, length, ◌≡◌, refl, sym, ap, ◌∙◌,
  or_else, ◌↔◌, ◌⊎◌, inl, inr, ◌==◌, find_by, find_by_holds, find_by-none, arith, Option-cases,
  string_eq, String-discrete,
}
use cued.Platform.Types.{
  Platform, contacts, imessage, HostOs, macos, platform_eq, Platform-discrete, HostOs-discrete,
  platform_values, AuthState, auth_state_values,
}
use cued.Platform.Catalog.{
  platform_definitions, request_rank, requestable_integration_platform_values,
  is_platform_supported_on_host, get_platform_permission_requirements,
  get_default_account_key_for_platform,
}
use cued.Platform.Words.{
  platform_word, is_platform, parse_platform, is_adapter_platform, auth_state_word,
  is_integration_auth_state, parse_integration_auth_state,
}

pub parse_platform-platform_word : (p : Platform) → parse_platform (platform_word p) ≡ some p
unfolding parse_platform String-discrete
parse_platform-platform_word contacts = refl
parse_platform-platform_word _ = refl

parse_platform_word :
    (value : String) {p : Platform} → parse_platform value ≡ some p → platform_word p ≡ value
unfolding parse_platform
parse_platform_word value {p} h =
    ground (arith, find_by_holds (λ q. platform_word q == value) platform_values h)

-- A word is read as a platform exactly when it is that platform's word.
pub parse_platform-eq_some_iff :
    (value : String) (p : Platform) → (parse_platform value ≡ some p) ↔ (platform_word p ≡ value)
parse_platform-eq_some_iff value p =
    (parse_platform_word value, λ e. rw (← e) (parse_platform-platform_word p))

-- The two tests for a platform and the parser agree on every text.
pub is_platform-parse_platform :
    (value : String)
    → (is_platform value ≡ is_some (parse_platform value))
      × (is_adapter_platform value ≡ is_platform value)
unfolding is_platform parse_platform is_adapter_platform
is_platform-parse_platform value =
    (ground (arith, find_by-none (λ q. platform_word q == value) platform_values), refl)

abbrev Ascending : List Platform → Type 0
Ascending [] = Unit
Ascending (p ∷ []) = Unit
Ascending (p ∷ q ∷ ps) = (request_rank p < request_rank q) × Ascending (q ∷ ps)

-- The list offered to the user holds each requestable platform and no other, in strictly
-- ascending order of its place in the table.
pub requestable_values_sorted :
    Ascending requestable_integration_platform_values
    × ((p : Platform)
        → any (λ q. q == p) requestable_integration_platform_values
          ≡ (platform_definitions p).requestable_integration)
unfolding requestable_integration_platform_values platform_definitions request_rank
    Platform-discrete
requestable_values_sorted = (omega arith, member)
  where
    member :
        (p : Platform)
        → any (λ q. q == p) requestable_integration_platform_values
          ≡ (platform_definitions p).requestable_integration
    member contacts = refl
    member _ = refl

-- A platform that needs a permission of the operating system is local to macOS: no other host
-- supports it, the user cannot request it, and its account is the local one.
pub permission_is_local :
    (p : Platform) (os : HostOs)
    → 0 < length (get_platform_permission_requirements p)
    → is_platform_supported_on_host p os ≡ true
    → (os ≡ macos)
      × ((platform_definitions p).requestable_integration ≡ false)
      × (get_default_account_key_for_platform p ≡ "local")
unfolding get_platform_permission_requirements is_platform_supported_on_host
    get_default_account_key_for_platform platform_definitions HostOs-discrete
permission_is_local contacts macos h s = (refl, refl, refl)
permission_is_local imessage macos h s = (refl, refl, refl)
permission_is_local p os h s = ground arith

parse_auth_word :
    (a : AuthState) (fallback : AuthState)
    → parse_integration_auth_state (some (auth_state_word a)) fallback ≡ a
unfolding parse_integration_auth_state String-discrete
parse_auth_word AuthState.authenticated fallback = refl
parse_auth_word _ fallback = refl

-- Reading an authentication state gives the state of that word, and the fallback exactly when the
-- text is the word of no state.
pub parse_integration_auth_state_cases :
    (value : String) (fallback : AuthState)
    → ((is_integration_auth_state value ≡ true)
        × (auth_state_word (parse_integration_auth_state (some value) fallback) ≡ value))
      ⊎ ((is_integration_auth_state value ≡ false)
          × (parse_integration_auth_state (some value) fallback ≡ fallback))
unfolding is_integration_auth_state parse_integration_auth_state
parse_integration_auth_state_cases value fallback =
    let test = λ (a : AuthState). auth_state_word a == value in
    let seen = find_by-none test auth_state_values in
    elim (Option-cases (find_by test auth_state_values)) [
      | inl e ↦ inr (sym seen ∙ ap is_some e, ap (λ o. or_else o fallback) e)
      | inr (a, e) ↦ inl (
        sym seen ∙ ap is_some e,
        ap (λ o. auth_state_word (or_else o fallback)) e
            ∙ ground (arith, find_by_holds test auth_state_values e),
      )
    ]
