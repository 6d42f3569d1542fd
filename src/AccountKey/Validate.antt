-- ===== src/AccountKey/Validate.antt =====
-- src/platforms/core/account-keys.ts: which texts name an account.
use Prim.Native.Char.{Char, code}
use cued.Base.{
  ℕ, ◌+◌, ltb, leb, Bool, false, ◌||◌, not, String, Option, none, some, ◌⊎◌, inl, inr, ◌==◌, nat_eq,
  string_eq, is_empty, trim, if◌then◌else◌,
}

-- The exceptions of `validateIntegrationAccountKey`. That the argument is a text is its type here.
pub data KeyError : Type 0 where
  empty_key outer_space too_long control_character path_segment : KeyError

-- `length` counts UTF-16 units, of which a character past the basic plane takes two.
unfoldable pub utf16_length : String → ℕ
utf16_length String.[] = 0
utf16_length (String.◌∷◌ c s) =
    let rest = utf16_length s in if ltb (code c) 65536 then rest + 1 else rest + 2

unfoldable pub is_control : Char → Bool
is_control c = leb (code c) 31 || code c == 127

-- `\` and `/`
unfoldable pub is_separator : Char → Bool
is_separator c = code c == 92 || code c == 47

unfoldable pub any_char : (Char → Bool) → String → Bool
any_char p String.[] = false
any_char p (String.◌∷◌ c s) = p c || any_char p s

unfoldable pub validate_integration_account_key : String → KeyError ⊎ String
unfolding utf16_length is_control is_separator any_char
validate_integration_account_key account_key =
    let trimmed = trim account_key in
    if is_empty trimmed
    then inl empty_key
    else if not (trimmed == account_key)
    then inl outer_space
    else if ltb 256 (utf16_length trimmed)
    then inl too_long
    else if any_char is_control trimmed
    then inl control_character
    else if any_char is_separator trimmed || trimmed == "." || trimmed == ".."
    then inl path_segment
    else inr trimmed

unfoldable pub resolve_integration_account_key : Option String → String → KeyError ⊎ String
unfolding validate_integration_account_key
resolve_integration_account_key none default_key = validate_integration_account_key default_key
resolve_integration_account_key (some account_key) default_key =
    validate_integration_account_key account_key
