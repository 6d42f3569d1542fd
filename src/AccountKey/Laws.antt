-- ===== src/AccountKey/Laws.antt =====
-- src/platforms/core/account-keys.ts: what a key that is accepted is like, and that the run queue can
-- read it back.
use cued.Base.{
  ltb, false, String, Option, none, some, ◌≡◌, refl, ap, sym, ◌∙◌, ◌↔◌, ◌⊎◌, inr, arith, ◌==◌,
  string_eq, is_empty, trim,
}
use cued.Platform.{Platform, platform_word}
use cued.RunQueue.{target_key, parse_run_target_key, parse_run_target_key_iff}
use cued.AccountKey.Validate.{
  KeyError, utf16_length, is_control, is_separator, any_char, validate_integration_account_key,
  resolve_integration_account_key,
}

-- A text of at most 256 units, with no white space around it, that names no path and holds no
-- control character.
abbrev pub IsAccountKey : String → Type 0
IsAccountKey key =
    (trim key ≡ key)
    × (is_empty key ≡ false)
    × (ltb 256 (utf16_length key) ≡ false)
    × (any_char is_control key ≡ false)
    × (any_char is_separator key ≡ false)
    × ((key == ".") ≡ false)
    × ((key == "..") ≡ false)

-- A text is accepted exactly when it is such a key, and it is answered as it is.
pub validate_integration_account_key_iff :
    (account_key key : String)
    → (validate_integration_account_key account_key ≡ inr key)
      ↔ ((key ≡ account_key) × IsAccountKey account_key)
unfolding validate_integration_account_key
validate_integration_account_key_iff account_key key = (to, from)
  where
    to :
        validate_integration_account_key account_key ≡ inr key
        → (key ≡ account_key) × IsAccountKey account_key
    to h =
        let same : trim account_key ≡ account_key = ground (arith, h) in
        let answered : key ≡ trim account_key = ground (arith, h) in
        (
          answered ∙ same,
          (
            same,
            sym (ap is_empty same) ∙ ground (arith, h),
            sym (ap (λ s. ltb 256 (utf16_length s)) same) ∙ ground (arith, h),
            sym (ap (any_char is_control) same) ∙ ground (arith, h),
            sym (ap (any_char is_separator) same) ∙ ground (arith, h),
            sym (ap (λ s. s == ".") same) ∙ ground (arith, h),
            sym (ap (λ s. s == "..") same) ∙ ground (arith, h),
          ),
        )

    from :
        (key ≡ account_key) × IsAccountKey account_key
        → validate_integration_account_key account_key ≡ inr key
    from (e, (same, filled, short, plain, flat, dot, dots)) =
        let answer : ◌≡◌ {A = KeyError ⊎ String} (inr (trim account_key)) (inr key) =
          ap inr (same ∙ sym e) in
        ground (
          arith,
          same,
          ap is_empty same ∙ filled,
          ap (λ s. ltb 256 (utf16_length s)) same ∙ short,
          ap (any_char is_control) same ∙ plain,
          ap (any_char is_separator) same ∙ flat,
          ap (λ s. s == ".") same ∙ dot,
          ap (λ s. s == "..") same ∙ dots,
          answer,
        )

-- Every key that is accepted, given or by default, is read back from the target that the run queue
-- writes with it, for every platform.
pub resolve_integration_account_key-parse_run_target_key :
    (account_key : Option String) (default_key key : String) (p : Platform)
    → resolve_integration_account_key account_key default_key ≡ inr key
    → parse_run_target_key (target_key (platform_word p) key) ≡ some (p, key)
unfolding resolve_integration_account_key
resolve_integration_account_key-parse_run_target_key none default_key key p h =
    let (e, valid) = (validate_integration_account_key_iff default_key key).0 h in
    (parse_run_target_key_iff (target_key (platform_word p) key) p key).1
      (refl, ap is_empty e ∙ valid.1)
resolve_integration_account_key-parse_run_target_key (some account_key) default_key key p h =
    let (e, valid) = (validate_integration_account_key_iff account_key key).0 h in
    (parse_run_target_key_iff (target_key (platform_word p) key) p key).1
      (refl, ap is_empty e ∙ valid.1)
