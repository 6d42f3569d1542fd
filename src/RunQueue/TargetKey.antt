-- ===== src/RunQueue/TargetKey.antt =====
-- src/runtime/run-queue.ts, `parseRunTargetKey`: what is written as a target is read back.
use Prim.Native.Char.{Char, code}
use Prim.Native.String.{◌++◌ as append}
use text.Mathlib.TextLemmas.{cons-append, nil-append}
use text.Mathlib.TextEquality.{Char-path}
use cued.Base.{
  is_empty, Bool, true, false, ◌||◌, String, some, ◌≡◌, refl, sym, ap, ap₂, ◌∙◌, arith, ◌==◌,
  nat_eq, string_eq, inl, inr, Bool-cases, Option-cases, ◌↔◌, ℕ_discrete, String-discrete,
}
use cued.Platform.{
  Platform, platform_word, is_adapter_platform, parse_platform-platform_word,
  parse_platform-eq_some_iff,
}
use cued.RunQueue.Target.{target_key, split_at_colon, target_of, parse_run_target_key}

has_colon : String → Bool
has_colon String.[] = false
has_colon (String.◌∷◌ c s) = code c == b':' || has_colon s

colon_test : (code ":" == b':') ≡ true
unfolding ℕ_discrete
colon_test = refl

split_at_colon-append :
    (s t : String) → has_colon s ≡ false → split_at_colon (append s (append ":" t)) ≡ some (s, t)
unfolding split_at_colon has_colon
split_at_colon-append String.[] t h =
    rw (nil-append _, cons-append _ _ _, nil-append t) (ground (arith, colon_test))
split_at_colon-append (String.◌∷◌ c s) t h =
    let plain : has_colon s ≡ false = ground arith in
    let other : (code c == b':') ≡ false = ground arith in
    rw (cons-append c s _) (ground (arith, other, split_at_colon-append s t plain))

colon_first :
    (c : Char) (r s t : String)
    → code c ≡ b':'
    → s ≡ String.[]
    → t ≡ r
    → append s (append ":" t) ≡ String.◌∷◌ c r
colon_first c r s t e start rest =
    let first : c ≡ ":" = Char-path c ":" e in
    rw (start, rest, first, nil-append _, cons-append _ _ _, nil-append r)

split_at_colon_join :
    (key : String) {s t : String} → split_at_colon key ≡ some (s, t) → append s (append ":" t) ≡ key
unfolding split_at_colon
split_at_colon_join String.[] h = cc
split_at_colon_join (String.◌∷◌ c r) {s} {t} h = elim (Bool-cases (code c == b':')) [
  | inl e ↦ colon_first c r s t (ground (arith, e)) (ground (arith, e)) (ground (arith, e))
  | inr e ↦ elim (Option-cases (split_at_colon r)) [
    | inl none_there ↦ absurd (ground (arith, e, none_there))
    | inr (pair, there) ↦
        let start : s ≡ String.◌∷◌ c pair.0 = ground (arith, e, there) in
        let rest : t ≡ pair.1 = ground (arith, e, there) in
        rw (start, rest, cons-append c _ _) (ap (String.◌∷◌ c) (split_at_colon_join r there))
  ]
]

platform_word_plain :
    (p : Platform)
    → (has_colon (platform_word p) ≡ false)
      × (is_empty (platform_word p) ≡ false)
      × (is_adapter_platform (platform_word p) ≡ true)
unfolding has_colon platform_word ℕ_discrete is_adapter_platform String-discrete
platform_word_plain Platform.contacts = (refl, refl, refl)
platform_word_plain _ = (refl, refl, refl)

target_of_iff :
    (platform account_key : String) (p : Platform) (k : String)
    → (target_of platform account_key ≡ some (p, k))
      ↔ ((platform ≡ platform_word p) × (account_key ≡ k) × (is_empty k ≡ false))
unfolding target_of
target_of_iff platform account_key p k = (
  λ h. let parsed = (parse_platform-eq_some_iff platform p).0 in ground (arith, parsed),
  λ (w, a, filled).
      rw (w, a) (ground (arith, platform_word_plain p, parse_platform-platform_word p)),
)

-- A target is read back exactly as it was written: a text gives a platform and an account key just
-- when it is the platform's word, a colon and that key, and the key is not empty. The key may
-- itself hold colons.
pub parse_run_target_key_iff :
    (key : String) (p : Platform) (account_key : String)
    → (parse_run_target_key key ≡ some (p, account_key))
      ↔ ((key ≡ target_key (platform_word p) account_key) × (is_empty account_key ≡ false))
unfolding parse_run_target_key
parse_run_target_key_iff key p account_key = (
  λ h. elim (Option-cases (split_at_colon key)) [
    | inl e ↦ absurd (ground (arith, e))
    | inr ((w, k), e) ↦
        let (word, same, filled) = (target_of_iff w k p account_key).0 (ground (arith, e)) in
        (sym (split_at_colon_join key e) ∙ ap₂ target_key word same, filled)
  ],
  λ (e, filled).
      let parts =
        ap split_at_colon e
        ∙ split_at_colon-append (platform_word p) account_key (platform_word_plain p).0 in
      let whole =
        (target_of_iff (platform_word p) account_key p account_key).1 (refl, refl, filled) in
      ground (arith, parts, whole),
)
