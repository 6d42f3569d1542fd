-- ===== src/WhatsApp/Coverage.antt =====
-- src/platforms/whatsapp/sync/proof.ts: the coverage of the pages of a resync is that of all their
-- messages.
use mathlib.Core.List.{Memᴰ}
use cued.Base.{
  subst, ℕ, ◌≤◌, min, max, List, [], ◌∷◌, ◌++◌, Option, none, some, ◌≡◌, refl, sym, ap, ap₂, ◌∙◌,
  ◌⊎◌, inl, inr, arith,
}
use cued.WhatsApp.Proof.{
  WhatsAppResyncCoverage, empty_coverage, widen, summarize_from, summarize_message_coverage,
  merge_bound, merge_resync_coverage,
}

coverage_of : Option ℕ → Option ℕ → WhatsAppResyncCoverage
coverage_of oldest newest = record { oldest_message_at = oldest; newest_message_at = newest }

coverage_path : {a b c d : Option ℕ} → a ≡ b → c ≡ d → coverage_of a c ≡ coverage_of b d
coverage_path p q = ap₂ coverage_of p q

merge_bound-none : (choose : ℕ → ℕ → ℕ) (a : Option ℕ) → merge_bound choose a none ≡ a
unfolding merge_bound
merge_bound-none choose none = refl
merge_bound-none choose (some n) = refl

merge_bound_assoc :
    (choose : ℕ → ℕ → ℕ) (a b c : Option ℕ)
    → ((x y z : ℕ) → choose (choose x y) z ≡ choose x (choose y z))
    → merge_bound choose (merge_bound choose a b) c ≡ merge_bound choose a (merge_bound choose b c)
unfolding merge_bound
merge_bound_assoc choose none b c h = refl
merge_bound_assoc choose (some x) none c h = refl
merge_bound_assoc choose (some x) (some y) none h = refl
merge_bound_assoc choose (some x) (some y) (some z) h = ap some (h x y z)

widen-merge_bound :
    (choose : ℕ → ℕ → ℕ) (a : Option ℕ) (t : ℕ) → widen choose a t ≡ merge_bound choose a (some t)
unfolding widen merge_bound
widen-merge_bound choose none t = refl
widen-merge_bound choose (some n) t = refl

pub merge_resync_coverage_assoc :
    (a b c : WhatsAppResyncCoverage)
    → merge_resync_coverage (merge_resync_coverage a b) c
      ≡ merge_resync_coverage a (merge_resync_coverage b c)
unfolding merge_resync_coverage coverage_of
merge_resync_coverage_assoc a b c =
    coverage_path
      (merge_bound_assoc min a.oldest_message_at b.oldest_message_at c.oldest_message_at
        (λ x y z. omega arith))
      (merge_bound_assoc max a.newest_message_at b.newest_message_at c.newest_message_at
        (λ x y z. omega arith))

abbrev one_message : ℕ → WhatsAppResyncCoverage
one_message t = record { oldest_message_at = some t; newest_message_at = some t }

summarize_from-merge_resync_coverage :
    (c : WhatsAppResyncCoverage) (messages : List (Option ℕ))
    → summarize_from c messages ≡ merge_resync_coverage c (summarize_message_coverage messages)
unfolding summarize_from summarize_message_coverage merge_resync_coverage coverage_of
summarize_from-merge_resync_coverage c [] =
    coverage_path (sym (merge_bound-none min c.oldest_message_at))
      (sym (merge_bound-none max c.newest_message_at))
summarize_from-merge_resync_coverage c (none ∷ messages) =
    summarize_from-merge_resync_coverage c messages
summarize_from-merge_resync_coverage c (some t ∷ messages) =
    let widened : WhatsAppResyncCoverage = record {
      oldest_message_at = widen min c.oldest_message_at t;
      newest_message_at = widen max c.newest_message_at t;
    } in
    let step : widened ≡ merge_resync_coverage c (one_message t) =
      coverage_path (widen-merge_bound min c.oldest_message_at t)
        (widen-merge_bound max c.newest_message_at t) in
    ap (λ x. summarize_from x messages) step
    ∙ summarize_from-merge_resync_coverage (merge_resync_coverage c (one_message t)) messages
    ∙ merge_resync_coverage_assoc c (one_message t) (summarize_message_coverage messages)
    ∙ ap (merge_resync_coverage c)
        (sym (summarize_from-merge_resync_coverage (one_message t) messages))

summarize_from-append :
    (c : WhatsAppResyncCoverage) (xs ys : List (Option ℕ))
    → summarize_from c (xs ++ ys) ≡ summarize_from (summarize_from c xs) ys
unfolding summarize_from
summarize_from-append c [] ys = refl
summarize_from-append c (none ∷ xs) ys = summarize_from-append c xs ys
summarize_from-append c (some t ∷ xs) ys =
    summarize_from-append
      (record {
        oldest_message_at = widen min c.oldest_message_at t;
        newest_message_at = widen max c.newest_message_at t;
      })
      xs ys

-- The coverage of the messages of several pages is the merged coverage of the pages, however the
-- messages are divided among them, and what a part of the pages has covered can be merged first.
pub summarize_message_coverage-append :
    (xs ys : List (Option ℕ)) (c : WhatsAppResyncCoverage)
    → (summarize_message_coverage (xs ++ ys)
        ≡ merge_resync_coverage (summarize_message_coverage xs) (summarize_message_coverage ys))
      × (merge_resync_coverage c (summarize_message_coverage (xs ++ ys))
          ≡ merge_resync_coverage
              (merge_resync_coverage c (summarize_message_coverage xs))
              (summarize_message_coverage ys))
unfolding summarize_message_coverage
summarize_message_coverage-append xs ys c =
    let whole =
      summarize_from-append empty_coverage xs ys
      ∙ summarize_from-merge_resync_coverage (summarize_message_coverage xs) ys in
    (
      whole,
      ap (merge_resync_coverage c) whole
          ∙ sym (
              merge_resync_coverage_assoc c (summarize_message_coverage xs)
                (summarize_message_coverage ys)),
    )

unfoldable pub IsLower : Option ℕ → ℕ → Type 0
IsLower none t = ⊥
IsLower (some oldest) t = oldest ≤ t

unfoldable pub IsUpper : Option ℕ → ℕ → Type 0
IsUpper none t = ⊥
IsUpper (some newest) t = t ≤ newest

-- A timestamp between the two bounds.
unfoldable pub IsCovered : WhatsAppResyncCoverage → ℕ → Type 0
IsCovered c t = IsLower c.oldest_message_at t × IsUpper c.newest_message_at t

merge_bound-IsLower :
    (a b : Option ℕ) (t : ℕ) → IsLower a t ⊎ IsLower b t → IsLower (merge_bound min a b) t
unfolding IsLower merge_bound
merge_bound-IsLower none b t (inl h) = absurd h
merge_bound-IsLower none b t (inr h) = h
merge_bound-IsLower (some x) none t (inl h) = h
merge_bound-IsLower (some x) none t (inr h) = absurd h
merge_bound-IsLower (some x) (some y) t (inl h) = omega (arith, h)
merge_bound-IsLower (some x) (some y) t (inr h) = omega (arith, h)

merge_bound-IsUpper :
    (a b : Option ℕ) (t : ℕ) → IsUpper a t ⊎ IsUpper b t → IsUpper (merge_bound max a b) t
unfolding IsUpper merge_bound
merge_bound-IsUpper none b t (inl h) = absurd h
merge_bound-IsUpper none b t (inr h) = h
merge_bound-IsUpper (some x) none t (inl h) = h
merge_bound-IsUpper (some x) none t (inr h) = absurd h
merge_bound-IsUpper (some x) (some y) t (inl h) = omega (arith, h)
merge_bound-IsUpper (some x) (some y) t (inr h) = omega (arith, h)

merge-IsCovered :
    (a b : WhatsAppResyncCoverage) (t : ℕ)
    → IsCovered a t ⊎ IsCovered b t
    → IsCovered (merge_resync_coverage a b) t
unfolding IsCovered merge_resync_coverage
merge-IsCovered a b t (inl h) = (
  merge_bound-IsLower a.oldest_message_at b.oldest_message_at t (inl h.0),
  merge_bound-IsUpper a.newest_message_at b.newest_message_at t (inl h.1),
)
merge-IsCovered a b t (inr h) = (
  merge_bound-IsLower a.oldest_message_at b.oldest_message_at t (inr h.0),
  merge_bound-IsUpper a.newest_message_at b.newest_message_at t (inr h.1),
)

summarize-some :
    (u : ℕ) (messages : List (Option ℕ))
    → summarize_message_coverage (some u ∷ messages)
      ≡ merge_resync_coverage (one_message u) (summarize_message_coverage messages)
unfolding summarize_message_coverage summarize_from widen
summarize-some u messages = summarize_from-merge_resync_coverage (one_message u) messages

-- Every message with a finite timestamp lies in the coverage that is summarised of the messages.
pub summarize_message_coverage-IsCovered :
    (messages : List (Option ℕ)) (t : ℕ)
    → Memᴰ (some t) messages
    → IsCovered (summarize_message_coverage messages) t
unfolding summarize_message_coverage summarize_from
summarize_message_coverage-IsCovered [] t m = elim m [ ]
summarize_message_coverage-IsCovered (some u ∷ messages) t (Memᴰ.head e) =
    let here : t ≡ u = ground (arith, e) in
    let one : IsCovered (one_message u) t =
      unfold IsCovered IsLower IsUpper in (omega (arith, here), omega (arith, here)) in
    subst (λ c. IsCovered c t) (sym (summarize-some u messages))
      (merge-IsCovered (one_message u) (summarize_message_coverage messages) t (inl one))
summarize_message_coverage-IsCovered (some u ∷ messages) t (Memᴰ.tail m) =
    subst (λ c. IsCovered c t) (sym (summarize-some u messages))
      (merge-IsCovered (one_message u) (summarize_message_coverage messages) t
        (inr (summarize_message_coverage-IsCovered messages t m)))
summarize_message_coverage-IsCovered (none ∷ messages) t (Memᴰ.head e) = cc
summarize_message_coverage-IsCovered (none ∷ messages) t (Memᴰ.tail m) =
    summarize_message_coverage-IsCovered messages t m
