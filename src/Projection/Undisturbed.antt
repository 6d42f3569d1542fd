-- ===== src/Projection/Undisturbed.antt =====
-- src/runtime/projection/service.ts, `releaseCompletedRange`, while no other call comes in: it ends,
-- and takes the batches inside the range out.
use cued.Base.{
  ℕ, zero, suc, ◌+◌, ◌≤◌, Bool, true, false, not, List, [], ◌∷◌, ◌++◌, Option, some, filter_by,
  length, length-append, drop, ◌≡◌, refl, ap, ◌∙◌, inl, inr, arith, Bool-cases,
}
use cued.Projection.Hooks.{
  RowRange, HookBatch, Progress, is_backward, is_within, next_emit, emit_next, resume,
  release_rounds, release_completed_range, emitted_first,
}
use cued.Projection.Delivery.{payloads_within}

-- Nobody else calls.
abbrev pub nobody : {P : Type 0} → ℕ → List (HookBatch P) → List (HookBatch P)
nobody n pending = pending

drop_tail :
    {A : Type 0} (n : ℕ) (xs : List A) {y : A} {ys : List A}
    → drop n xs ≡ y ∷ ys
    → drop (suc n) xs ≡ ys
drop_tail zero [] e = cc
drop_tail zero (x ∷ xs) e = cc
drop_tail (suc n) [] e = cc
drop_tail (suc n) (x ∷ xs) e = drop_tail n xs e

append_assoc : {A : Type 0} (xs ys zs : List A) → (xs ++ ys) ++ zs ≡ xs ++ (ys ++ zs)
append_assoc [] ys zs = refl
append_assoc (x ∷ xs) ys zs = ap (λ l. x ∷ l) (append_assoc xs ys zs)

append_nil : {A : Type 0} (xs : List A) → xs ++ [] ≡ xs
append_nil [] = refl
append_nil (x ∷ xs) = ap (λ l. x ∷ l) (append_nil xs)

module _ {P : Type 0} (range : RowRange) (pending : List (HookBatch P)) where
  abbrev outside : List (HookBatch P) → List (HookBatch P)
  outside bs = filter_by (λ b. not (is_within range b)) bs

  abbrev rounds_of : ℕ → Progress P → Option (List P × Bool × List (HookBatch P))
  rounds_of n progress = release_rounds range (λ _. true) nobody n progress pending

  -- From the place where the batches `bs` stand, the rest of the call.
  abbrev EndsFrom : ℕ → List (HookBatch P) → Type 0
  EndsFrom index bs =
      (remaining : List (HookBatch P)) (n : ℕ)
      → length (payloads_within range bs) ≤ n
      → rounds_of n (next_emit range index remaining bs)
        ≡ some (payloads_within range bs, true, remaining ++ outside bs)

  payloads_end :
      (index : ℕ) (bs : List (HookBatch P))
      → drop index pending ≡ bs
      → EndsFrom index bs
      → (xs : List P) (remaining : List (HookBatch P)) (n : ℕ)
      → length xs + length (payloads_within range bs) ≤ n
      → rounds_of n (emit_next index remaining (next_emit range index remaining bs) xs)
        ≡ some (xs ++ payloads_within range bs, true, remaining ++ outside bs)
  unfolding resume release_rounds emit_next
  payloads_end index bs at ends [] remaining n le = ends remaining n (omega (arith, le))
  payloads_end index bs at ends (x ∷ xs) remaining zero le = absurd (omega (arith, le))
  payloads_end index bs at ends (x ∷ xs) remaining (suc n) le = ap (emitted_first x) (
      ap (λ l. rounds_of n (emit_next index remaining (next_emit range index remaining l) xs)) at
      ∙ payloads_end index bs at ends xs remaining n (omega (arith, le)))

  next_emit_ends :
      (bs : List (HookBatch P)) (index : ℕ) → drop index pending ≡ bs → EndsFrom index bs
  unfolding next_emit payloads_within release_rounds
  next_emit_ends [] index at remaining n le = rw (append_nil remaining) refl
  next_emit_ends (b ∷ bs) index at remaining n le =
      let tail = drop_tail index pending at in
      let rest = next_emit_ends bs (suc index) tail in
      elim (Bool-cases (is_within range b)) [
        | inr out ↦ rw out (
            rest (remaining ++ b ∷ []) n (rw out at le)
            ∙ ap (λ l. some (payloads_within range bs, true, l))
                (append_assoc remaining (b ∷ []) (outside bs)))
        | inl inside ↦
            let few : length (b.payloads ++ payloads_within range bs) ≤ n = rw inside at le in
            rw inside (
              payloads_end (suc index) bs tail rest b.payloads remaining n
                (omega (arith, few, length-append b.payloads (payloads_within range bs))))
      ]

  -- A release that nobody disturbs ends after as many promises as there are payloads.
  pub release_completed_range-undisturbed :
      is_backward range ≡ false
      → release_completed_range range
          (λ _. true)
          nobody
          (length (payloads_within range pending))
          pending
        ≡ some (payloads_within range pending, true, outside pending)
  unfolding release_completed_range
  release_completed_range-undisturbed forward =
      rw forward
        (next_emit_ends pending 0 refl [] (length (payloads_within range pending)) (omega arith))
