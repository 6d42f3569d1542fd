-- ===== src/Projection/Delivery.antt =====
-- src/runtime/projection/service.ts: every hook on a message in a projected range is emitted once,
-- when the range is completed.
use cued.Base.{
  ℕ, ◌+◌, ◌≤◌, Bool, true, List, [], ◌∷◌, ◌++◌, filter_by, insert_by, sort_by, ◌==◌, nat_eq,
  if◌then◌else◌, ◌≡◌, refl, inl, inr, arith, Bool-cases,
}
use cued.Projection.Hooks.{RowRange, HookBatch, is_within, add_payload}

module _ {P : Type 0} where
  -- How many of the payloads a test holds of.
  unfoldable pub count_by : (P → Bool) → List P → ℕ
  count_by q [] = 0
  count_by q (x ∷ xs) = let rest = count_by q xs in if q x then rest + 1 else rest

  pub count_by-append :
      (q : P → Bool) (xs ys : List P) → count_by q (xs ++ ys) ≡ count_by q xs + count_by q ys
  unfolding count_by
  count_by-append q [] ys = omega arith
  count_by-append q (x ∷ xs) ys = ground (arith, count_by-append q xs ys)

  -- The same for the payloads of the batches that `p` holds of.
  unfoldable pub count_in : (HookBatch P → Bool) → (P → Bool) → List (HookBatch P) → ℕ
  count_in p q [] = 0
  count_in p q (b ∷ bs) =
      let rest = count_in p q bs in if p b then count_by q b.payloads + rest else rest

  module _ (p : HookBatch P → Bool) (q : P → Bool) where
    pub count_in-append :
        (bs cs : List (HookBatch P)) → count_in p q (bs ++ cs) ≡ count_in p q bs + count_in p q cs
    unfolding count_in
    count_in-append [] cs = omega arith
    count_in-append (b ∷ bs) cs = ground (arith, count_in-append bs cs)

    pub count_in-insert_by :
        (le : HookBatch P → HookBatch P → Bool) (b : HookBatch P) (bs : List (HookBatch P))
        → count_in p q (insert_by le b bs) ≡ count_in p q (b ∷ bs)
    unfolding count_in
    count_in-insert_by le b [] = refl
    count_in-insert_by le b (c ∷ bs) = ground (arith, count_in-insert_by le b bs)

    pub count_in-sort_by :
        (le : HookBatch P → HookBatch P → Bool) (bs : List (HookBatch P))
        → count_in p q (sort_by le bs) ≡ count_in p q bs
    unfolding count_in
    count_in-sort_by le [] = refl
    count_in-sort_by le (b ∷ bs) =
        ground (arith, count_in-insert_by le b (sort_by le bs), count_in-sort_by le bs)

    pub count_in-filter_by :
        (bs : List (HookBatch P)) → count_in (λ _. true) q (filter_by p bs) ≡ count_in p q bs
    unfolding count_in
    count_in-filter_by [] = refl
    count_in-filter_by (b ∷ bs) = ground (arith, count_in-filter_by bs)

  -- The payloads of the batches inside a range, in their order.
  unfoldable pub payloads_within : RowRange → List (HookBatch P) → List P
  payloads_within range [] = []
  payloads_within range (b ∷ bs) =
      let rest = payloads_within range bs in if is_within range b then b.payloads ++ rest else rest

  pub count_by-payloads_within :
      (range : RowRange) (q : P → Bool) (bs : List (HookBatch P))
      → count_by q (payloads_within range bs) ≡ count_in (is_within range) q bs
  unfolding payloads_within count_in count_by
  count_by-payloads_within range q [] = refl
  count_by-payloads_within range q (b ∷ bs) = ground (
    arith,
    count_by-append q b.payloads (payloads_within range bs),
    count_by-payloads_within range q bs,
  )

  -- The batches lie in the range, and none of them ends before it starts.
  unfoldable pub AllWithin : RowRange → List (HookBatch P) → Type 0
  AllWithin range [] = Unit
  AllWithin range (b ∷ bs) =
      (range.start_row_id ≤ b.start_row_id)
      × (b.start_row_id ≤ b.end_row_id)
      × (b.end_row_id ≤ range.end_row_id)
      × AllWithin range bs

  AllWithin-insert_by :
      (range : RowRange) (le : HookBatch P → HookBatch P → Bool) (b : HookBatch P)
      (bs : List (HookBatch P))
      → AllWithin range (b ∷ bs)
      → AllWithin range (insert_by le b bs)
  unfolding AllWithin
  AllWithin-insert_by range le b [] h = h
  AllWithin-insert_by range le b (c ∷ bs) h = elim (Bool-cases (le b c)) [
    | inl first ↦ rw first h
    | inr later ↦
        rw later (h.3.0, h.3.1, h.3.2, AllWithin-insert_by range le b bs (h.0, h.1, h.2, h.3.3))
  ]

  pub AllWithin-sort_by :
      (range : RowRange) (le : HookBatch P → HookBatch P → Bool) (bs : List (HookBatch P))
      → AllWithin range bs
      → AllWithin range (sort_by le bs)
  unfolding AllWithin
  AllWithin-sort_by range le [] h = tt
  AllWithin-sort_by range le (b ∷ bs) h =
      AllWithin-insert_by range le b (sort_by le bs)
        (h.0, h.1, h.2, AllWithin-sort_by range le bs h.3)

  pub AllWithin-add_payload :
      (range : RowRange) (start end : ℕ) (x : P) (bs : List (HookBatch P))
      → range.start_row_id ≤ start
      → start ≤ end
      → end ≤ range.end_row_id
      → AllWithin range bs
      → AllWithin range (add_payload start end x bs)
  unfolding AllWithin add_payload
  AllWithin-add_payload range start end x [] a b c h = (a, b, c, tt)
  AllWithin-add_payload range start end x (d ∷ bs) a b c h =
      elim (Bool-cases (d.start_row_id == start)) [
        | inl same ↦ rw same h
        | inr other ↦ rw other (h.0, h.1, h.2, AllWithin-add_payload range start end x bs a b c h.3)
      ]
