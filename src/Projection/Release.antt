-- ===== src/Projection/Release.antt =====
-- src/runtime/projection/service.ts and `queueMessageReceivedHooks` of src/runtime/daemon/server.ts:
-- from the messages of a range to the hooks that its completion emits.
use native.Mathlib.Nat.{div-add-mod'}
use cued.Projection.Undisturbed.{nobody, release_completed_range-undisturbed}
use cued.Base.{
  length, ℕ, ◌+◌, ◌-◌, ◌≤◌, ◌<◌, Bool, true, false, ◌||◌, not, List, [], ◌∷◌, ◌++◌, map, some,
  filter_by, ◌==◌, nat_eq, ◌≡◌, refl, ap, ◌∙◌, inl, inr, arith, Bool-cases,
}
use cued.Projection.Hooks.{
  RowRange, HookBatch, HookPayload, is_backward, starts_first, enqueue, is_within,
  release_completed_range, batch_start, batch_end, add_payload, is_in_range, add_entries,
  build_batches, enqueue_batches, queue_message_received_hooks,
}
use cued.Projection.Delivery.{
  count_by, count_by-append, count_in, count_in-append, count_in-sort_by, count_in-filter_by,
  payloads_within, count_by-payloads_within, AllWithin, AllWithin-sort_by, AllWithin-add_payload,
}

batch_start_le :
    (range : RowRange) (batch_size row : ℕ)
    → range.start_row_id ≤ row
    → batch_start range batch_size row ≤ row
unfolding batch_start
batch_start_le range batch_size row h =
    omega (arith, div-add-mod' (row - range.start_row_id) batch_size)

module _ {P : Type 0} (range : RowRange) (batch_size : ℕ) (size : 0 < batch_size) where
  add_entries-AllWithin :
      (es : List (HookPayload P)) (bs : List (HookBatch P))
      → AllWithin range bs
      → AllWithin range (add_entries range batch_size es bs)
  unfolding add_entries
  add_entries-AllWithin [] bs h = h
  add_entries-AllWithin (e ∷ es) bs h = elim (Bool-cases (is_in_range range e)) [
    | inr out ↦ rw out (add_entries-AllWithin es bs h)
    | inl here ↦
        let start = batch_start range batch_size e.row_id in
        let first : range.start_row_id ≤ e.row_id = ground (arith, here) in
        let last : e.row_id ≤ range.end_row_id = ground (arith, here) in
        let le = batch_start_le range batch_size e.row_id first in
        let ge : range.start_row_id ≤ start = unfold batch_start in omega arith in
        let ends : start ≤ batch_end range batch_size start =
          unfold batch_end in omega (arith, le, last, size) in
        let within : batch_end range batch_size start ≤ range.end_row_id =
          unfold batch_end in omega arith in
        rw here (
          add_entries-AllWithin es
            (add_payload start (batch_end range batch_size start) e.payload bs)
            (AllWithin-add_payload range start (batch_end range batch_size start) e.payload bs ge
              ends within h))
  ]

  module _ (q : P → Bool) where
    count_in-add_payload :
        (start end : ℕ) (x : P) (bs : List (HookBatch P))
        → count_in (λ _. true) q (add_payload start end x bs)
          ≡ count_in (λ _. true) q bs + count_by q (x ∷ [])
    unfolding count_in add_payload
    count_in-add_payload start end x [] = omega arith
    count_in-add_payload start end x (b ∷ bs) =
        ground (arith, count_by-append q b.payloads (x ∷ []), count_in-add_payload start end x bs)

    count_in-add_entries :
        (es : List (HookPayload P)) (bs : List (HookBatch P))
        → count_in (λ _. true) q (add_entries range batch_size es bs)
          ≡ count_in (λ _. true) q bs
            + count_by q (map (λ e. e.payload) (filter_by (is_in_range range) es))
    unfolding add_entries count_by
    count_in-add_entries [] bs = omega arith
    count_in-add_entries (e ∷ es) bs = elim (Bool-cases (is_in_range range e)) [
      | inr out ↦ rw out (count_in-add_entries es bs)
      | inl here ↦
          let start = batch_start range batch_size e.row_id in
          let end = batch_end range batch_size start in
          let one = count_in-add_payload start end e.payload bs in
          let rest = count_in-add_entries es (add_payload start end e.payload bs) in
          rw here (ground (arith, one, rest))
    ]

module _ {P : Type 0} (p : HookBatch P → Bool) (q : P → Bool) where
  count_in-enqueue :
      (range : RowRange) (payloads : List P) (pending : List (HookBatch P))
      → range.start_row_id ≤ range.end_row_id
      → count_in p q (enqueue range payloads pending)
        ≡ count_in p q pending
          + count_in p q (
              record {
                start_row_id = range.start_row_id;
                end_row_id = range.end_row_id;
                payloads = payloads;
              }
              ∷ [])
  unfolding enqueue count_in count_by
  count_in-enqueue range [] pending h = ground arith
  count_in-enqueue range (x ∷ xs) pending h =
      let b : HookBatch P = record {
        start_row_id = range.start_row_id;
        end_row_id = range.end_row_id;
        payloads = x ∷ xs;
      } in
      let forward : is_backward range ≡ false = ground arith in
      rw forward (
        count_in-sort_by p q starts_first (pending ++ b ∷ [])
        ∙ count_in-append p q pending (b ∷ []))

  count_in-enqueue_batches :
      (range : RowRange) (bs pending : List (HookBatch P))
      → AllWithin range bs
      → count_in p q (enqueue_batches bs pending) ≡ count_in p q pending + count_in p q bs
  unfolding enqueue_batches AllWithin count_in
  count_in-enqueue_batches range [] pending h = omega arith
  count_in-enqueue_batches range (b ∷ bs) pending h =
      let b_range : RowRange = record {
        start_row_id = b.start_row_id;
        end_row_id = b.end_row_id;
      } in
      let one = count_in-enqueue b_range b.payloads pending h.1 in
      let rest = count_in-enqueue_batches range bs (enqueue b_range b.payloads pending) h.3 in
      rest ∙ rw one (ground arith)

module _ {P : Type 0} (range : RowRange) (q : P → Bool) where
  -- Batches that lie in the range are released with it, and none of them is kept.
  count_in-AllWithin :
      (bs : List (HookBatch P))
      → AllWithin range bs
      → (count_in (is_within range) q bs ≡ count_in (λ _. true) q bs)
        × (count_in (λ b. not (is_within range b)) q bs ≡ 0)
  unfolding AllWithin count_in
  count_in-AllWithin [] h = (refl, refl)
  count_in-AllWithin (b ∷ bs) h =
      let (all_of, none_of) = count_in-AllWithin bs h.3 in
      let inside : is_within range b ≡ true = ground (arith, h.0, h.2) in
      (rw inside (ap (λ n. count_by q b.payloads + n) all_of), rw inside none_of)

  build_batches-AllWithin :
      (messages : List (HookPayload P)) (batch_size : ℕ)
      → 0 < batch_size
      → range.start_row_id ≤ range.end_row_id
      → AllWithin range (build_batches range messages batch_size)
        × (count_in (λ _. true) q (build_batches range messages batch_size)
            ≡ count_by q (map (λ e. e.payload) (filter_by (is_in_range range) messages)))
  unfolding build_batches AllWithin count_in count_by
  build_batches-AllWithin [] batch_size size h = (tt, refl)
  build_batches-AllWithin (e ∷ es) batch_size size h =
      let batches = add_entries range batch_size (e ∷ es) [] in
      let open_range : (is_backward range || batch_size == 0) ≡ false = ground (arith, size, h) in
      rw open_range (
        AllWithin-sort_by range starts_first batches
            (add_entries-AllWithin range batch_size size (e ∷ es) [] tt),
        count_in-sort_by (λ _. true) q starts_first batches
            ∙ count_in-add_entries range batch_size size q (e ∷ es) []
            ∙ omega arith,
      )

-- When the hooks of a range's messages have been queued, in batches of any size, behind whatever is
-- pending, and every promise is kept and no other call of the barrier comes in meanwhile, then
-- completing the range ends, emits every payload as often as it stands among the messages of the
-- range and the pending batches inside the range, and leaves every payload of the other pending
-- batches as often as it stood there.
pub release_completed_range-count_by :
    {P : Type 0} (range : RowRange) (messages : List (HookPayload P)) (batch_size : ℕ)
    (pending : List (HookBatch P)) (q : P → Bool)
    → 0 < batch_size
    → range.start_row_id ≤ range.end_row_id
    → let queued = queue_message_received_hooks (some range) messages batch_size pending in
      (rounds : ℕ) × (emitted : List P) × (remaining : List (HookBatch P))
      × (release_completed_range range (λ _. true) nobody rounds queued
          ≡ some (emitted, true, remaining))
      × (count_by q emitted
          ≡ count_in (is_within range) q pending
            + count_by q (map (λ e. e.payload) (filter_by (is_in_range range) messages)))
      × (count_in (λ _. true) q remaining ≡ count_in (λ b. not (is_within range b)) q pending)
unfolding queue_message_received_hooks
release_completed_range-count_by range messages batch_size pending q size h =
    let built = build_batches range messages batch_size in
    let queued = enqueue_batches built pending in
    let inside = is_within range in
    let (within, total) = build_batches-AllWithin range q messages batch_size size h in
    let (all_of, none_of) = count_in-AllWithin range q built within in
    let forward : is_backward range ≡ false = ground (arith, h) in
    (
      length (payloads_within range queued),
      payloads_within range queued,
      filter_by (λ b. not (inside b)) queued,
      release_completed_range-undisturbed range queued forward,
      count_by-payloads_within range q queued
          ∙ count_in-enqueue_batches inside q range built pending within
          ∙ ap (λ n. count_in inside q pending + n) (all_of ∙ total),
      count_in-filter_by (λ b. not (inside b)) q queued
          ∙ count_in-enqueue_batches (λ b. not (inside b)) q range built pending within
          ∙ omega (arith, none_of),
    )
