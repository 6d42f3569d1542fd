-- ===== src/Projection/Hooks.antt =====
-- src/runtime/projection/service.ts: the hooks on new messages, in batches that wait until their
-- range of raw events is projected. The type of the payloads is a parameter. `emit` tells whether
-- the promise of a payload is kept; a promise that is rejected ends the release. While a release
-- waits for a promise, other calls may change the batches, which it shares with them.
use cued.Base.{
  ℕ, zero, suc, drop, ◌+◌, ◌-◌, ◌*◌, ◌/◌, min, ltb, leb, Bool, true, false, ◌&&◌, ◌||◌, not, List,
  [], ◌∷◌, ◌++◌, Option, none, some, sort_by, ◌==◌, nat_eq, if◌then◌else◌,
}

pub record RowRange : Type 0 where
  pub start_row_id : ℕ
  pub end_row_id : ℕ

-- `range.endRowId < range.startRowId`
abbrev pub is_backward : RowRange → Bool
is_backward range = ltb range.end_row_id range.start_row_id

pub record HookBatch (P : Type 0) : Type 0 where
  pub start_row_id : ℕ
  pub end_row_id : ℕ
  pub payloads : List P

pub record HookPayload (P : Type 0) : Type 0 where
  pub row_id : ℕ
  pub payload : P

-- The order that batches are sorted in; equal starts keep their order.
abbrev pub starts_first : {P : Type 0} → HookBatch P → HookBatch P → Bool
starts_first b c = leb b.start_row_id c.start_row_id

-- The first row of the batch that a row is in.
unfoldable pub batch_start : RowRange → ℕ → ℕ → ℕ
batch_start range batch_size row =
    range.start_row_id + (row - range.start_row_id) / batch_size * batch_size

unfoldable pub batch_end : RowRange → ℕ → ℕ → ℕ
batch_end range batch_size start = min (start + batch_size - 1) range.end_row_id

-- A call of `releaseCompletedRange` while it waits: the place in the live array `pending` that it
-- goes on at, the payloads of the batch at hand that are still to be emitted, and `remaining`.
pub record Release (P : Type 0) : Type 0 where
  pub index : ℕ
  pub payloads : List P
  pub remaining : List (HookBatch P)

pub data Progress (P : Type 0) : Type 0 where
  awaiting : P → Release P → Progress P
  finished : List (HookBatch P) → Progress P

module _ {P : Type 0} where
  -- `enqueue`, on the list `pending`
  unfoldable pub enqueue : RowRange → List P → List (HookBatch P) → List (HookBatch P)
  enqueue range [] pending = pending
  enqueue range (x ∷ xs) pending =
      if is_backward range
      then pending
      else sort_by starts_first (
          pending
          ++ record {
            start_row_id = range.start_row_id;
            end_row_id = range.end_row_id;
            payloads = x ∷ xs;
          }
            ∷ [])

  -- One payload after another, until a promise is rejected.
  unfoldable pub emit_all : (P → Bool) → List P → List P × Bool
  emit_all emit [] = ([], true)
  emit_all emit (x ∷ xs) =
      let (rest, kept) = emit_all emit xs in if emit x then (x ∷ rest, kept) else ([], false)

  unfoldable pub emit_batches : (P → Bool) → List (HookBatch P) → List P × Bool
  unfolding emit_all
  emit_batches emit [] = ([], true)
  emit_batches emit (b ∷ bs) =
      let (here, kept) = emit_all emit b.payloads in
      let (rest, kept') = emit_batches emit bs in
      if kept then (here ++ rest, kept') else (here, false)

  abbrev pub is_within : RowRange → HookBatch P → Bool
  is_within range b = leb range.start_row_id b.start_row_id && leb b.end_row_id range.end_row_id

  -- The inner loop goes on with the payloads of a batch, or passes on to what follows it.
  unfoldable pub emit_next : ℕ → List (HookBatch P) → Progress P → List P → Progress P
  emit_next index remaining following [] = following
  emit_next index remaining following (x ∷ xs) =
      awaiting x (record { index = index; payloads = xs; remaining = remaining })

  -- The loop up to the next `await`, over what stands from the place `index` on.
  unfoldable pub next_emit : RowRange → ℕ → List (HookBatch P) → List (HookBatch P) → Progress P
  unfolding emit_next
  next_emit range index remaining [] = finished remaining
  next_emit range index remaining (b ∷ bs) =
      let following = next_emit range (suc index) remaining bs in
      let passed = next_emit range (suc index) (remaining ++ b ∷ []) bs in
      if is_within range b then emit_next (suc index) remaining following b.payloads else passed

  -- What a call does when its promise is kept.
  unfoldable pub resume : RowRange → Release P → List (HookBatch P) → Progress P
  unfolding next_emit emit_next
  resume range r pending =
      emit_next r.index r.remaining (next_emit range r.index r.remaining (drop r.index pending))
        r.payloads

  abbrev pub emitted_first :
      P → Option (List P × Bool × List (HookBatch P)) → Option (List P × Bool × List (HookBatch P))
  emitted_first x none = none
  emitted_first x (some (xs, kept, pending)) = some (x ∷ xs, kept, pending)

  -- For at most as many promises as `rounds`; `meanwhile` is what other calls do to `pending` while
  -- a promise is awaited. The last line of the method writes `remaining` over it.
  unfoldable pub release_rounds :
      RowRange
      → (P → Bool)
      → (ℕ → List (HookBatch P) → List (HookBatch P))
      → ℕ
      → Progress P
      → List (HookBatch P)
      → Option (List P × Bool × List (HookBatch P))
  unfolding resume
  release_rounds range emit meanwhile rounds (finished remaining) pending =
      some ([], true, remaining)
  release_rounds range emit meanwhile zero (awaiting x r) pending = none
  release_rounds range emit meanwhile (suc rounds) (awaiting x r) pending =
      let pending' = meanwhile rounds pending in
      let rest = release_rounds range emit meanwhile rounds (resume range r pending') pending' in
      if emit x then emitted_first x rest else some ([], false, pending')

  -- `releaseCompletedRange`: what was emitted, whether every promise was kept, and `pending`; no
  -- answer means that the rounds were too few.
  unfoldable pub release_completed_range :
      RowRange
      → (P → Bool)
      → (ℕ → List (HookBatch P) → List (HookBatch P))
      → ℕ
      → List (HookBatch P)
      → Option (List P × Bool × List (HookBatch P))
  unfolding release_rounds next_emit
  release_completed_range range emit meanwhile rounds pending =
      if is_backward range
      then some ([], true, pending)
      else release_rounds range emit meanwhile rounds (next_emit range 0 [] pending) pending

  -- `releaseAll`, which empties `pending` before it waits and leaves it to the other calls then.
  unfoldable pub release_all : (P → Bool) → List (HookBatch P) → List P × Bool × List (HookBatch P)
  unfolding emit_batches
  release_all emit pending =
      let (emitted, kept) = emit_batches emit (sort_by starts_first pending) in (emitted, kept, [])

  abbrev pub clear : List (HookBatch P) → List (HookBatch P)
  clear pending = []

  -- The `Map` of batches, in the order in which their keys were set.
  unfoldable pub add_payload : ℕ → ℕ → P → List (HookBatch P) → List (HookBatch P)
  add_payload start end x [] =
      record { start_row_id = start; end_row_id = end; payloads = x ∷ [] } ∷ []
  add_payload start end x (b ∷ bs) =
      let rest = add_payload start end x bs in
      if b.start_row_id == start
      then record b { payloads = b.payloads ++ x ∷ [] } ∷ bs
      else b ∷ rest

  abbrev pub is_in_range : RowRange → HookPayload P → Bool
  is_in_range range e = not (ltb e.row_id range.start_row_id || ltb range.end_row_id e.row_id)

  -- The loop over the entries.
  unfoldable pub add_entries :
      RowRange → ℕ → List (HookPayload P) → List (HookBatch P) → List (HookBatch P)
  unfolding batch_start batch_end add_payload
  add_entries range batch_size [] batches = batches
  add_entries range batch_size (e ∷ es) batches =
      let start = batch_start range batch_size e.row_id in
      let added = add_payload start (batch_end range batch_size start) e.payload batches in
      add_entries range batch_size es (if is_in_range range e then added else batches)

  -- `buildProjectionMessageHookBatches`
  unfoldable pub build_batches : RowRange → List (HookPayload P) → ℕ → List (HookBatch P)
  unfolding add_entries
  build_batches range [] batch_size = []
  build_batches range (e ∷ es) batch_size =
      if is_backward range || batch_size == 0
      then []
      else sort_by starts_first (add_entries range batch_size (e ∷ es) [])

  -- src/runtime/daemon/server.ts, `queueMessageReceivedHooks`: each batch is enqueued.
  unfoldable pub enqueue_batches : List (HookBatch P) → List (HookBatch P) → List (HookBatch P)
  unfolding enqueue
  enqueue_batches [] pending = pending
  enqueue_batches (b ∷ bs) pending = enqueue_batches bs (
      enqueue (record { start_row_id = b.start_row_id; end_row_id = b.end_row_id }) b.payloads
        pending)

  -- The size of the batches is what `getEffectiveProjectionBatchSize` gives.
  unfoldable pub queue_message_received_hooks :
      Option RowRange → List (HookPayload P) → ℕ → List (HookBatch P) → List (HookBatch P)
  unfolding enqueue_batches build_batches
  queue_message_received_hooks none messages batch_size pending = pending
  queue_message_received_hooks (some range) messages batch_size pending =
      enqueue_batches (build_batches range messages batch_size) pending
