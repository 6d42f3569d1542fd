-- ===== src/Runs/Batch.antt =====
-- src/db/database.ts: `queueSyncRuns` writes in chunks what `queueSyncRun` would write run by run.
use mathlib.Core.List.{append-nil, append_assoc, map-append}
use cued.Base.{
  ℕ, zero, suc, ◌<◌, ◌≤◌, true, List, [], ◌∷◌, ◌++◌, map, none, some, any-append, String, ◌≡◌, refl,
  ◌∙◌, sym, ap, arith, take, drop, length,
}
use cued.Platform.{Platform, platform_eq}
use cued.Runs.Types.{SyncRun, RunTables, QueueInput}
use cued.Runs.Queue.{
  queued_row, queue_sync_run, chunk_from, chunk_array, insert_chunks, queue_sync_runs,
  write_batch_size, has_queued_or_running_run,
}

module _ {ℓ} {A : Type ℓ} where
  abbrev pub concat : List (List A) → List A
  concat [] = []
  concat (xs ∷ xss) = xs ++ concat xss

  take-drop : (n : ℕ) (xs : List A) → take n xs ++ drop n xs ≡ xs
  take-drop zero xs = refl
  take-drop (suc n) [] = refl
  take-drop (suc n) (x ∷ xs) = ap (◌∷◌ x) (take-drop n xs)

  length-drop-le : (n : ℕ) (xs : List A) → length (drop n xs) ≤ length xs
  length-drop-le zero xs = omega arith
  length-drop-le (suc n) [] = omega arith
  length-drop-le (suc n) (x ∷ xs) = omega (arith, length-drop-le n xs)

  concat-chunk_from :
      (rounds size : ℕ) (xs : List A)
      → length xs ≤ rounds
      → concat (chunk_from rounds (suc size) xs) ≡ xs
  unfolding chunk_from
  concat-chunk_from zero size [] h = refl
  concat-chunk_from zero size (x ∷ xs) h = absurd (omega arith)
  concat-chunk_from (suc rounds) size [] h = refl
  concat-chunk_from (suc rounds) size (x ∷ xs) h =
      ap (λ rest. x ∷ (take size xs ++ rest))
        (concat-chunk_from rounds size (drop size xs) (omega (arith, length-drop-le size xs)))
      ∙ ap (◌∷◌ x) (take-drop size xs)

  -- Cutting a list into chunks of a positive size loses, repeats and moves no item.
  pub concat-chunk_array : (xs : List A) (size : ℕ) → 0 < size → concat (chunk_array xs size) ≡ xs
  unfolding chunk_array
  concat-chunk_array xs zero h = absurd (omega arith)
  concat-chunk_array xs (suc size) h = concat-chunk_from (length xs) size xs (omega arith)

insert_chunks-concat :
    (now : ℕ) (chunks : List (List (String × QueueInput))) (rows : List SyncRun)
    → insert_chunks now chunks rows ≡ rows ++ map (λ e. queued_row now e.0 e.1) (concat chunks)
unfolding insert_chunks
insert_chunks-concat now [] rows = sym (append-nil rows)
insert_chunks-concat now (chunk ∷ chunks) rows =
    insert_chunks-concat now chunks (rows ++ map (λ e. queued_row now e.0 e.1) chunk)
    ∙ append_assoc rows _ _
    ∙ ap (◌++◌ rows) (sym (map-append _ chunk (concat chunks)))

-- One `queueSyncRun` for each input, at the same time.
pub queue_each : ℕ → List (String × QueueInput) → RunTables → RunTables
queue_each now [] db = db
queue_each now ((id, input) ∷ rest) db = queue_each now rest (queue_sync_run now id input db)

pub queue_each_rows :
    (now : ℕ) (inputs : List (String × QueueInput)) (db : RunTables)
    → queue_each now inputs db
      ≡ record db { sync_runs = db.sync_runs ++ map (λ e. queued_row now e.0 e.1) inputs }
unfolding queue_each queue_sync_run
queue_each_rows now [] db =
    ap (λ rows. record db { sync_runs = rows }) (sym (append-nil db.sync_runs))
queue_each_rows now ((id, input) ∷ rest) db =
    queue_each_rows now rest (queue_sync_run now id input db)
    ∙ ap (λ rows. record db { sync_runs = rows }) (append_assoc db.sync_runs _ _)

-- The batch leaves the tables as the single calls would, and answers the identifiers in order.
pub queue_sync_runs-queue_each :
    (now : ℕ) (inputs : List (String × QueueInput)) (db : RunTables)
    → queue_sync_runs now inputs db ≡ (queue_each now inputs db, map (λ e. e.0) inputs)
unfolding queue_sync_runs
queue_sync_runs-queue_each now [] db = unfold queue_each in refl
queue_sync_runs-queue_each now (input ∷ inputs) db =
    let all = input ∷ inputs in
    ap (λ rows. (record db { sync_runs = rows }, map (λ e. e.0) all))
      (insert_chunks-concat now (chunk_array all write_batch_size) db.sync_runs
        ∙ ap (λ es. db.sync_runs ++ map (λ e. queued_row now e.0 e.1) es)
            (concat-chunk_array all write_batch_size (omega arith)))
    ∙ ap (λ after. (after, map (λ e. e.0) all)) (sym (queue_each_rows now all db))

-- A run that was queued for an account is seen by the question whether one is waiting or running,
-- asked for the account or for the whole platform.
pub queue_sync_run-has_queued :
    (now : ℕ) (id key : String) (platform : Platform) (input : QueueInput) (db : RunTables)
    → input.platform ≡ some platform
    → input.account_key ≡ some key
    → (has_queued_or_running_run platform (some key) (queue_sync_run now id input db) ≡ true)
      × (has_queued_or_running_run platform none (queue_sync_run now id input db) ≡ true)
unfolding has_queued_or_running_run queue_sync_run queued_row
queue_sync_run-has_queued now id key platform input db p k =
    (any-append _ db.sync_runs _ ∙ ground arith, any-append _ db.sync_runs _ ∙ ground arith)
