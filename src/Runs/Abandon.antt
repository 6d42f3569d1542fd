-- ===== src/Runs/Abandon.antt =====
-- src/db/database.ts, `failInProgressRuns`: every active run is given up. The identifiers of the
-- error rows are drawn one after another.
use cued.Base.{
  ℕ, suc, ◌+◌, true, false, String, List, [], ◌∷◌, ◌++◌, none, some, any, filter_by, length,
  length-append, ◌≡◌, refl, subst, ◌∙◌, ◌⊎◌, inl, inr, arith, Bool-cases, ◌==◌, string_eq,
}
use cued.Platform.{failed, run_status_eq}
use cued.Runs.Types.{SyncRun, RunTables, update_where}
use cued.Runs.Finish.{is_in_progress}
use cued.Runs.Rows.{All, All-map, All-update_where}

-- What the UPDATE sets.
unfoldable pub given_up : ℕ → SyncRun → SyncRun
given_up now r = record r { status = failed; finished_at = some now }

-- The loop; `n` identifiers have been drawn.
unfoldable pub give_up_each : (ℕ → String) → ℕ → String → ℕ → List SyncRun → RunTables → RunTables
unfolding given_up
give_up_each draw now message n [] db = db
give_up_each draw now message n (run ∷ runs) db =
    give_up_each draw now message (suc n) runs (record {
      sync_runs = update_where (λ r. r.id == run.id) (given_up now) db.sync_runs;
      sync_run_errors =
          db.sync_run_errors
          ++ record {
            id = draw n;
            sync_run_id = run.id;
            platform = none;
            account_key = none;
            error_code = none;
            error_message = message;
            details_json = none;
            created_at = now;
          }
            ∷ [];
    })

unfoldable pub fail_in_progress_runs : (ℕ → String) → ℕ → String → RunTables → RunTables × ℕ
unfolding give_up_each
fail_in_progress_runs draw now message db =
    let stuck = filter_by is_in_progress db.sync_runs in
    (give_up_each draw now message 0 stuck db, length stuck)

-- An active row is one of those that are still to be given up.
abbrev IsListed : List SyncRun → SyncRun → Type 0
IsListed stuck r = (is_in_progress r ≡ false) ⊎ (any (λ s. s.id == r.id) stuck ≡ true)

All-IsListed : (rows : List SyncRun) → All (IsListed (filter_by is_in_progress rows)) rows
All-IsListed [] = tt
All-IsListed (r ∷ rs) = elim (Bool-cases (is_in_progress r)) [
  | inr idle ↦
      let e : filter_by is_in_progress rs ≡ filter_by is_in_progress (r ∷ rs) = rw idle refl in
      subst (λ stuck. All (IsListed stuck) (r ∷ rs)) e (inl idle, All-IsListed rs)
  | inl active ↦
      let e : r ∷ filter_by is_in_progress rs ≡ filter_by is_in_progress (r ∷ rs) =
        rw active refl in
      subst (λ stuck. All (IsListed stuck) (r ∷ rs)) e
        (inr (ground arith), All-map rs (λ s h. weaken s h) (All-IsListed rs))
]
  where
    weaken :
        (s : SyncRun)
        → IsListed (filter_by is_in_progress rs) s
        → IsListed (r ∷ filter_by is_in_progress rs) s
    weaken s (inl h) = inl h
    weaken s (inr h) = inr (ground (arith, h))

give_up_each-All :
    (draw : ℕ → String) (now : ℕ) (message : String) (n : ℕ) (runs : List SyncRun) (db : RunTables)
    → All (IsListed runs) db.sync_runs
    → All (λ r. is_in_progress r ≡ false) (give_up_each draw now message n runs db).sync_runs
unfolding give_up_each is_in_progress
give_up_each-All draw now message n [] db h = All-map db.sync_runs (λ r q. ground (arith, q)) h
give_up_each-All draw now message n (run ∷ runs) db h =
    give_up_each-All draw now message (suc n) runs _ (
      All-update_where (λ r. r.id == run.id) (given_up now) {Q = IsListed runs} db.sync_runs
        (λ r q e. inl (ground arith)) (λ r q e. ground (arith, q, e)) h)

give_up_each-length :
    (draw : ℕ → String) (now : ℕ) (message : String) (n : ℕ) (runs : List SyncRun) (db : RunTables)
    → length (give_up_each draw now message n runs db).sync_run_errors
      ≡ length db.sync_run_errors + length runs
unfolding give_up_each
give_up_each-length draw now message n [] db = omega arith
give_up_each-length draw now message n (run ∷ runs) db =
    give_up_each-length draw now message (suc n) runs _
    ∙ omega (arith, length-append db.sync_run_errors (_ ∷ []))

-- After it no run is in progress, and there is one error more for each run that is counted in the
-- answer.
pub fail_in_progress_runs-none_left :
    (draw : ℕ → String) (now : ℕ) (message : String) (db : RunTables)
    → let (after, count) = fail_in_progress_runs draw now message db in
      All (λ r. is_in_progress r ≡ false) after.sync_runs
      × (length after.sync_run_errors ≡ length db.sync_run_errors + count)
unfolding fail_in_progress_runs
fail_in_progress_runs-none_left draw now message db =
    let stuck = filter_by is_in_progress db.sync_runs in
    (
      give_up_each-All draw now message 0 stuck db (All-IsListed db.sync_runs),
      give_up_each-length draw now message 0 stuck db,
    )
