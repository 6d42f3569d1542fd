-- ===== src/Runs/Writes.antt =====
-- src/db/database.ts: the writes to the table `sync_runs` by the methods of `CuedDatabase`, and what
-- a claim whose attempt is over is answered after them.
use cued.Base.{
  suc, filter_by, ℕ, ◌<◌, ◌≤◌, ltb, Bool, false, List, [], ◌∷◌, Option, none, some, String, ◌≡◌,
  ◌≢◌, refl, ◌⊎◌, inl, inr, arith, Bool-cases, nat_eq, string_eq, option_eq, ℤ,
}
use cued.Platform.{Platform, SyncRunType, SyncRunStatus, completed, failed, run_status_eq}
use cued.Runs.Types.{SyncRun, RunTables, QueueInput, SyncRunClaim, update_where, count_where}
use cued.Runs.Queue.{queue_sync_run}
use cued.Runs.Claim.{claimed, claim_next_queued_run}
use cued.Runs.Finish.{
  is_in_progress, is_claimed_by, progressed, update_run_progress, ended, finish_run, fail_run,
  recover_in_progress_runs, reschedule_run, update_run_details, update_run_status,
}
use cued.Runs.Delete.{reset_source, clear_integration_runtime_state}
use cued.Runs.Abandon.{given_up, give_up_each, fail_in_progress_runs}
use cued.Runs.Rows.{
  All, All-map, All-append, All-filter_by, All-update_where, update_where_none, count_where_none,
}
use cued.Runs.Schedule.{claim_cases}

-- Every attempt of the run up to `attempt` is over.
abbrev pub Fenced : String → ℕ → List SyncRun → Type 0
Fenced run_id attempt = All (λ r. (r.id ≢ run_id) ⊎ (attempt < r.attempt))

-- One call of a method that writes to the tables (`queueSyncRuns` is one call for each input), with
-- the claim that it names if it names one.
pub data Write : Type 0 where
  queues : ℕ → String → QueueInput → Write
  claims : List SyncRunType → SyncRunStatus → Option String → Option ℤ → ℕ → Write
  progresses : ℕ → String → Option (Option String) → Option ℤ → Option SyncRunClaim → Write
  finishes : ℕ → String → Option (Option String) → Option SyncRunClaim → Write
  fails :
      ℕ
      → String
      → String
      → String
      → Option (Option String)
      → Option String
      → Option SyncRunClaim
      → Write
  recovers : ℕ → String → Write
  reschedules : String → ℤ → Write
  details : String → Option String → Write
  sets_status : String → SyncRunStatus → Option (Option String) → Write
  gives_up : (ℕ → String) → ℕ → String → Write
  resets : Platform → Write
  clears : Platform → String → Write

unfoldable pub write : Write → RunTables → RunTables
unfolding queue_sync_run claim_next_queued_run update_run_progress finish_run fail_run
    recover_in_progress_runs reschedule_run update_run_details update_run_status
    fail_in_progress_runs reset_source clear_integration_runtime_state
write (queues now id input) db = queue_sync_run now id input db
write (claims types next owner lease now) db =
    (claim_next_queued_run types next owner lease now db).0
write (progresses now id json lease claim) db = (update_run_progress now id json lease claim db).0
write (finishes now id json claim) db = (finish_run now id json claim db).0
write (fails now error_id id message json code claim) db =
    (fail_run now error_id id message json code claim db).0
write (recovers now code) db = (recover_in_progress_runs now code db).0
write (reschedules id at) db = reschedule_run id at db
write (details id json) db = update_run_details id json db
write (sets_status id status json) db = update_run_status id status json db
write (gives_up draw now message) db = (fail_in_progress_runs draw now message db).0
write (resets p) db = reset_source p db
write (clears p key) db = clear_integration_runtime_state p key db

unfoldable pub writes : List Write → RunTables → RunTables
unfolding write
writes [] db = db
writes (w ∷ ws) db = writes ws (write w db)

-- No new run takes the identifier.
abbrev pub AvoidsId : String → List Write → Type 0
AvoidsId run_id [] = Unit
AvoidsId run_id (queues now id input ∷ ws) = (id ≢ run_id) × AvoidsId run_id ws
AvoidsId run_id (_ ∷ ws) = AvoidsId run_id ws

pub sync_runs-fail_run :
    (now : ℕ) (error_id id message : String) (json : Option (Option String)) (code : Option String)
    (claim : Option SyncRunClaim) (db : RunTables)
    → (fail_run now error_id id message json code claim db).0.sync_runs
      ≡ update_where (is_claimed_by id claim) (ended failed now json code) db.sync_runs
unfolding fail_run
sync_runs-fail_run now error_id id message json code claim db =
    ground (arith, Bool-cases (ltb 0 (count_where (is_claimed_by id claim) db.sync_runs)))

module _ (run_id : String) (attempt : ℕ) where
  Fenced-update_where :
      (p : SyncRun → Bool) (f : SyncRun → SyncRun) (rows : List SyncRun)
      → ((r : SyncRun) → ((f r).id ≡ r.id) × (r.attempt ≤ (f r).attempt))
      → Fenced run_id attempt rows
      → Fenced run_id attempt (update_where p f rows)
  Fenced-update_where p f rows keeps h =
      All-update_where p f rows (λ r q _. ground (arith, keeps r)) (λ r q _. q) h

  Fenced-claim :
      (types : List SyncRunType) (next : SyncRunStatus) (owner : Option String) (lease : Option ℤ)
      (now : ℕ) (db : RunTables)
      → Fenced run_id attempt db.sync_runs
      → Fenced run_id attempt (claim_next_queued_run types next owner lease now db).0.sync_runs
  unfolding claimed
  Fenced-claim types next owner lease now db h = elim (claim_cases types next owner lease now db) [
    | inl (e, _) ↦ rw e h
    | inr (r, e, _) ↦ rw e (Fenced-update_where _ _ db.sync_runs (λ s. (refl, omega arith)) h)
  ]

  Fenced-fail :
      (now : ℕ) (error_id id message : String) (json : Option (Option String))
      (code : Option String) (claim : Option SyncRunClaim) (db : RunTables)
      → Fenced run_id attempt db.sync_runs
      → Fenced run_id attempt (fail_run now error_id id message json code claim db).0.sync_runs
  unfolding ended
  Fenced-fail now error_id id message json code claim db h =
      rw (sync_runs-fail_run now error_id id message json code claim db)
        (Fenced-update_where _ _ db.sync_runs (λ s. (refl, omega arith)) h)

  Fenced-give_up_each :
      (draw : ℕ → String) (now : ℕ) (message : String) (n : ℕ) (runs : List SyncRun)
      (db : RunTables)
      → Fenced run_id attempt db.sync_runs
      → Fenced run_id attempt (give_up_each draw now message n runs db).sync_runs
  unfolding give_up_each given_up
  Fenced-give_up_each draw now message n [] db h = h
  Fenced-give_up_each draw now message n (run ∷ runs) db h =
      Fenced-give_up_each draw now message (suc n) runs _
        (Fenced-update_where _ _ db.sync_runs (λ s. (refl, omega arith)) h)

  Fenced-write :
      (w : Write) (db : RunTables)
      → AvoidsId run_id (w ∷ [])
      → Fenced run_id attempt db.sync_runs
      → Fenced run_id attempt (write w db).sync_runs
  unfolding write queue_sync_run update_run_progress finish_run recover_in_progress_runs
      reschedule_run update_run_details update_run_status fail_in_progress_runs reset_source
      clear_integration_runtime_state
  Fenced-write (queues now id input) db d h = All-append _ db.sync_runs _ h (inl d.0, tt)
  Fenced-write (claims types next owner lease now) db d h =
      Fenced-claim types next owner lease now db h
  Fenced-write (progresses now id json lease claim) db d h =
      Fenced-update_where _ _ db.sync_runs (λ s. (refl, omega arith)) h
  Fenced-write (finishes now id json claim) db d h =
      Fenced-update_where _ _ db.sync_runs (λ s. (refl, omega arith)) h
  Fenced-write (fails now error_id id message json code claim) db d h =
      Fenced-fail now error_id id message json code claim db h
  Fenced-write (recovers now code) db d h =
      Fenced-update_where _ _ db.sync_runs (λ s. (refl, omega arith)) h
  Fenced-write (reschedules id at) db d h =
      Fenced-update_where _ _ db.sync_runs (λ s. (refl, omega arith)) h
  Fenced-write (details id json) db d h =
      Fenced-update_where _ _ db.sync_runs (λ s. (refl, omega arith)) h
  Fenced-write (sets_status id status json) db d h =
      Fenced-update_where _ _ db.sync_runs (λ s. (refl, omega arith)) h
  Fenced-write (gives_up draw now message) db d h =
      Fenced-give_up_each draw now message 0 (filter_by is_in_progress db.sync_runs) db h
  Fenced-write (resets p) db d h = All-filter_by _ _ db.sync_runs h
  Fenced-write (clears p key) db d h = All-filter_by _ _ db.sync_runs h

  pub Fenced-writes :
      (ws : List Write) (db : RunTables)
      → AvoidsId run_id ws
      → Fenced run_id attempt db.sync_runs
      → Fenced run_id attempt (writes ws db).sync_runs
  unfolding writes
  Fenced-writes [] db d h = h
  Fenced-writes (queues now id input ∷ ws) db d h =
      Fenced-writes ws _ d.1 (Fenced-write (queues now id input) db (d.0, tt) h)
  Fenced-writes (w ∷ ws) db d h = Fenced-writes ws _ d (Fenced-write w db tt h)

-- A claim with an attempt that is over fits no row.
pub Fenced-unclaimed :
    (run_id : String) (stale : SyncRunClaim) (rows : List SyncRun)
    → Fenced run_id stale.attempt rows
    → All (λ r. is_claimed_by run_id (some stale) r ≡ false) rows
unfolding is_claimed_by
Fenced-unclaimed run_id stale rows h = All-map rows (λ r q. ground arith) h

-- What a writer with this claim is answered: nothing is written and it is told so.
pub record IsRejected (run_id : String) (claim : SyncRunClaim) (db : RunTables) : Type 0 where
  pub finish :
      (now : ℕ) (json : Option (Option String))
      → finish_run now run_id json (some claim) db ≡ (db, false)
  pub fail :
      (now : ℕ) (error_id message : String) (json : Option (Option String)) (code : Option String)
      → fail_run now error_id run_id message json code (some claim) db ≡ (db, false)
  pub progress :
      (now : ℕ) (json : Option (Option String)) (lease : Option ℤ)
      → update_run_progress now run_id json lease (some claim) db ≡ (db, false)

pub unclaimed-IsRejected :
    (run_id : String) (claim : SyncRunClaim) (db : RunTables)
    → All (λ r. is_claimed_by run_id (some claim) r ≡ false) db.sync_runs
    → IsRejected run_id claim db
unfolding finish_run fail_run update_run_progress
unclaimed-IsRejected run_id claim db h =
    let zero_rows = count_where_none (is_claimed_by run_id (some claim)) db.sync_runs h in
    record {
      finish = λ now json. ground (
        arith,
        zero_rows,
        update_where_none (is_claimed_by run_id (some claim)) (ended completed now json none)
            db.sync_runs h,
      );
      fail = λ now error_id message json code. ground (
        arith,
        zero_rows,
        update_where_none (is_claimed_by run_id (some claim)) (ended failed now json code)
            db.sync_runs h,
      );
      progress = λ now json lease. ground (
        arith,
        zero_rows,
        update_where_none (is_claimed_by run_id (some claim)) (progressed now json lease)
            db.sync_runs h,
      );
    }
