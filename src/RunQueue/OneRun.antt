-- ===== src/RunQueue/OneRun.antt =====
-- src/runtime/run-queue.ts: an account never has two runs waiting or being ingested at once.
use cued.Base.{
  is_empty, ℕ, suc, ◌+◌, ◌≤◌, ◌<◌, ltb, Bool, true, false, ◌&&◌, ◌||◌, not, String, List, [], ◌∷◌,
  ◌++◌, map, Option, some, ◌==◌, string_eq, option_eq, ◌≡◌, refl, sym, ◌∙◌, arith, inl, inr,
  Bool-cases, Option-cases, filter_by, any,
}
use cued.Platform.{
  Platform, platform_eq, platform_word, SyncRunType, queued, ingesting, run_status_eq, sync_resume,
}
use cued.Runs.{
  SyncRun, RunTables, queued_row, queue_sync_run, has_queued_or_running_run, count_where,
  count_where-any,
}
use cued.RunQueue.Target.{target_key, parse_run_target_key, unique}
use cued.RunQueue.TargetKey.{parse_run_target_key_iff}
use cued.RunQueue.Service.{Details, Daemon, target_input, resume_targets, queue_sync_resume}

-- The runs of an account that are waiting or being ingested.
abbrev pub is_pending : Platform → String → SyncRun → Bool
is_pending p k r =
    (r.platform == some p)
    && (r.account_key == some k)
    && (r.status == queued || r.status == ingesting)

unfoldable pub pending : Platform → String → RunTables → ℕ
pending p k runs = count_where (is_pending p k) runs.sync_runs

pub count_where-append :
    (f : SyncRun → Bool) (xs ys : List SyncRun)
    → count_where f (xs ++ ys) ≡ count_where f xs + count_where f ys
count_where-append f [] ys = omega arith
count_where-append f (x ∷ xs) ys = ground (arith, count_where-append f xs ys)

pub has_queued-pending :
    (p : Platform) (k : String) (runs : RunTables)
    → has_queued_or_running_run p (some k) runs ≡ ltb 0 (pending p k runs)
unfolding has_queued_or_running_run pending
has_queued-pending p k runs = sym (count_where-any (is_pending p k) runs.sync_runs)

module _ (stringify : Details → Option String) (p : Platform) (k : String) where
  pending-queue_ne :
      (now : ℕ) (id : String) (t : SyncRunType) (p' : Platform) (k' : String) (runs : RunTables)
      → ((p' == p) && (k' == k)) ≡ false
      → pending p k (queue_sync_run now id (target_input stringify t p' k') runs) ≡ pending p k runs
  unfolding pending queue_sync_run queued_row target_input
  pending-queue_ne now id t p' k' runs h =
      count_where-append (is_pending p k) runs.sync_runs _ ∙ ground arith

  pending-queue_self :
      (now : ℕ) (id : String) (t : SyncRunType) (runs : RunTables)
      → pending p k (queue_sync_run now id (target_input stringify t p k) runs)
        ≡ suc (pending p k runs)
  unfolding pending queue_sync_run queued_row target_input
  pending-queue_self now id t runs =
      count_where-append (is_pending p k) runs.sync_runs _ ∙ ground arith

  -- Queueing a run for an account that has none pending.
  pub queue_free :
      (now : ℕ) (id : String) (t : SyncRunType) (p' : Platform) (k' : String) (runs : RunTables)
      → has_queued_or_running_run p' (some k') runs ≡ false
      → pending p k runs ≤ 1
      → (pending p k (queue_sync_run now id (target_input stringify t p' k') runs) ≤ 1)
        × (pending p k runs
            ≤ pending p k (queue_sync_run now id (target_input stringify t p' k') runs))
  queue_free now id t p' k' runs free one = elim (Bool-cases ((p' == p) && (k' == k))) [
    | inl e ↦ ground (arith, e, pending-queue_self now id t runs, has_queued-pending p k runs)
    | inr e ↦ ground (arith, pending-queue_ne now id t p' k' runs e)
  ]

  -- The loop adds no second run, and takes none away.
  resume_targets-le :
      (draw : ℕ → String) (now n : ℕ) (keys : List String) (runs : RunTables)
      → pending p k runs ≤ 1
      → let after = (resume_targets stringify draw now n keys runs).0 in
        (pending p k after ≤ 1) × (pending p k runs ≤ pending p k after)
  unfolding resume_targets
  resume_targets-le draw now n [] runs one = (one, omega arith)
  resume_targets-le draw now n (key ∷ keys) runs one =
      elim (Option-cases (parse_run_target_key key)) [
        | inl e ↦ rw (e, resume_targets) (resume_targets-le draw now n keys runs one)
        | inr ((p', k'), e) ↦ elim (Bool-cases (has_queued_or_running_run p' (some k') runs)) [
          | inl b ↦ rw (e, b, resume_targets) (resume_targets-le draw now n keys runs one)
          | inr b ↦
              let step = queue_free now (draw n) sync_resume p' k' runs b one in
              let rest = resume_targets-le draw now (suc n) keys _ step.0 in
              rw (e, b, resume_targets) (rest.0, omega arith)
        ]
      ]

  resume_targets-serves :
      (draw : ℕ → String) (now n : ℕ) (keys : List String) (runs : RunTables) (target : String)
      → parse_run_target_key target ≡ some (p, k)
      → any (λ j. j == target) keys ≡ true
      → pending p k runs ≤ 1
      → 0 < pending p k (resume_targets stringify draw now n keys runs).0
  unfolding resume_targets
  resume_targets-serves draw now n [] runs target parsed m one = cc
  resume_targets-serves draw now n (key ∷ keys) runs target parsed m one =
      elim (Bool-cases (key == target)) [
        | inl same ↦
            let e : parse_run_target_key key ≡ some (p, k) = ground (arith, parsed, same) in
            elim (Bool-cases (has_queued_or_running_run p (some k) runs)) [
              | inl b ↦
                  let rest = resume_targets-le draw now n keys runs one in
                  rw (e, b, resume_targets) (ground (arith, has_queued-pending p k runs, b, rest))
              | inr b ↦
                  let step = queue_free now (draw n) sync_resume p k runs b one in
                  let rest = resume_targets-le draw now (suc n) keys _ step.0 in
                  rw (e, b, resume_targets)
                    (omega (arith, pending-queue_self now (draw n) sync_resume runs, rest))
            ]
        | inr other ↦
            let m' : any (λ j. j == target) keys ≡ true = rw other at m in
            elim (Option-cases (parse_run_target_key key)) [
              | inl e ↦
                  rw (e, resume_targets)
                    (resume_targets-serves draw now n keys runs target parsed m' one)
              | inr ((p', k'), e) ↦
                  elim (Bool-cases (has_queued_or_running_run p' (some k') runs)) [
                    | inl b ↦
                        rw (e, b, resume_targets)
                          (resume_targets-serves draw now n keys runs target parsed m' one)
                    | inr b ↦
                        let step = queue_free now (draw n) sync_resume p' k' runs b one in
                        rw (e, b, resume_targets)
                          (resume_targets-serves draw now (suc n) keys _ target parsed m' step.0)
                  ]
            ]
      ]

filter_keeps :
    (target k : String) (ks : List String)
    → (k == target) ≡ false
    → any (λ j. j == target) (filter_by (λ j. not (j == k)) ks) ≡ any (λ j. j == target) ks
filter_keeps target k [] h = refl
filter_keeps target k (j ∷ ks) h = ground (arith, filter_keeps target k ks h)

any-unique :
    (target : String) (ks : List String)
    → any (λ j. j == target) (unique ks) ≡ any (λ j. j == target) ks
unfolding unique
any-unique target [] = refl
any-unique target (k ∷ ks) = ground (arith, any-unique target ks, filter_keeps target k (unique ks))

-- The accounts that a request names.
abbrev pub names : Platform → String → List (Platform × String) → Bool
names p k targets = any (λ t. (t.0 == p) && (t.1 == k)) targets

names-keys :
    (p : Platform) (k : String) (targets : List (Platform × String))
    → names p k targets ≡ true
    → any
        (λ j. j == target_key (platform_word p) k)
        (map (λ t. target_key (platform_word t.0) t.1) targets)
      ≡ true
names-keys p k [] h = cc
names-keys p k (t ∷ targets) h = ground (arith, names-keys p k targets)

abbrev keys_of : List (Platform × String) → List String
keys_of targets = map (λ t. target_key (platform_word t.0) t.1) targets

runs-queue_sync_resume :
    (stringify : Details → Option String) (draw : ℕ → String) (now : ℕ)
    (targets : List (Platform × String)) (d : Daemon)
    → (queue_sync_resume stringify draw now targets d).0.runs
      ≡ (resume_targets stringify draw now 0 (unique (keys_of targets)) d.runs).0
unfolding queue_sync_resume
runs-queue_sync_resume stringify draw now targets d = ground arith

-- Resuming a set of accounts never leaves an account with two pending runs, if none had two
-- before; it takes no pending run away; and afterwards every account that was named, with a key
-- that is not empty, has exactly one.
pub queue_sync_resume-one_run :
    (stringify : Details → Option String) (draw : ℕ → String) (now : ℕ)
    (targets : List (Platform × String)) (d : Daemon) (p : Platform) (k : String)
    → pending p k d.runs ≤ 1
    → let after = (queue_sync_resume stringify draw now targets d).0.runs in
      (pending p k after ≤ 1)
      × (pending p k d.runs ≤ pending p k after)
      × (names p k targets ≡ true → is_empty k ≡ false → pending p k after ≡ 1)
queue_sync_resume-one_run stringify draw now targets d p k one =
    let keys = unique (keys_of targets) in
    let (few, kept) = resume_targets-le stringify p k draw now 0 keys d.runs one in
    rw (runs-queue_sync_resume stringify draw now targets d) (
      few,
      kept,
      λ named filled.
          let target = target_key (platform_word p) k in
          let listed = any-unique target (keys_of targets) ∙ names-keys p k targets named in
          let read = (parse_run_target_key_iff target p k).1 (refl, filled) in
          omega (
            arith,
            few,
            resume_targets-serves stringify p k draw now 0 keys d.runs target read listed one,
          ),
    )
