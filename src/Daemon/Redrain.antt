-- ===== src/Daemon/Redrain.antt =====
-- src/runtime/daemon/server.ts, `drainIngestQueue`: the callback that drains the ingest queue again.
use mathlib.Core.List.{Memᴰ}
use cued.Base.{
  ℕ, zero, suc, ◌≤◌, ◌+◌, length, ltb, true, false, String, [], ◌∷◌, some, ℤ, pos, ◌≡◌, ◌⊎◌, inl,
  inr, ap, arith, Bool-cases, Option-cases,
}
use cued.Platform.{ingesting}
use cued.Runs.{All, is_claimable, get_next_claimable_run_at, is_reached}
use cued.Daemon.Timer.{Armed, Drain, schedule_drain, begin_drain, fire}
use cued.Daemon.Wakeups.{IsTimed, schedule_drain-one_callback, fire-IsTimed}
use cued.Daemon.Queues.{Queues, effective_ingest_concurrency}
use cued.Daemon.Drains.{
  ingest_run_types, fill_ingest, await_ingest, claim_ingest, ingest_started, drain_ingest_queue,
  retry_delay, is_projection_due,
}
use cued.Daemon.Ingest.{
  fill_ingest-full, fill_ingest-none, fill_ingest-some, drain_ingest_queue-fill,
  drain_ingest_queue-IsDue, drain_ingest_queue-due,
}

-- One callback is armed, and it is due by then.
abbrev pub IsArmedBy : ℕ → Drain → Type 0
IsArmedBy by d = (a : Armed) × (d.armed ≡ a ∷ []) × (a.due ≤ by)

-- There is no room for another run, or no run can be claimed and a callback is armed that drains the
-- queue again when one can be.
abbrev pub IsSettled : ℕ → Queues → Type 0
IsSettled now q =
    (ltb (length q.active_ingest_runs) (effective_ingest_concurrency now q) ≡ false)
    ⊎ (All (λ r. is_claimable ingest_run_types ingesting now r ≡ false) q.runs.sync_runs
        × ((next : ℕ)
            → get_next_claimable_run_at ingest_run_types ingesting q.runs ≡ some next
            → IsArmedBy (now + retry_delay now next) q.ingest_drain))

-- A queue whose variables tell of its callbacks has one armed when it is due.
IsTimed-IsArmedBy :
    (now by : ℕ) (d : Drain) → IsTimed now d → is_reached d.due_at by ≡ true → IsArmedBy by d
IsTimed-IsArmedBy now by d (inl (s, u, t, m)) h = absurd (ground (arith, u, h))
IsTimed-IsArmedBy now by d (inr (a, s, u, m, k)) h = (a, m, ground (arith, u, h))

schedule-IsTimed :
    (now : ℕ) (delay_ms : ℤ) (d : Drain)
    → IsTimed now d
    → IsTimed now (schedule_drain now delay_ms d)
schedule-IsTimed now delay_ms d h =
    (schedule_drain-one_callback now now delay_ms d (omega arith) h).0

await_ingest-IsTimed :
    (now : ℕ) (q : Queues)
    → IsTimed now q.ingest_drain
    → IsTimed now (await_ingest now q).ingest_drain
unfolding await_ingest
await_ingest-IsTimed now q h =
    elim (Option-cases (get_next_claimable_run_at ingest_run_types ingesting q.runs)) [
      | inl c ↦ rw (c, await_ingest) h
      | inr (at, c) ↦
          rw (c, await_ingest) (schedule-IsTimed now (pos (retry_delay now at)) q.ingest_drain h)
    ]

fill_ingest-IsTimed :
    (draw : ℕ → String) (now rounds : ℕ) (q : Queues)
    → IsTimed now q.ingest_drain
    → IsTimed now (fill_ingest draw now rounds q).ingest_drain
unfolding fill_ingest ingest_started
fill_ingest-IsTimed draw now zero q h = h
fill_ingest-IsTimed draw now (suc rounds) q h =
    elim (Bool-cases (ltb (length q.active_ingest_runs) (effective_ingest_concurrency now q))) [
      | inr e ↦ rw (fill_ingest-full draw now rounds q e) h
      | inl e ↦ elim (Option-cases (claim_ingest now q).1) [
        | inl c ↦ rw (fill_ingest-none draw now rounds q e c) (await_ingest-IsTimed now q h)
        | inr (r, c) ↦
            rw (fill_ingest-some draw now rounds q e (ap (λ x. ((claim_ingest now q).0, x)) c))
              (fill_ingest-IsTimed draw now rounds _ h)
      ]
    ]

-- The queues when the callback `a` of the ingest queue has run.
abbrev pub drained : (ℕ → String) → ℕ → Armed → Queues → Queues
drained draw now a q =
    drain_ingest_queue draw now (record q { ingest_drain = fire a q.ingest_drain })

module _ (draw : ℕ → String) (now : ℕ) (a : Armed) (q : Queues) (timed : IsTimed now q.ingest_drain)
    (member : Memᴰ a q.ingest_drain.armed) where
  drained-IsTimed : IsTimed now (drained draw now a q).ingest_drain
  unfolding drain_ingest_queue
  drained-IsTimed =
      let idle = fire-IsTimed now a q.ingest_drain timed member in
      let soon = schedule-IsTimed now (pos 1000) (begin_drain (fire a q.ingest_drain)) idle in
      elim (Bool-cases q.is_update_shutdown_requested) [
        | inl s ↦ rw (s, drain_ingest_queue) idle
        | inr s ↦ elim (Bool-cases q.is_processing_projection) [
          | inl p ↦ rw (s, p, drain_ingest_queue) soon
          | inr p ↦ elim (Bool-cases (is_projection_due now q)) [
            | inl d ↦ rw (s, p, d, drain_ingest_queue) soon
            | inr d ↦
                rw
                  (drain_ingest_queue-fill draw now
                    (record q { ingest_drain = fire a q.ingest_drain }) s p d)
                  (fill_ingest-IsTimed draw now (suc (length q.runs.sync_runs)) _ idle)
          ]
        ]
      ]

  -- When the callback of a scheduled ingest queue, whose variables tell of it, runs with no shutdown
  -- requested, no projection being processed and none due, then either as many runs are processed as
  -- may be, or no run can be claimed and, if one can be later, one callback is armed that drains the
  -- queue again by that time or a second from now, whichever is later.
  pub drain_ingest_queue-IsSettled :
      q.is_update_shutdown_requested ≡ false
      → q.is_processing_projection ≡ false
      → is_projection_due now q ≡ false
      → IsSettled now (drained draw now a q)
  unfolding is_projection_due
  drain_ingest_queue-IsSettled s p d =
      elim (drain_ingest_queue-IsDue draw now (record q { ingest_drain = fire a q.ingest_drain }) s
        p d) [
          | inl full ↦ inl full
          | inr (shut, due) ↦ inr (
            shut,
            λ next e.
                IsTimed-IsArmedBy now (now + retry_delay now next)
                  (drained draw now a q).ingest_drain drained-IsTimed (due next e),
          )
        ]

  -- The callback of a scheduled ingest queue, whose variables tell of it, strands no run: unless a
  -- shutdown was requested, when it has run while a further run may be processed and one can be
  -- claimed from some time on, one callback is armed that drains the queue again by that time or a
  -- second from now, whichever is later.
  pub drain_ingest_queue-strands_none :
      (next : ℕ)
      → q.is_update_shutdown_requested ≡ false
      → let e = drained draw now a q in
        ltb (length e.active_ingest_runs) (effective_ingest_concurrency now e) ≡ true
        → get_next_claimable_run_at ingest_run_types ingesting e.runs ≡ some next
        → IsArmedBy (now + retry_delay now next) e.ingest_drain
  drain_ingest_queue-strands_none next s room e =
      IsTimed-IsArmedBy now (now + retry_delay now next) (drained draw now a q).ingest_drain
        drained-IsTimed
        (drain_ingest_queue-due draw now next (record q { ingest_drain = fire a q.ingest_drain }) s
          room e)
