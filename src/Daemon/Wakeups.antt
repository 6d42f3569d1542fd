-- ===== src/Daemon/Wakeups.antt =====
-- src/runtime/daemon/server.ts, the schedulers of the three queues: how many callbacks they leave
-- armed, and when a queue is drained next.
use mathlib.Core.List.{Memᴰ}
use cued.Base.{
  ℕ, zero, suc, ◌≤◌, ◌+◌, true, false, List, [], ◌∷◌, none, some, ℤ, pos_part, ◌≡◌, ◌⊎◌, inl, inr,
  refl, sym, ap, subst, ◌∙◌, arith, Bool-cases, leb,
}
use cued.Runs.{min_of, is_reached}
use cued.Daemon.Timer.{
  TimerKind, Armed, Drain, schedule_drain, clear_timer, arm, fire, begin_drain, without_handle,
}

only_member : (a b : Armed) → Memᴰ a (b ∷ []) → a ≡ b
only_member a b (Memᴰ.head e) = e
only_member a b (Memᴰ.tail m) = elim m [ ]

-- The callback of a scheduled drain is either immediate and its time has come, or a timeout that the
-- timer's variable names.
abbrev pub IsHeld : ℕ → Armed → Drain → Type 0
IsHeld now a d =
    ((a.kind ≡ TimerKind.immediate) × (d.timer ≡ none) × a.due ≤ now)
    ⊎ ((a.kind ≡ TimerKind.timeout) × (d.timer ≡ some a.handle))

-- Nothing is armed, or the one callback that the variables tell of.
abbrev pub IsTimed : ℕ → Drain → Type 0
IsTimed now d =
    ((d.scheduled ≡ false) × (d.due_at ≡ none) × (d.timer ≡ none) × (d.armed ≡ []))
    ⊎ ((a : Armed) × (d.scheduled ≡ true)
        × (d.due_at ≡ some a.due)
        × (d.armed ≡ a ∷ [])
        × IsHeld now a d)

abbrev new_callback : ℕ → ℕ → Drain → Armed
new_callback now zero d = record {
  handle = d.next_handle;
  due = now + 0;
  kind = TimerKind.immediate;
}
new_callback now (suc n) d = record {
  handle = d.next_handle;
  due = now + suc n;
  kind = TimerKind.timeout;
}

arm-IsTimed :
    (now delay : ℕ) (d : Drain) → d.armed ≡ [] → d.timer ≡ none → IsTimed now (arm now delay d)
unfolding arm
arm-IsTimed now zero d e t =
    inr (new_callback now 0 d, refl, refl, rw e refl, inl (refl, t, omega arith))
arm-IsTimed now (suc n) d e t =
    inr (new_callback now (suc n) d, refl, refl, rw e refl, inr (refl, refl))

IsTimed-later : (now later : ℕ) (d : Drain) → now ≤ later → IsTimed now d → IsTimed later d
IsTimed-later now later d le (inl h) = inl h
IsTimed-later now later d le (inr (a, s, u, m, inl (k, t, p))) =
    inr (a, s, u, m, inl (k, t, omega (arith, le, p)))
IsTimed-later now later d le (inr (a, s, u, m, inr h)) = inr (a, s, u, m, inr h)

without_own : (a : Armed) (armed : List Armed) → armed ≡ a ∷ [] → without_handle a.handle armed ≡ []
without_own a armed e = rw e (ground arith)

module _ (now : ℕ) (delay_ms : ℤ) (d : Drain) where
  schedule_drain-idle :
      d.scheduled ≡ false → schedule_drain now delay_ms d ≡ arm now (pos_part delay_ms) d
  unfolding schedule_drain
  schedule_drain-idle s = rw s refl

  schedule_drain-sooner :
      d.scheduled ≡ true
      → is_reached d.due_at (now + pos_part delay_ms) ≡ true
      → schedule_drain now delay_ms d ≡ d
  unfolding schedule_drain
  schedule_drain-sooner s p = rw (s, p) refl

  schedule_drain-moved :
      d.scheduled ≡ true
      → is_reached d.due_at (now + pos_part delay_ms) ≡ false
      → schedule_drain now delay_ms d ≡ arm now (pos_part delay_ms) (clear_timer d)
  unfolding schedule_drain
  schedule_drain-moved s p = rw (s, p) refl

-- While the clock does not run backwards, a queue whose variables tell of the callback that is armed
-- for it, if one is, has exactly one callback armed when it is asked to drain, its variables tell of
-- it, and it is due at the earlier of the time asked for and the time that was due before.
pub schedule_drain-one_callback :
    (before now : ℕ) (delay_ms : ℤ) (d : Drain)
    → before ≤ now
    → IsTimed before d
    → IsTimed now (schedule_drain now delay_ms d)
      × ((schedule_drain now delay_ms d).scheduled ≡ true)
      × ((schedule_drain now delay_ms d).due_at ≡ min_of d.due_at (some (now + pos_part delay_ms)))
unfolding clear_timer arm
schedule_drain-one_callback before now delay_ms d le (inl (s, u, t, m)) =
    rw (schedule_drain-idle now delay_ms d s)
      (arm-IsTimed now (pos_part delay_ms) d m t, refl, rw u refl)
schedule_drain-one_callback before now delay_ms d le (inr (a, s, u, m, h)) =
    elim (Bool-cases (leb a.due (now + pos_part delay_ms))) [
      | inl e ↦
          rw (schedule_drain-sooner now delay_ms d s (ground (arith, u, e)))
            (IsTimed-later before now d le (inr (a, s, u, m, h)), s, rw u (ground (arith, e)))
      | inr e ↦ rw (schedule_drain-moved now delay_ms d s (ground (arith, u, e))) (elim h [
        | inl (k, t, p) ↦ absurd (ground (arith, e, p, le))
        | inr (k, t) ↦ (
          arm-IsTimed now (pos_part delay_ms) (clear_timer d) (rw t (without_own a d.armed m))
              (rw t refl),
          refl,
          rw u (ground (arith, e)),
        )
      ])
    ]

fired : {now : ℕ} (a b : Armed) (d : Drain) → b ≡ a → IsHeld now b d → (fire a d).timer ≡ none
unfolding fire
fired a b d q (inl (k, t, p)) = rw (sym (ap (λ x. x.kind) q), k) t
fired a b d q (inr (k, t)) = rw (sym (ap (λ x. x.kind) q), k) refl

-- A callback that runs leaves its queue idle.
pub fire-IsTimed :
    (now : ℕ) (a : Armed) (d : Drain)
    → IsTimed now d
    → Memᴰ a d.armed
    → IsTimed now (begin_drain (fire a d))
unfolding fire begin_drain
fire-IsTimed now a d (inl (s, u, t, m)) e = absurd (elim (subst (λ l. Memᴰ a l) m e) [ ])
fire-IsTimed now a d (inr (b, s, u, m, h)) e =
    let same = only_member a b (subst (λ l. Memᴰ a l) m e) in
    inl (
      refl,
      refl,
      fired a b d (sym same) h,
      without_own a d.armed (m ∙ ap (λ x. x ∷ []) (sym same)),
    )
