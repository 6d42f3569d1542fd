-- ===== src/Daemon/Timer.antt =====
-- src/runtime/daemon/server.ts, `scheduleIngestDrain`, `scheduleProjectionDrain` and
-- `scheduleSearchIndexDrain`, which are one code over the variables of three queues. Node's timers
-- are modelled by the callbacks that are armed: `setImmediate` and `setTimeout` arm one,
-- `clearTimeout` takes one away, and the event loop takes one that is due and runs it.
use cued.Base.{
  ℕ, zero, suc, ◌+◌, Bool, true, false, not, ◌&&◌, List, [], ◌∷◌, ◌++◌, Option, none, some, ℤ,
  pos_part, filter_by, ◌==◌, nat_eq, if◌then◌else◌,
}
use cued.Runs.{is_reached}

pub data TimerKind : Type 0 where
  immediate timeout : TimerKind

pub record Armed : Type 0 where
  pub handle : ℕ
  pub due : ℕ
  pub kind : TimerKind

-- The variables `…DrainScheduled`, `…DrainDueAt` and `…DrainTimer` of a queue, the callbacks that
-- are armed for it, and the handle that the next one gets.
pub record Drain : Type 0 where
  pub scheduled : Bool
  pub due_at : Option ℕ
  pub timer : Option ℕ
  pub armed : List Armed
  pub next_handle : ℕ

-- As the daemon starts.
abbrev pub idle_drain : Drain
idle_drain = record { scheduled = false; due_at = none; timer = none; armed = []; next_handle = 0 }

abbrev pub without_handle : ℕ → List Armed → List Armed
without_handle h armed = filter_by (λ a. not (a.handle == h)) armed

-- `if (timer) { clearTimeout(timer); timer = null; }`
unfoldable pub clear_timer : Drain → Drain
clear_timer d = elim d.timer [
  | none ↦ d
  | some h ↦ record d { timer = none; armed = without_handle h d.armed }
]

arm_kind : ℕ → TimerKind
arm_kind zero = TimerKind.immediate
arm_kind (suc n) = TimerKind.timeout

arm_timer : Drain → ℕ → Option ℕ
arm_timer d zero = d.timer
arm_timer d (suc n) = some d.next_handle

-- Sets the due time and arms the callback: an immediate one leaves the timer's variable alone.
unfoldable pub arm : ℕ → ℕ → Drain → Drain
unfolding arm_kind arm_timer
arm now delay d = record {
  scheduled = true;
  due_at = some (now + delay);
  timer = arm_timer d delay;
  armed =
      d.armed ++ record { handle = d.next_handle; due = now + delay; kind = arm_kind delay } ∷ [];
  next_handle = suc d.next_handle;
}

-- A drain that is scheduled for no later time stays as it is.
unfoldable pub schedule_drain : ℕ → ℤ → Drain → Drain
unfolding clear_timer arm
schedule_drain now delay_ms d =
    let delay = pos_part delay_ms in
    if d.scheduled && is_reached d.due_at (now + delay)
    then d
    else arm now delay (if d.scheduled then clear_timer d else d)

fired_timer : TimerKind → Option ℕ → Option ℕ
fired_timer TimerKind.immediate timer = timer
fired_timer TimerKind.timeout timer = none

-- A callback leaves the event loop; that of a timeout first clears the timer's variable.
unfoldable pub fire : Armed → Drain → Drain
unfolding fired_timer
fire a d = record d { timer = fired_timer a.kind d.timer; armed = without_handle a.handle d.armed }

-- The first two lines of each drain.
unfoldable pub begin_drain : Drain → Drain
begin_drain d = record d { scheduled = false; due_at = none }
