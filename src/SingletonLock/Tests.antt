-- ===== src/SingletonLock/Tests.antt =====
-- src/core/singleton-lock.ts at concrete files.
use cued.Base.{
  ℕ, ◌==◌, nat_eq, if◌then◌else◌, Bool, true, false, ◌&&◌, List, [], ◌∷◌, Option, none, some, ℤ,
  pos, ◌≡◌, refl, ◌≢◌, ◌⊎◌, inl, inr, arith, ℕ_discrete, Option-discrete,
}
use cued.SingletonLock.File.{
  SingletonLockMetadata, Slot, LockFiles, read_singleton_lock, write_slot, put_slot,
}
use cued.SingletonLock.Lease.{
  LockOptions, Attempt, Others, Lease, Acquired, acquired, build_metadata, is_fresh,
  is_owner_running, acquire_singleton_lock, still_owns_path, heartbeat, singleton_lock_stale_ms,
}
use cued.SingletonLock.Holding.{IsUndisturbed, IsHolding, HasSlots, IsOlder}
use cued.SingletonLock.Torn.{heartbeat-torn}
use cued.SingletonLock.Safety.{acquire_singleton_lock-IsHolding, heartbeat-IsHolding}

abbrev always_fits : SingletonLockMetadata → Bool
always_fits m = true

abbrev all_running : ℤ → Bool
all_running pid = true

abbrev finds_stale : Option SingletonLockMetadata → Bool
finds_stale existing = false

abbrev nothing : LockFiles → LockFiles
nothing files = files

abbrev quiet_attempt : Attempt
quiet_attempt = record { opened = nothing; written = nothing; initialized = nothing }

-- Other processes do this while the probe runs, and nothing else.
abbrev while_probing : (LockFiles → LockFiles) → Others
while_probing act = record {
  first = quiet_attempt;
  refused = nothing;
  probing = act;
  removed = nothing;
  second = quiet_attempt;
}

abbrev undisturbed : Others
undisturbed = while_probing nothing

quiet_attempt-IsUndisturbed : IsUndisturbed quiet_attempt
quiet_attempt-IsUndisturbed = record {
  opened = λ files file e. (e, refl);
  written = λ files file e. (e, refl);
  initialized = λ files file e. (e, refl);
}

abbrev options_of : ℕ → LockOptions
options_of pid = record {
  kind = "daemon";
  pid = pos pid;
  stale_ms = singleton_lock_stale_ms;
  version = some "1.0";
  executable_path = some "";
  app_path = none;
}

abbrev metadata_of : ℕ → ℕ → SingletonLockMetadata
metadata_of pid now = record {
  kind = "daemon";
  pid = pos pid;
  started_at = now;
  updated_at = now;
  version = some "1.0";
  executable_path = none;
  app_path = none;
}

-- The lock of a daemon that has not written for twenty seconds.
abbrev stale_slots : ℕ → List Slot
stale_slots file = some (metadata_of 7 0) ∷ some (metadata_of 7 0) ∷ []

abbrev stale_lock : LockFiles
stale_lock = record { path = some 0; slots = stale_slots; next_file = 1 }

abbrev lease_on : ℕ → ℕ → Lease
lease_on file pid = record {
  released = false;
  owned_file = some file;
  active_slot = 1;
  current = metadata_of pid 20000;
}

abbrev taken_over : LockFiles
taken_over = write_slot 1 1 (some (metadata_of 8 20000)) (
    write_slot 1 0 (some (metadata_of 8 20000))
      (record { path = some 1; slots = λ f. if f == 1 then [] else stale_slots f; next_file = 2 }))

acquired_stale :
    acquire_singleton_lock always_fits all_running finds_stale undisturbed
      (options_of 8)
      20000
      stale_lock
    ≡ (taken_over, acquired (lease_on 1 8))
unfolding acquire_singleton_lock ℕ_discrete write_slot
acquired_stale = refl

acquire_singleton_lock-IsHolding_example :
    IsHolding (lease_on 1 8) taken_over
    × (still_owns_path (lease_on 1 8) taken_over ≡ true)
    × (read_singleton_lock taken_over ≡ some (build_metadata (options_of 8) 20000))
    × ((stale_lock.path ≡ none)
        ⊎ (((is_fresh (options_of 8) 20000 (read_singleton_lock stale_lock)
                && is_owner_running all_running (read_singleton_lock stale_lock))
              ≡ false)
            × (finds_stale (read_singleton_lock stale_lock) ≡ false)))
acquire_singleton_lock-IsHolding_example =
    acquire_singleton_lock-IsHolding always_fits all_running finds_stale undisturbed (options_of 8)
      20000 stale_lock taken_over (lease_on 1 8) quiet_attempt-IsUndisturbed
      quiet_attempt-IsUndisturbed acquired_stale

abbrev stale_lease : Lease
stale_lease = record {
  released = false;
  owned_file = some 0;
  active_slot = 1;
  current = metadata_of 7 0;
}

stale_lease-IsHolding : IsHolding stale_lease stale_lock
unfolding IsHolding HasSlots IsOlder
stale_lease-IsHolding = (
  refl,
  (
    0,
    refl,
    (some (metadata_of 7 0), some (metadata_of 7 0), refl, inl (refl, refl, (omega arith, refl))),
  ),
)

stale_lease_owns : still_owns_path stale_lease stale_lock ≡ true
unfolding still_owns_path ℕ_discrete Option-discrete
stale_lease_owns = refl

heartbeat-IsHolding_example :
    let (after, lease', thrown) = heartbeat always_fits 5000 stale_lease stale_lock in
    (thrown ≡ false)
    × (still_owns_path stale_lease stale_lock ≡ true
        → IsHolding lease' after
          × (still_owns_path lease' after ≡ true)
          × (read_singleton_lock after ≡ some (record (stale_lease.current) { updated_at = 5000 })))
    × (still_owns_path stale_lease stale_lock ≡ false
        → (after ≡ stale_lock) × (lease'.released ≡ true))
heartbeat-IsHolding_example =
    heartbeat-IsHolding always_fits 5000 stale_lease stale_lock stale_lease-IsHolding (omega arith)
      refl

-- The crash leaves half of the new slot.
abbrev torn_lock : LockFiles
torn_lock = record stale_lock { slots = λ f. none ∷ some (metadata_of 7 0) ∷ [] }

heartbeat-torn_example :
    (read_singleton_lock torn_lock ≡ some (stale_lease.current))
    ⊎ (read_singleton_lock torn_lock ≡ some (record (stale_lease.current) { updated_at = 5000 }))
unfolding heartbeat still_owns_path write_slot put_slot ℕ_discrete Option-discrete
heartbeat-torn_example =
    heartbeat-torn always_fits 5000 stale_lease stale_lock torn_lock 0 stale_lease-IsHolding
      stale_lease_owns refl (omega arith) refl
      (refl, (inr (inr (refl, other_time)), (inl refl, tt)))
  where
    other_time : some (metadata_of 7 0) ≢ some (record (metadata_of 7 0) { updated_at = 5000 })
    other_time e = ground (arith, e)

-- Two daemons start on the stale lock. While the second one probes it, the first one takes it over;
-- the second one then removes the lock of the first, though it is fresh and its owner is running.
abbrev first_starts : LockFiles → LockFiles
first_starts files =
    (acquire_singleton_lock always_fits all_running finds_stale undisturbed (options_of 8) 20000
      files).0

abbrev both_started : LockFiles × Acquired
both_started =
    acquire_singleton_lock always_fits all_running finds_stale (while_probing first_starts)
      (options_of 9) 20000 stale_lock

second_acquires : both_started.1 ≡ acquired (lease_on 2 9)
unfolding acquire_singleton_lock ℕ_discrete write_slot
second_acquires = refl

first_cut_off : still_owns_path (lease_on 1 8) both_started.0 ≡ false
unfolding acquire_singleton_lock ℕ_discrete write_slot still_owns_path Option-discrete
first_cut_off = refl
