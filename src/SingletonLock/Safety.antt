-- ===== src/SingletonLock/Safety.antt =====
-- src/core/singleton-lock.ts: who gets the lock, and what a heartbeat leaves.
use cued.Base.{
  ℕ, ◌+◌, ◌%◌, ◌≤◌, Bool, true, false, ◌&&◌, List, Option, none, some, ℤ, nat_eq, option_eq, ◌≡◌,
  refl, sym, ap, ◌∙◌, ◌⊎◌, inl, inr, arith, Bool-cases, Option-cases,
}
use mathlib.Core.Bool.{false≢true}
use cued.SingletonLock.File.{
  SingletonLockMetadata, Slot, LockFiles, read_singleton_lock, put_slot, write_slot, remove_path,
}
use cued.SingletonLock.Lease.{
  LockOptions, Lease, Attempt, Others, Opened, leased, already_exists, too_long, acquired,
  build_metadata, try_acquire, is_fresh, is_owner_running, after_removal, acquire_singleton_lock,
  still_owns_path, heartbeat, slot_count,
}
use cued.SingletonLock.Holding.{
  IsOlder, HasSlots, IsHolding, IsHolding-read, IsUndisturbed, try_acquire-IsHolding, same_file,
}

Opened-cases :
    (o : Opened) → ((l : Lease) × (o ≡ leased l)) ⊎ ((o ≡ already_exists) ⊎ (o ≡ too_long))
Opened-cases (leased l) = inl (l, refl)
Opened-cases already_exists = inr (inl refl)
Opened-cases too_long = inr (inr refl)

module _ (fits : SingletonLockMetadata → Bool) where
  try_acquire_free :
      (others : Attempt) (options : LockOptions) (now : ℕ) (files : LockFiles) {lease : Lease}
      → (try_acquire fits others options now files).1 ≡ leased lease
      → files.path ≡ none
  unfolding try_acquire
  try_acquire_free others options now files h = elim (Option-cases files.path) [
    | inl free ↦ free
    | inr (file, taken) ↦ absurd (ground (arith, h, taken))
  ]

  after_removal-try_acquire :
      (others : Attempt) (options : LockOptions) (now : ℕ) (files after : LockFiles) (lease : Lease)
      → after_removal (try_acquire fits others options now files) ≡ (after, acquired lease)
      → try_acquire fits others options now files ≡ (after, leased lease)
  unfolding after_removal
  after_removal-try_acquire others options now files after lease h =
      opened_cases (try_acquire fits others options now files).0
        (try_acquire fits others options now files).1 h
    where
      opened_cases :
          (f : LockFiles) (o : Opened)
          → after_removal (f, o) ≡ (after, acquired lease)
          → ◌≡◌ {A = LockFiles × Opened} (f, o) (after, leased lease)
      opened_cases f (leased l) e = cc
      opened_cases f already_exists e = cc
      opened_cases f too_long e = cc

  -- A lease that is given out owns the path and its metadata is what a reader of the lock finds, and
  -- the path was free, or its lock was stale or without a running owner and was not found active by
  -- the probe. That holds whatever other processes do until the attempt that gives the lease opens
  -- the lock file, as long as they leave that file at its path alone from then until the lease is
  -- given.
  pub acquire_singleton_lock-IsHolding :
      (is_process_running : ℤ → Bool) (probe : Option SingletonLockMetadata → Bool)
      (others : Others) (options : LockOptions) (now : ℕ) (files after : LockFiles) (lease : Lease)
      → IsUndisturbed others.first
      → IsUndisturbed others.second
      → acquire_singleton_lock fits is_process_running probe others options now files
        ≡ (after, acquired lease)
      → IsHolding lease after
        × (still_owns_path lease after ≡ true)
        × (read_singleton_lock after ≡ some (build_metadata options now))
        × ((files.path ≡ none)
            ⊎ (((is_fresh options now (read_singleton_lock (others.refused files))
                    && is_owner_running is_process_running
                        (read_singleton_lock (others.refused files)))
                  ≡ false)
                × (probe (read_singleton_lock (others.refused files)) ≡ false)))
  unfolding acquire_singleton_lock
  acquire_singleton_lock-IsHolding is_process_running probe others options now files after lease
        quiet quiet' h =
      let existing = read_singleton_lock (others.refused files) in
      let first = try_acquire fits others.first options now files in
      elim (Opened-cases first.1) [
        | inl (l, e) ↦
            let same : first ≡ (after, leased lease) = ground (arith, h, e) in
            let (holding, owns, written) =
              try_acquire-IsHolding fits others.first options now files after lease quiet same in
            (
              holding,
              owns,
              IsHolding-read lease after holding owns ∙ ap some written,
              inl (try_acquire_free others.first options now files e),
            )
        | inr (inl e) ↦
            let refused : (is_fresh options now existing
                  && is_owner_running is_process_running existing)
                ≡ false =
              ground (arith, h, e) in
            let unprobed : probe existing ≡ false = ground (arith, h, e, refused) in
            let cleared = others.removed (remove_path (others.probing (others.refused files))) in
            let second : after_removal (try_acquire fits others.second options now cleared)
                ≡ (after, acquired lease) =
              ground (arith, h, e, refused, unprobed) in
            let (holding, owns, written) =
              try_acquire-IsHolding fits others.second options now cleared after lease quiet'
                (after_removal-try_acquire others.second options now cleared after lease second) in
            (
              holding,
              owns,
              IsHolding-read lease after holding owns ∙ ap some written,
              inr (refused, unprobed),
            )
        | inr (inr e) ↦ absurd (ground (arith, h, e))
      ]

abbrev pub beaten : ℕ → Lease → Lease
beaten now lease = record lease {
  current = record (lease.current) { updated_at = now };
  active_slot = (lease.active_slot + 1) % slot_count;
}

pub HasSlots-beaten :
    (now : ℕ) (lease : Lease) (slots : List Slot)
    → lease.current.updated_at ≤ now
    → HasSlots lease slots
    → HasSlots
        (beaten now lease)
        (put_slot ((lease.active_slot + 1) % slot_count) (some (beaten now lease).current) slots)
unfolding HasSlots IsOlder put_slot
HasSlots-beaten now lease slots later (a, b, e, inl (active, here, old)) =
    rw (active, e)
      (some (beaten now lease).current, b, refl, inr (refl, refl, rw here (later, refl)))
HasSlots-beaten now lease slots later (a, b, e, inr (active, here, old)) =
    rw (active, e)
      (a, some (beaten now lease).current, refl, inl (refl, refl, rw here (later, refl)))

beaten-IsHolding :
    (now : ℕ) (lease : Lease) (files : LockFiles) (file : ℕ)
    → lease.released ≡ false
    → lease.owned_file ≡ some file
    → lease.current.updated_at ≤ now
    → HasSlots lease (files.slots file)
    → IsHolding (beaten now lease) (
        write_slot file
          ((lease.active_slot + 1) % slot_count)
          (some (beaten now lease).current)
          files)
unfolding IsHolding write_slot
beaten-IsHolding now lease files file unreleased open_file later slots = (
  unreleased,
  (file, open_file, rw (same_file file) (HasSlots-beaten now lease (files.slots file) later slots)),
)

module _ (fits : SingletonLockMetadata → Bool) (now : ℕ) (lease : Lease) (files : LockFiles)
    (file : ℕ) (unreleased : lease.released ≡ false)
    (open_file : lease.owned_file ≡ some file) where
  pub heartbeat_lost :
      still_owns_path lease files ≡ false
      → heartbeat fits now lease files
        ≡ (files, record lease { owned_file = none; released = true }, false)
  unfolding heartbeat
  heartbeat_lost lost = ground (arith, unreleased, open_file, lost)

  pub heartbeat_owned :
      still_owns_path lease files ≡ true
      → fits (beaten now lease).current ≡ true
      → heartbeat fits now lease files ≡ (
        write_slot file
            ((lease.active_slot + 1) % slot_count)
            (some (beaten now lease).current)
            files,
        beaten now lease,
        false,
      )
  unfolding heartbeat
  heartbeat_owned owned ok = ground (arith, unreleased, open_file, owned, ok)

-- The heartbeat of a lease that owns the path writes the new time where a reader finds it; one of a
-- lease that does not own the path any more leaves the files alone and gives the lease up.
pub heartbeat-IsHolding :
    (fits : SingletonLockMetadata → Bool) (now : ℕ) (lease : Lease) (files : LockFiles)
    → IsHolding lease files
    → lease.current.updated_at ≤ now
    → fits (record (lease.current) { updated_at = now }) ≡ true
    → let (after, lease', thrown) = heartbeat fits now lease files in
      (thrown ≡ false)
      × (still_owns_path lease files ≡ true
          → IsHolding lease' after
            × (still_owns_path lease' after ≡ true)
            × (read_singleton_lock after ≡ some (record (lease.current) { updated_at = now })))
      × (still_owns_path lease files ≡ false → (after ≡ files) × (lease'.released ≡ true))
unfolding IsHolding
heartbeat-IsHolding fits now lease files (unreleased, (file, open_file, slots)) later ok =
    elim (Bool-cases (still_owns_path lease files)) [
      | inr lost ↦
          rw (heartbeat_lost fits now lease files file unreleased open_file lost)
            (refl, λ owned. absurd (false≢true (sym lost ∙ owned)), λ _. (refl, refl))
      | inl owned ↦
          let written =
            write_slot file ((lease.active_slot + 1) % slot_count) (some (beaten now lease).current)
              files in
          let holding = beaten-IsHolding now lease files file unreleased open_file later slots in
          let owns : still_owns_path (beaten now lease) written ≡ true =
            unfold still_owns_path write_slot in owned in
          rw (heartbeat_owned fits now lease files file unreleased open_file owned ok) (
            refl,
            λ _. (holding, owns, IsHolding-read (beaten now lease) written holding owns),
            λ lost. absurd (false≢true (sym lost ∙ owned)),
          )
    ]
