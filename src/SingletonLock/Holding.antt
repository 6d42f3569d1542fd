-- ===== src/SingletonLock/Holding.antt =====
-- src/core/singleton-lock.ts: a lease and the lock file that it writes.
use cued.Base.{
  ℕ, ◌≤◌, ltb, Bool, true, false, List, [], ◌∷◌, none, some, ◌==◌, nat_eq, option_eq, ◌≡◌, refl, ap,
  ◌∙◌, ◌⊎◌, inl, inr, arith, Bool-cases,
}
use cued.SingletonLock.File.{
  SingletonLockMetadata, Slot, LockFiles, newer, parse_singleton_lock_contents, read_singleton_lock,
  put_slot, write_slot,
}
use cued.SingletonLock.Lease.{
  LockOptions, Attempt, Lease, leased, build_metadata, try_acquire, still_owns_path, open_new,
}

-- Nothing, or the same metadata as of an earlier time.
unfoldable pub IsOlder : Slot → SingletonLockMetadata → Type 0
IsOlder none m = Unit
IsOlder (some s) m = (s.updated_at ≤ m.updated_at) × (s ≡ record m { updated_at = s.updated_at })

-- The active slot holds the metadata of the lease, the other one nothing newer.
unfoldable pub HasSlots : Lease → List Slot → Type 0
HasSlots lease slots =
    (a : Slot) × (b : Slot) × (slots ≡ a ∷ b ∷ [])
    × (((lease.active_slot ≡ 1) × (b ≡ some lease.current) × IsOlder a lease.current)
        ⊎ ((lease.active_slot ≡ 0) × (a ≡ some lease.current) × IsOlder b lease.current))

-- A lease that is not released, with its open file.
unfoldable pub IsHolding : Lease → LockFiles → Type 0
IsHolding lease files =
    (lease.released ≡ false)
    × ((file : ℕ) × (lease.owned_file ≡ some file) × HasSlots lease (files.slots file))

pub newer_older :
    (s : Slot) (m : SingletonLockMetadata)
    → IsOlder s m
    → (newer (newer none s) (some m) ≡ some m) × (newer (newer none (some m)) s ≡ some m)
unfolding IsOlder newer
newer_older none m h = (refl, refl)
newer_older (some s) m h = elim (Bool-cases (ltb s.updated_at m.updated_at)) [
  | inl later ↦ (ground (arith, later), ground (arith, later))
  | inr same ↦
      let time : s.updated_at ≡ m.updated_at = ground (arith, same, h.0) in
      let whole : s ≡ m = h.1 ∙ ap (λ t. record m { updated_at = t }) time in
      (rw same (ap some whole), ground (arith, time))
]

pub HasSlots-read :
    (lease : Lease) (slots : List Slot)
    → HasSlots lease slots
    → parse_singleton_lock_contents slots ≡ some lease.current
unfolding HasSlots parse_singleton_lock_contents
HasSlots-read lease slots (a, b, e, inl (_, here, old)) =
    rw (e, here) (newer_older a lease.current old).0
HasSlots-read lease slots (a, b, e, inr (_, here, old)) =
    rw (e, here) (newer_older b lease.current old).1

-- Whoever reads the lock of a lease that owns the path finds the metadata of the lease.
pub IsHolding-read :
    (lease : Lease) (files : LockFiles)
    → IsHolding lease files
    → still_owns_path lease files ≡ true
    → read_singleton_lock files ≡ some lease.current
unfolding IsHolding still_owns_path read_singleton_lock
IsHolding-read lease files (_, (file, owned, slots)) owns =
    let path : files.path ≡ some file = ground (arith, owned, owns) in
    rw path (HasSlots-read lease (files.slots file) slots)

pub same_file : (n : ℕ) → (n == n) ≡ true
same_file n = ground arith

-- Others leave a file at the path alone: it stays there, with its slots.
abbrev pub IsQuiet : (LockFiles → LockFiles) → Type 0
IsQuiet others =
    (files : LockFiles) (file : ℕ)
    → files.path ≡ some file
    → ((others files).path ≡ some file) × ((others files).slots file ≡ files.slots file)

-- Nobody else removes, replaces or writes the lock file from its opening until the lease is given.
pub record IsUndisturbed (others : Attempt) : Type 0 where
  pub opened : IsQuiet others.opened
  pub written : IsQuiet others.written
  pub initialized : IsQuiet others.initialized

abbrev new_lease : LockOptions → ℕ → LockFiles → Lease
new_lease options now files = record {
  released = false;
  owned_file = some files.next_file;
  active_slot = 1;
  current = build_metadata options now;
}

module _ (others : Attempt) (options : LockOptions) (now : ℕ) (files : LockFiles) where
  abbrev new_slot : Slot
  new_slot = some (build_metadata options now)

  abbrev opened_files : LockFiles
  opened_files = others.opened (open_new files)

  abbrev written_files : LockFiles
  written_files = others.written (write_slot files.next_file 0 new_slot opened_files)

  abbrev new_files : LockFiles
  new_files = others.initialized (write_slot files.next_file 1 new_slot written_files)

  new_files-slots :
      IsUndisturbed others
      → (new_files.path ≡ some files.next_file)
        × (new_files.slots files.next_file ≡ new_slot ∷ new_slot ∷ [])
  unfolding write_slot put_slot
  new_files-slots quiet =
      let file = files.next_file in
      let same = same_file file in
      let (p0, s0) = quiet.opened (open_new files) file refl in
      let e0 : opened_files.slots file ≡ [] = s0 ∙ rw same refl in
      let w0 = write_slot file 0 new_slot opened_files in
      let (p1, s1) = quiet.written w0 file p0 in
      let e1 : written_files.slots file ≡ new_slot ∷ [] = s1 ∙ rw (same, e0) refl in
      let w1 = write_slot file 1 new_slot written_files in
      let (p2, s2) = quiet.initialized w1 file p1 in (p2, s2 ∙ rw (same, e1) refl)

  new_lease-IsHolding :
      IsUndisturbed others
      → IsHolding (new_lease options now files) new_files
        × (still_owns_path (new_lease options now files) new_files ≡ true)
  unfolding IsHolding HasSlots IsOlder still_owns_path
  new_lease-IsHolding quiet =
      let (path, slots) = new_files-slots quiet in
      (
        (
          refl,
          (
            files.next_file,
            refl,
            (new_slot, new_slot, slots, inl (refl, refl, (omega arith, refl))),
          ),
        ),
        ground (arith, path),
      )

module _ (fits : SingletonLockMetadata → Bool) where
  pub try_acquire-IsHolding :
      (others : Attempt) (options : LockOptions) (now : ℕ) (files after : LockFiles) (lease : Lease)
      → IsUndisturbed others
      → try_acquire fits others options now files ≡ (after, leased lease)
      → IsHolding lease after
        × (still_owns_path lease after ≡ true)
        × (lease.current ≡ build_metadata options now)
  unfolding try_acquire
  try_acquire-IsHolding others options now files after lease quiet h =
      let e : lease ≡ new_lease options now files = ground (arith, h) in
      let d : after ≡ new_files others options now files = ground (arith, h) in
      let (holding, owns) = new_lease-IsHolding others options now files quiet in
      rw (d, e) (holding, owns, refl)
