-- ===== src/SingletonLock/Lease.antt =====
-- src/core/singleton-lock.ts: acquiring the lock, its heartbeats and its release. `fits` tells
-- whether the JSON of the metadata has at most 1,024 bytes.
use cued.Base.{
  ℕ, suc, ◌+◌, ◌%◌, ltb, Bool, true, false, ◌&&◌, not, String, is_empty, [], Option, none, some,
  is_some, ℤ, pos_part, ◌==◌, nat_eq, option_eq, if◌then◌else◌,
}
use cued.SingletonLock.File.{
  SingletonLockMetadata, LockFiles, read_singleton_lock, write_slot, remove_path,
}

pub record LockOptions : Type 0 where
  pub kind : String
  pub pid : ℤ
  pub stale_ms : ℕ
  pub version : Option String
  pub executable_path : Option String
  pub app_path : Option String

abbrev pub singleton_lock_stale_ms : ℕ
singleton_lock_stale_ms = 15000

abbrev pub slot_count : ℕ
slot_count = 2

-- The variables of `createLease`.
pub record Lease : Type 0 where
  pub released : Bool
  pub owned_file : Option ℕ
  pub active_slot : ℕ
  pub current : SingletonLockMetadata

-- The empty text is left out.
abbrev given : Option String → Option String
given none = none
given (some s) = if is_empty s then none else some s

unfoldable pub build_metadata : LockOptions → ℕ → SingletonLockMetadata
build_metadata options now = record {
  kind = options.kind;
  pid = options.pid;
  started_at = now;
  updated_at = now;
  version = options.version;
  executable_path = given options.executable_path;
  app_path = given options.app_path;
}

-- `openSync(path, "wx")` finds the path taken, or the metadata is too long, or there is a lease.
pub data Opened : Type 0 where
  leased : Lease → Opened
  already_exists : Opened
  too_long : Opened

-- `SingletonLockHeldError` or the exception of `writeLockSlot`.
pub data Acquired : Type 0 where
  acquired : Lease → Acquired
  lock_held : Option SingletonLockMetadata → Acquired
  metadata_too_long : Acquired

abbrev pub open_new : LockFiles → LockFiles
open_new files = record {
  path = some files.next_file;
  slots = λ f. if f == files.next_file then [] else files.slots f;
  next_file = suc files.next_file;
}

unfoldable pub is_fresh : LockOptions → ℕ → Option SingletonLockMetadata → Bool
is_fresh options now none = false
is_fresh options now (some existing) = ltb now (existing.updated_at + options.stale_ms)

unfoldable pub is_owner_running : (ℤ → Bool) → Option SingletonLockMetadata → Bool
is_owner_running is_process_running none = false
is_owner_running is_process_running (some existing) =
    ltb 0 (pos_part existing.pid) && is_process_running existing.pid

-- What the second attempt makes of a path that is taken again.
unfoldable pub after_removal : LockFiles × Opened → LockFiles × Acquired
after_removal (files, leased lease) = (files, acquired lease)
after_removal (files, already_exists) = (files, lock_held (read_singleton_lock files))
after_removal (files, too_long) = (files, metadata_too_long)

-- `stillOwnsPath`
unfoldable pub still_owns_path : Lease → LockFiles → Bool
still_owns_path lease files = is_some lease.owned_file && lease.owned_file == files.path

unfoldable pub release : Lease → LockFiles → LockFiles × Lease
unfolding still_owns_path
release lease files = if lease.released then (files, lease) else (
  if still_owns_path lease files then remove_path files else files,
  record lease { owned_file = none; released = true },
)

-- What other processes do to the files while an attempt is made: after `openSync`, and after each of
-- the two writes.
pub record Attempt : Type 0 where
  pub opened : LockFiles → LockFiles
  pub written : LockFiles → LockFiles
  pub initialized : LockFiles → LockFiles

-- What they do during an acquisition: after the first attempt found the path taken, while the probe
-- runs, between the removal and the second attempt, and during both attempts.
pub record Others : Type 0 where
  pub first : Attempt
  pub refused : LockFiles → LockFiles
  pub probing : LockFiles → LockFiles
  pub removed : LockFiles → LockFiles
  pub second : Attempt

module _ (fits : SingletonLockMetadata → Bool) where
  -- The two writes of `initializeLockFile` into a file that has just been opened; a file whose
  -- metadata is too long is removed.
  unfoldable pub try_acquire : Attempt → LockOptions → ℕ → LockFiles → LockFiles × Opened
  unfolding build_metadata write_slot
  try_acquire others options now files =
      let metadata = build_metadata options now in
      let file = files.next_file in
      let opened = others.opened (open_new files) in
      let written = others.written (write_slot file 0 (some metadata) opened) in
      if is_some files.path
      then (files, already_exists)
      else if fits metadata
      then (
        others.initialized (write_slot file 1 (some metadata) written),
        leased (record {
          released = false;
          owned_file = some file;
          active_slot = 1;
          current = metadata;
        }),
      )
      else (remove_path opened, too_long)

  -- `acquireSingletonLock`. `probe` tells whether the probe finds the lock active. One time stands
  -- for all readings of the clock.
  unfoldable pub acquire_singleton_lock :
      (ℤ → Bool)
      → (Option SingletonLockMetadata → Bool)
      → Others
      → LockOptions
      → ℕ
      → LockFiles
      → LockFiles × Acquired
  unfolding try_acquire is_fresh is_owner_running after_removal read_singleton_lock
  acquire_singleton_lock is_process_running probe others options now files =
      let (files', first) = try_acquire others.first options now files in
      let seen = others.refused files in
      let existing = read_singleton_lock seen in
      elim first [
        | leased lease ↦ (files', acquired lease)
        | too_long ↦ (files', metadata_too_long)
        | already_exists ↦
            if is_fresh options now existing && is_owner_running is_process_running existing
            then (seen, lock_held existing)
            else if probe existing
            then (others.probing seen, lock_held existing)
            else after_removal (
                try_acquire others.second options now
                  (others.removed (remove_path (others.probing seen))))
      ]

  -- `heartbeat`; the last answer tells whether it throws, with its variables changed already.
  unfoldable pub heartbeat : ℕ → Lease → LockFiles → LockFiles × Lease × Bool
  unfolding still_owns_path write_slot
  heartbeat now lease files = elim lease.owned_file [
    | none ↦ (files, lease, false)
    | some file ↦
        let updated = record (lease.current) { updated_at = now } in
        let next_slot = (lease.active_slot + 1) % slot_count in
        if lease.released
        then (files, lease, false)
        else if not (still_owns_path lease files)
        then (files, record lease { owned_file = none; released = true }, false)
        else if fits updated
        then (
          write_slot file next_slot (some updated) files,
          record lease { current = updated; active_slot = next_slot },
          false,
        )
        else (files, record lease { current = updated }, true)
  ]
