-- ===== src/SingletonLock/File.antt =====
-- src/core/singleton-lock.ts: the lock file, of slots of 1,024 bytes. A slot is what
-- `parseSingletonLockChunk` reads of it: metadata, or nothing where no complete JSON of the fields
-- stands. Only the file at the lock's path is named; a removed file lives on behind an open handle.
use cued.Base.{
  ℕ, zero, suc, ltb, String, List, [], ◌∷◌, Option, none, some, ℤ, ◌==◌, nat_eq, if◌then◌else◌,
}

pub record SingletonLockMetadata : Type 0 where
  pub kind : String
  pub pid : ℤ
  pub started_at : ℕ
  pub updated_at : ℕ
  pub version : Option String
  pub executable_path : Option String
  pub app_path : Option String

abbrev pub Slot : Type 0
Slot = Option SingletonLockMetadata

-- `path` is the number of the file that the lock's path names; the numbers from `next_file` on are
-- not in use.
pub record LockFiles : Type 0 where
  pub path : Option ℕ
  pub slots : ℕ → List Slot
  pub next_file : ℕ

unfoldable pub newer : Slot → Slot → Slot
newer latest none = latest
newer none (some candidate) = some candidate
newer (some latest) (some candidate) =
    if ltb latest.updated_at candidate.updated_at then some candidate else some latest

unfoldable pub parse_slots : Slot → List Slot → Slot
unfolding newer
parse_slots latest [] = latest
parse_slots latest (candidate ∷ rest) = parse_slots (newer latest candidate) rest

-- `parseSingletonLockContents`
unfoldable pub parse_singleton_lock_contents : List Slot → Slot
unfolding parse_slots
parse_singleton_lock_contents slots = parse_slots none slots

unfoldable pub read_singleton_lock : LockFiles → Option SingletonLockMetadata
unfolding parse_singleton_lock_contents
read_singleton_lock files = elim files.path [
  | none ↦ none
  | some file ↦ parse_singleton_lock_contents (files.slots file)
]

-- Writing past the end leaves zero bytes between, which are no metadata.
unfoldable pub put_slot : ℕ → Slot → List Slot → List Slot
put_slot zero slot [] = slot ∷ []
put_slot zero slot (_ ∷ slots) = slot ∷ slots
put_slot (suc n) slot [] = none ∷ put_slot n slot []
put_slot (suc n) slot (s ∷ slots) = s ∷ put_slot n slot slots

-- The write of `writeLockSlot` to an open file.
unfoldable pub write_slot : ℕ → ℕ → Slot → LockFiles → LockFiles
unfolding put_slot
write_slot file n slot files = record files {
  slots = λ f. if f == file then put_slot n slot (files.slots f) else files.slots f;
}

-- `rmSync(path, { force: true })`
abbrev pub remove_path : LockFiles → LockFiles
remove_path files = record files { path = none }
