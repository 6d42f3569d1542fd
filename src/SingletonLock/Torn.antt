-- ===== src/SingletonLock/Torn.antt =====
-- src/core/singleton-lock.ts: a crash in the middle of a heartbeat.
use cued.Base.{
  ℕ, ◌+◌, ◌%◌, ◌≤◌, ltb, Bool, true, List, [], ◌∷◌, none, some, nat_eq, ◌≡◌, ◌≢◌, refl, ap, subst,
  ◌∙◌, ◌⊎◌, inl, inr, arith, Bool-cases,
}
use cued.SingletonLock.File.{
  SingletonLockMetadata, Slot, LockFiles, newer, parse_slots, parse_singleton_lock_contents,
  read_singleton_lock, put_slot, write_slot,
}
use cued.SingletonLock.Lease.{Lease, still_owns_path, heartbeat, slot_count}
use cued.SingletonLock.Holding.{IsOlder, HasSlots, IsHolding, newer_older, same_file}
use cued.SingletonLock.Safety.{beaten, heartbeat_owned}

-- Each slot is as it was before, or as it is afterwards, or, if it was to change, holds no metadata.
abbrev pub TornSlots : List Slot → List Slot → List Slot → Type 0
TornSlots [] [] [] = Unit
TornSlots (b ∷ before) (a ∷ after) (t ∷ torn) =
    ((t ≡ b) ⊎ ((t ≡ a) ⊎ ((t ≡ none) × (b ≢ a)))) × TornSlots before after torn
TornSlots _ _ _ = ⊥

-- What a crash leaves of a file that was being written.
abbrev pub IsTorn : ℕ → LockFiles → LockFiles → LockFiles → Type 0
IsTorn file before after torn =
    (torn.path ≡ before.path) × TornSlots (before.slots file) (after.slots file) (torn.slots file)

-- Of two slots, one with the metadata of the lease and one that was being written, either is read.
abbrev IsEither : ℕ → SingletonLockMetadata → Slot → Type 0
IsEither now m found = (found ≡ some m) ⊎ (found ≡ some (record m { updated_at = now }))

-- A slot that was not to change is as it was.
unchanged : (u s : Slot) → (u ≡ s) ⊎ ((u ≡ s) ⊎ ((u ≡ none) × (s ≢ s))) → u ≡ s
unchanged u s (inl kept) = kept
unchanged u s (inr (inl kept)) = kept
unchanged u s (inr (inr (_, differs))) = absurd (differs refl)

IsEither-first :
    (now : ℕ) (m : SingletonLockMetadata) (old t u : Slot)
    → m.updated_at ≤ now
    → IsOlder old m
    → (t ≡ old)
      ⊎ ((t ≡ some (record m { updated_at = now }))
          ⊎ ((t ≡ none) × (old ≢ some (record m { updated_at = now }))))
    → u ≡ some m
    → IsEither now m (newer (newer none t) u) × IsEither now m (newer (newer none u) t)
unfolding newer
IsEither-first now m old t u later older (inl e) kept =
    let (first, second) = newer_older old m older in rw (e, kept) (inl first, inl second)
IsEither-first now m old t u later older (inr (inr (e, _))) kept = rw (e, kept) (inl refl, inl refl)
IsEither-first now m old t u later older (inr (inl e)) kept =
    elim (Bool-cases (ltb m.updated_at now)) [
      | inl after ↦ rw (e, kept) (inr (ground (arith, later)), inr (ground (arith, after)))
      | inr same ↦ rw (e, kept) (inr (ground (arith, later)), inl (ground (arith, same)))
    ]

torn-parse :
    (now : ℕ) (lease : Lease) (slots torn : List Slot)
    → lease.current.updated_at ≤ now
    → HasSlots lease slots
    → TornSlots slots
        (put_slot ((lease.active_slot + 1) % slot_count) (some (beaten now lease).current) slots)
        torn
    → IsEither now lease.current (parse_singleton_lock_contents torn)
unfolding HasSlots put_slot parse_singleton_lock_contents parse_slots
torn-parse now lease slots torn later (a, b, e, inl (active, here, old)) h =
    let before : slots ≡ a ∷ some lease.current ∷ [] = e ∙ ap (λ x. a ∷ x ∷ []) here in
    let after : put_slot ((lease.active_slot + 1) % slot_count) (some (beaten now lease).current)
          slots
        ≡ some (beaten now lease).current ∷ some lease.current ∷ [] =
      rw (active, before) refl in
    two_slots torn (
      subst (λ x. TornSlots x (some (beaten now lease).current ∷ some lease.current ∷ []) torn)
        before (subst (λ x. TornSlots slots x torn) after h))
  where
    two_slots :
        (torn : List Slot)
        → TornSlots
            (a ∷ some lease.current ∷ [])
            (some (beaten now lease).current ∷ some lease.current ∷ [])
            torn
        → IsEither now lease.current (parse_singleton_lock_contents torn)
    two_slots [] h = absurd h
    two_slots (t ∷ []) h = absurd h.1
    two_slots (t ∷ u ∷ v ∷ rest) h = absurd h.1.1
    two_slots (t ∷ u ∷ []) (p, (q, _)) =
        (IsEither-first now lease.current a t u later old p (unchanged u (some lease.current) q)).0
torn-parse now lease slots torn later (a, b, e, inr (active, here, old)) h =
    let before : slots ≡ some lease.current ∷ b ∷ [] = e ∙ ap (λ x. x ∷ b ∷ []) here in
    let after : put_slot ((lease.active_slot + 1) % slot_count) (some (beaten now lease).current)
          slots
        ≡ some lease.current ∷ some (beaten now lease).current ∷ [] =
      rw (active, before) refl in
    two_slots torn (
      subst (λ x. TornSlots x (some lease.current ∷ some (beaten now lease).current ∷ []) torn)
        before (subst (λ x. TornSlots slots x torn) after h))
  where
    two_slots :
        (torn : List Slot)
        → TornSlots
            (some lease.current ∷ b ∷ [])
            (some lease.current ∷ some (beaten now lease).current ∷ [])
            torn
        → IsEither now lease.current (parse_singleton_lock_contents torn)
    two_slots [] h = absurd h
    two_slots (t ∷ []) h = absurd h.1
    two_slots (t ∷ u ∷ v ∷ rest) h = absurd h.1.1
    two_slots (t ∷ u ∷ []) (p, (q, _)) =
        (IsEither-first now lease.current b u t later old q (unchanged t (some lease.current) p)).1

-- While a heartbeat of a lease that owns the path is written, on a clock that does not run backwards
-- and with metadata that fits, a crash leaves a lock that is still read: a slot that the heartbeat
-- changes may then hold its old contents, its new contents or no metadata, and what is found is the
-- metadata of the last heartbeat or that of the new one.
pub heartbeat-torn :
    (fits : SingletonLockMetadata → Bool) (now : ℕ) (lease : Lease) (files torn : LockFiles)
    (file : ℕ)
    → IsHolding lease files
    → still_owns_path lease files ≡ true
    → lease.owned_file ≡ some file
    → lease.current.updated_at ≤ now
    → fits (record (lease.current) { updated_at = now }) ≡ true
    → IsTorn file files (heartbeat fits now lease files).0 torn
    → (read_singleton_lock torn ≡ some lease.current)
      ⊎ (read_singleton_lock torn ≡ some (record (lease.current) { updated_at = now }))
unfolding write_slot read_singleton_lock IsHolding still_owns_path
heartbeat-torn fits now lease files torn file (unreleased, (file', open_file', slots)) owns
      open_file later ok (same_path, cut) =
    let path : torn.path ≡ some file = ground (arith, owns, open_file, same_path) in
    let same : file' ≡ file = ground (arith, open_file, open_file') in
    let held : HasSlots lease (files.slots file) =
      subst (λ f. HasSlots lease (files.slots f)) same slots in
    let beat = heartbeat_owned fits now lease files file unreleased open_file owns ok in
    let after : (heartbeat fits now lease files).0.slots file
        ≡ put_slot ((lease.active_slot + 1) % slot_count) (some (beaten now lease).current)
            (files.slots file) =
      ap (λ (x : LockFiles × Lease × Bool). x.0.slots file) beat ∙ rw (same_file file) refl in
    rw path (
      torn-parse now lease (files.slots file) (torn.slots file) later held
        (subst (λ x. TornSlots (files.slots file) x (torn.slots file)) after cut))
