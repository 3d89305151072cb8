-- ===== src/Concurrency/LockId/Calls.antt =====
-- Whole calls on the locks by id, each without a step of another thread in between.
use yacul.Common.{
  ◌∙◌, inr, sym, ap, inl, Bool-cases, fun_ext, update, false, sub64, refl, add64, arith, true, ◌==◌,
  ◌^◌, ◌+◌, ◌<◌, some, none, Option, ℕ, ◌≡◌,
}
use yacul.Concurrency.LockId.{
  set_heap, lock_mutex, entry_of, LockId, lock_entry, release_entry, Mode, unlock_entry,
  acquire_entry,
}

-- What a guard keeps beside its owner.
pub record Guard : Type 0 where
  pub id : ℕ
  pub address : ℕ
  pub mode : Mode

module _ (hash : ℕ → ℕ) where
  -- The part of a try behind AcquireEntry.
  unfoldable pub tried : ℕ → Mode → LockId × ℕ → LockId × Option Guard
  tried id mode (s, a) = elim (lock_entry hash s a mode) [
    | none ↦ (release_entry hash s id, none)
    | some t ↦ (t, some (record { id = id; address = a; mode = mode }))
  ]

  -- `TryLock` and `TryLockShared`, and the others with a mutex that stays as it is until the deadline: the guard,
  -- if the mutex could be had.
  unfoldable pub try_lock : LockId → ℕ → ℕ → Mode → LockId × Option Guard
  try_lock s id fresh mode = tried id mode (acquire_entry hash s id fresh)

  -- `Release` of a guard that owns its lock: `ReleaseExclusive` or `ReleaseShared`.
  unfoldable pub release_guard : LockId → Guard → LockId
  release_guard s g = release_entry hash (unlock_entry hash s g.address g.mode) g.id

  module _ (s : LockId) (id a : ℕ) (at : entry_of hash s id ≡ some a) where
    -- The locks with one more reference to the entry.
    abbrev referred : LockId
    referred = set_heap hash s a (record (s.heap a) { ref_count = add64 (s.heap a).ref_count 1 })

    acquire_entry-referred : (fresh : ℕ) → acquire_entry hash s id fresh ≡ (referred, a)
    unfolding acquire_entry
    acquire_entry-referred fresh = rw (acquire_entry, at) refl

    lock_entry-referred :
        (mode : Mode)
        → lock_mutex mode (s.heap a).mutex ≡ none
        → lock_entry hash referred a mode ≡ none
    unfolding lock_entry
    lock_entry-referred mode busy =
        let here : (a == a) ≡ true = ground arith in rw (lock_entry, here, busy) refl

    release_entry-referred :
        0 < (s.heap a).ref_count
        → (s.heap a).ref_count + 1 < 2 ^ 64
        → release_entry hash referred id ≡ s
    unfolding release_entry
    release_entry-referred used small =
        let here : (a == a) ≡ true = ground arith in
        let back : sub64 (add64 (s.heap a).ref_count 1) 1 ≡ (s.heap a).ref_count = omega arith in
        let kept : ((s.heap a).ref_count == 0) ≡ false = ground arith in
        let heap : update
              (update s.heap a (record (s.heap a) { ref_count = add64 (s.heap a).ref_count 1 })) a
              (s.heap a)
            ≡ s.heap =
          fun_ext (λ b. elim (Bool-cases (b == a)) [
            | inl on ↦ let key : b ≡ a = ground arith in rw on (ap s.heap (sym key))
            | inr off ↦ rw off refl
          ]) in
        rw (release_entry, at, here, back, kept) (ap (λ h. record s { heap = h }) heap)

  -- An entry in use whose mutex cannot be had in a mode: TryLock in that mode gives no guard, and leaves the
  -- locks as they were, the count of the entry with them.
  pub try_lock-refused :
      (s : LockId) (id a fresh : ℕ) (mode : Mode)
      → entry_of hash s id ≡ some a
      → 0 < (s.heap a).ref_count
      → (s.heap a).ref_count + 1 < 2 ^ 64
      → lock_mutex mode (s.heap a).mutex ≡ none
      → try_lock s id fresh mode ≡ (s, none)
  unfolding try_lock tried
  try_lock-refused s id a fresh mode at used small busy =
      ap (tried id mode) (acquire_entry-referred s id a at fresh)
      ∙ rw (tried, lock_entry-referred s id a at mode busy)
          (ap (λ t. (t, none)) (release_entry-referred s id a at used small))
