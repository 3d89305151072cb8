-- ===== src/Concurrency/LockId/System.antt =====
-- Any number of threads on one LockId: every call under the mutex of a shard, and every call of an entry's
-- mutex, is a step.
use yacul.Common.{some, ◌^◌, ◌<◌, ◌++◌, ◌+◌, List, length, [], ℕ, ◌∷◌, ◌≡◌}
use yacul.Concurrency.LockId.{
  release_entry, unlock_entry, lock_entry, acquire_entry, entry_of, Mode, new_lock, LockId,
}

-- A thread waits for the mutex of its entry, owns it, or has yet to release the entry.
pub data Phase : Type 0 where
  waiting holding leaving : Phase

pub record Claim : Type 0 where
  pub id : ℕ
  pub address : ℕ
  pub mode : Mode
  pub phase : Phase

pub record System : Type 0 where
  pub locks : LockId
  pub claims : List Claim

abbrev pub turned : System → LockId → List Claim → Claim → List Claim → System
turned s l xs w ys = record { locks = l; claims = xs ++ w ∷ ys }

module _ (hash : ℕ → ℕ) where
  pub data Step (s : System) : System → Type 0 where
    -- A call of a locking function, of which there are less than 2 ^ 64; a new entry is made where no
    -- entry in the map is.
    acquire :
        (id fresh : ℕ) (mode : Mode)
        → length s.claims + 1 < 2 ^ 64
        → ((j : ℕ) → ¬ (entry_of hash s.locks j ≡ some fresh))
        → Step s (record {
          locks = (acquire_entry hash s.locks id fresh).0;
          claims =
              record {
                id = id;
                address = (acquire_entry hash s.locks id fresh).1;
                mode = mode;
                phase = waiting;
              }
              ∷ s.claims;
        })
    grant :
        (xs ys : List Claim) (id a : ℕ) (mode : Mode) (l : LockId)
        → s.claims ≡ xs ++ record { id = id; address = a; mode = mode; phase = waiting } ∷ ys
        → lock_entry hash s.locks a mode ≡ some l
        → Step s (turned s l xs (record { id = id; address = a; mode = mode; phase = holding }) ys)
    -- A try fails or times out; `try_lock` may also fail with the mutex free.
    give_up :
        (xs ys : List Claim) (id a : ℕ) (mode : Mode)
        → s.claims ≡ xs ++ record { id = id; address = a; mode = mode; phase = waiting } ∷ ys
        → Step s
            (turned s s.locks xs (record { id = id; address = a; mode = mode; phase = leaving }) ys)
    -- A guard is released.
    unlock :
        (xs ys : List Claim) (id a : ℕ) (mode : Mode)
        → s.claims ≡ xs ++ record { id = id; address = a; mode = mode; phase = holding } ∷ ys
        → Step s (
            turned s
              (unlock_entry hash s.locks a mode)
              xs
              (record { id = id; address = a; mode = mode; phase = leaving })
              ys)
    release :
        (xs ys : List Claim) (id a : ℕ) (mode : Mode)
        → s.claims ≡ xs ++ record { id = id; address = a; mode = mode; phase = leaving } ∷ ys
        → Step s (record { locks = release_entry hash s.locks id; claims = xs ++ ys })

  pub data Reach : System → Type 0 where
    here : (num_shards : ℕ) → Reach (record { locks = new_lock num_shards; claims = [] })
    next : {s t : System} → Reach s → Step s t → Reach t
