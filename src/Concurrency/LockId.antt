-- ===== src/Concurrency/LockId.antt =====
-- The locks by id of yacul/concurrency/lock_id.h. An id is a number, and the hash functor a parameter. The
-- entries stand on a heap; each shard maps an id to the address of its entry.
pub mod System
pub mod Entries
pub mod Owners
pub mod References
pub mod Releases
pub mod Exclusion
pub mod Calls
pub mod Tests
use Prim.Native.Nat.{bit_and}
use yacul.Common.{
  ◌+◌, sub64, ◌&&◌, add64, some, ltb, ◌==◌, if◌then◌else◌, update, ◌-◌, none, Option, ℕ,
}

-- std::shared_timed_mutex: how many threads own it exclusively, and how many share it.
pub record SharedMutex : Type 0 where
  pub writers : ℕ
  pub readers : ℕ

pub record LockEntry : Type 0 where
  pub mutex : SharedMutex
  pub ref_count : ℕ

pub record LockId : Type 0 where
  pub num_shards : ℕ
  pub shards : ℕ → ℕ → Option ℕ
  pub heap : ℕ → LockEntry

pub data Mode : Type 0 where
  exclusive shared : Mode

abbrev k_default_shards : ℕ
k_default_shards = 64

abbrev pub fresh_entry : LockEntry
fresh_entry = record { mutex = record { writers = 0; readers = 0 }; ref_count = 0 }

-- The constructor.
unfoldable pub new_lock : ℕ → LockId
new_lock num_shards = record {
  num_shards = if ltb 0 num_shards then num_shards else k_default_shards;
  shards = λ i id. none;
  heap = λ a. fresh_entry;
}

-- The first half of a mutex call: whether the mutex can be had.
unfoldable pub lock_mutex : Mode → SharedMutex → Option SharedMutex
lock_mutex exclusive m =
    if m.writers == 0 && m.readers == 0 then some (record m { writers = 1 }) else none
lock_mutex shared m = if m.writers == 0 then some (record m { readers = m.readers + 1 }) else none

unfoldable pub unlock_mutex : Mode → SharedMutex → SharedMutex
unlock_mutex exclusive m = record m { writers = m.writers - 1 }
unlock_mutex shared m = record m { readers = m.readers - 1 }

module _ (hash : ℕ → ℕ) where
  -- `ShardIndex`
  unfoldable pub shard_index : ℕ → ℕ → ℕ
  shard_index num_shards id = bit_and (hash id) (num_shards - 1)

  abbrev pub entry_of : LockId → ℕ → Option ℕ
  entry_of s id = s.shards (shard_index s.num_shards id) id

  abbrev pub put_entry : LockId → ℕ → Option ℕ → LockId
  put_entry s id v =
      let i = shard_index s.num_shards id in
      record s { shards = update s.shards i (update (s.shards i) id v) }

  abbrev pub set_heap : LockId → ℕ → LockEntry → LockId
  set_heap s a e = record s { heap = update s.heap a e }

  -- `AcquireEntry`, where a new entry would be made at the address `fresh`.
  unfoldable pub acquire_entry : LockId → ℕ → ℕ → LockId × ℕ
  acquire_entry s id fresh = elim (entry_of s id) [
    | none ↦
        (set_heap (put_entry s id (some fresh)) fresh (record fresh_entry { ref_count = 1 }), fresh)
    | some a ↦ (set_heap s a (record (s.heap a) { ref_count = add64 (s.heap a).ref_count 1 }), a)
  ]

  -- `ReleaseEntry`
  unfoldable pub release_entry : LockId → ℕ → LockId
  release_entry s id = elim (entry_of s id) [
    | none ↦ s
    | some a ↦
        let count = sub64 (s.heap a).ref_count 1 in
        let left = set_heap s a (record (s.heap a) { ref_count = count }) in
        if count == 0 then put_entry left id none else left
  ]

  -- The mutex of the entry at `a` is taken in a mode.
  unfoldable pub lock_entry : LockId → ℕ → Mode → Option LockId
  unfolding lock_mutex
  lock_entry s a mode = elim (lock_mutex mode (s.heap a).mutex) [
    | none ↦ none
    | some m ↦ some (set_heap s a (record (s.heap a) { mutex = m }))
  ]

  -- The first half of `ReleaseExclusive` and of `ReleaseShared`.
  unfoldable pub unlock_entry : LockId → ℕ → Mode → LockId
  unfolding unlock_mutex
  unlock_entry s a mode =
      set_heap s a (record (s.heap a) { mutex = unlock_mutex mode (s.heap a).mutex })
