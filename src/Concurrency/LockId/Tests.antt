-- ===== src/Concurrency/LockId/Tests.antt =====
-- The theorems on the locks by id, with one thread that locks the id 5.
use yacul.Concurrency.LockId.System.{Reach, System, acquire, grant, here, next}
use yacul.Common.{◌==◌, if◌then◌else◌, refl, [], arith, ◌<◌, ◌⊎◌, none, some, tally, ℕ, ◌≡◌}
use yacul.Concurrency.LockId.{
  shared, shard_index, lock_mutex, exclusive, LockId, lock_entry, acquire_entry, entry_of, new_lock,
}
use yacul.Concurrency.LockId.Entries.{is_on, owns_on}
use yacul.Concurrency.LockId.Exclusion.{ref_count-claims, writer_alone}

abbrev same_hash : ℕ → ℕ
same_hash id = id

abbrev four_shards : LockId
unfolding new_lock
four_shards = new_lock 4

empty_map : (j : ℕ) → ¬ (entry_of same_hash four_shards j ≡ some 100)
unfolding new_lock
empty_map j e = cc

-- The system after the calls of AcquireEntry and of the mutex of the entry.
abbrev one_writer : (s : System) × Reach same_hash s
unfolding acquire_entry lock_entry lock_mutex shard_index new_lock
one_writer = (
  _,
  next (next (here 4) (acquire 5 100 exclusive (omega arith) empty_map))
      (grant [] [] 5 100 exclusive _ refl refl),
)

writer_alone_example :
    (tally (owns_on exclusive 5) one_writer.0.claims ≡ 0)
    ⊎ (tally (owns_on exclusive 5) one_writer.0.claims ≡ 1)
      × (tally (owns_on shared 5) one_writer.0.claims ≡ 0)
writer_alone_example = writer_alone same_hash 5 one_writer.1

ref_count-claims_example :
    ((entry_of same_hash one_writer.0.locks 5 ≡ none) × (tally (is_on 5) one_writer.0.claims ≡ 0))
    ⊎ ((a : ℕ) × (entry_of same_hash one_writer.0.locks 5 ≡ some a)
        × (0 < tally (is_on 5) one_writer.0.claims)
        × ((one_writer.0.locks.heap a).ref_count ≡ tally (is_on 5) one_writer.0.claims))
ref_count-claims_example = ref_count-claims same_hash 5 one_writer.1

-- The lock of id 5 is held exclusively.
abbrev held : LockId
held = record four_shards {
  shards = λ i id. if id == 5 then some 100 else none;
  heap = λ b. record { mutex = record { writers = 1; readers = 0 }; ref_count = 1 };
}
