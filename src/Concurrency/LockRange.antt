-- ===== src/Concurrency/LockRange.antt =====
-- The range lock of yacul/concurrency/lock_range.h and yacul/concurrency/lock_range.cc: the table of
-- entries and waiters, and the member functions that run while `mu_` is held. A run of `WaitLoop` is
-- cut at its waits on `cv_`, where other threads take the mutex: `begin_wait` leads to the first wait,
-- `resume` from one wait to the next. Offsets and lengths are uint64_t, kept below 2 ^ 64 by `%`.
pub mod Guards
pub mod Claims
pub mod Conflict
pub mod Table
pub mod Holders
pub mod Waits
pub mod Release
pub mod Queue
pub mod System
pub mod Exclusion
pub mod Progress
mod Tests
use yacul.Common.{
  ℕ, zero, suc, ◌+◌, ◌-◌, ◌%◌, ◌^◌, ◌≡◌, Bool, true, false, not, ◌&&◌, ◌||◌, Option, none, some,
  List, [], ◌∷◌, ◌++◌, ltb, leb, ◌==◌, if◌then◌else◌, length,
}

pub data Mode : Type 0 where
  shared exclusive : Mode

pub data Status : Type 0 where
  acquired timeout cancelled invalid : Status

abbrev pub is_exclusive : Mode → Bool
is_exclusive shared = false
is_exclusive exclusive = true

abbrev pub same_mode : Mode → Mode → Bool
same_mode shared shared = true
same_mode exclusive exclusive = true
same_mode _ _ = false

pub record LockEntry : Type 0 where
  pub offset : ℕ
  pub end : ℕ
  pub mode : Mode
  pub share_count : ℕ

-- `address` is the address of the descriptor on its thread's stack, by which it is erased.
pub record Waiter : Type 0 where
  pub address : ℕ
  pub offset : ℕ
  pub end : ℕ
  pub mode : Mode

pub record EntryKey : Type 0 where
  pub offset : ℕ
  pub id : ℕ

abbrev pub key_lt : EntryKey → EntryKey → Bool
key_lt k o = if k.offset == o.offset then ltb k.id o.id else ltb k.offset o.offset

abbrev pub key_eq : EntryKey → EntryKey → Bool
key_eq k o = k.offset == o.offset && k.id == o.id

-- A std::map as the list of its pairs in the order of the keys.
abbrev pub Entries : Type 0
Entries = List (EntryKey × LockEntry)

-- `wakeups` counts the calls of `cv_.notify_all`.
pub record LockRange : Type 0 where
  pub next_id : ℕ
  pub entries : Entries
  pub waiters : List Waiter
  pub wakeups : ℕ

-- `exclude_key`, a pointer that may be null.
abbrev pub is_excluded : Option EntryKey → EntryKey → Bool
is_excluded none key = false
is_excluded (some x) key = key.offset == x.offset && key.id == x.id

unfoldable pub overlaps : ℕ → ℕ → ℕ → ℕ → Bool
overlaps a_off a_end b_off b_end = ltb a_off b_end && ltb b_off a_end

-- The scan of `HasConflict`: it stops at the first key from `end` on.
unfoldable pub conflict_in : ℕ → ℕ → Mode → Option EntryKey → Entries → Bool
conflict_in offset end mode x [] = false
conflict_in offset end mode x ((key, entry) ∷ rest) =
    let later = conflict_in offset end mode x rest in
    if leb end key.offset
    then false
    else if is_excluded x key
    then later
    else if not (overlaps entry.offset entry.end offset end)
    then later
    else if is_exclusive mode || is_exclusive entry.mode
    then true
    else later

unfoldable pub has_conflict : LockRange → ℕ → ℕ → Mode → Option EntryKey → Bool
unfolding conflict_in
has_conflict t offset end mode x = conflict_in offset end mode x t.entries

unfoldable pub exclusive_waiter_in : ℕ → ℕ → List Waiter → Bool
exclusive_waiter_in offset end [] = false
exclusive_waiter_in offset end (w ∷ ws) =
    if is_exclusive w.mode && overlaps w.offset w.end offset end
    then true
    else exclusive_waiter_in offset end ws

unfoldable pub can_grant : LockRange → ℕ → ℕ → Mode → Option EntryKey → Bool
can_grant t offset end mode x =
    if not (is_exclusive mode) && exclusive_waiter_in offset end t.waiters
    then false
    else not (has_conflict t offset end mode x)

-- `entries_[key] = e`: the pair goes behind all smaller keys; an equal key is overwritten.
unfoldable pub map_insert : EntryKey → LockEntry → Entries → Entries
map_insert key e [] = (key, e) ∷ []
map_insert key e ((k, f) ∷ rest) =
    if key_lt k key
    then (k, f) ∷ map_insert key e rest
    else if key_lt key k
    then (key, e) ∷ (k, f) ∷ rest
    else (key, e) ∷ rest

-- The id counts up to 2 ^ 64 and would start again at 0.
unfoldable pub insert_entry : LockRange → ℕ → ℕ → Mode → LockRange
insert_entry t offset end mode = record t {
  next_id = (t.next_id + 1) % 2 ^ 64;
  entries =
      map_insert (record { offset = offset; id = t.next_id })
        (record { offset = offset; end = end; mode = mode; share_count = 1 }) t.entries;
}

-- What a stretch of `WaitLoop` under the mutex ends with.
pub data Outcome : Type 0 where
  done : Status → Outcome
  blocked : Outcome

unfoldable pub erase_waiter : ℕ → List Waiter → List Waiter
erase_waiter a [] = []
erase_waiter a (w ∷ ws) = if w.address == a then ws else w ∷ erase_waiter a ws

-- The end of `WaitLoop`: unregister, test once more, insert.
unfoldable pub finish_wait : LockRange → Waiter → LockRange × Outcome
unfolding erase_waiter can_grant insert_entry
finish_wait t w =
    let u = record t { waiters = erase_waiter w.address t.waiters } in
    if can_grant u w.offset w.end w.mode none
    then (insert_entry u w.offset w.end w.mode, done acquired)
    else (u, done timeout)

-- `while (!CanGrant(...))`, up to the next wait.
unfoldable pub loop_test : LockRange → Waiter → LockRange × Outcome
unfolding finish_wait
loop_test t w = if can_grant t w.offset w.end w.mode none then finish_wait t w else (t, blocked)

-- `WaitLoop` from its start to its first wait; `Waiter w` and `push_back` come after the first test.
unfoldable pub begin_wait : LockRange → Waiter → Bool → LockRange × Outcome
unfolding loop_test
begin_wait t w no_wait =
    if can_grant t w.offset w.end w.mode none
    then (insert_entry t w.offset w.end w.mode, done acquired)
    else if no_wait
    then (t, done timeout)
    else loop_test (record t { waiters = t.waiters ++ w ∷ [] }) w

pub data Wakeup : Type 0 where
  notified timed_out : Wakeup

-- A wait on `cv_` returns: after a timeout the loop is left unless the range is free by now.
unfoldable pub resume : LockRange → Waiter → Wakeup → LockRange × Outcome
unfolding loop_test
resume t w notified = loop_test t w
resume t w timed_out =
    if can_grant t w.offset w.end w.mode none then loop_test t w else finish_wait t w

-- The scan of `DoRelease`.
unfoldable pub release_in : ℕ → ℕ → Mode → Entries → Option (Entries × Bool)
release_in offset end mode [] = none
release_in offset end mode ((key, e) ∷ rest) =
    let later = release_in offset end mode rest in
    if ltb end key.offset
    then none
    else if not (e.offset == offset && e.end == end && same_mode e.mode mode)
    then (elim later [ none ↦ none | some (es, gone) ↦ some ((key, e) ∷ es, gone) ])
    else if not (is_exclusive mode) && ltb 1 e.share_count
    then some ((key, record e { share_count = e.share_count - 1 }) ∷ rest, false)
    else some (rest, true)

abbrev after_release : LockRange → Option (Entries × Bool) → LockRange
after_release t none = t
after_release t (some (es, false)) = record t { entries = es }
after_release t (some (es, true)) = record t { entries = es; wakeups = t.wakeups + 1 }

unfoldable pub do_release : LockRange → ℕ → ℕ → Mode → LockRange
unfolding release_in
do_release t offset length mode =
    after_release t (release_in offset ((offset + length) % 2 ^ 64) mode t.entries)

-- The scan of `IsLockedAny`.
unfoldable pub locked_in : ℕ → ℕ → Entries → Bool
locked_in offset end [] = false
locked_in offset end ((key, entry) ∷ rest) =
    let later = locked_in offset end rest in
    if leb end key.offset
    then false
    else if overlaps entry.offset entry.end offset end
    then true
    else later

-- The sum is not checked here, so it wraps.
unfoldable pub is_locked_any : LockRange → ℕ → ℕ → Bool
unfolding locked_in
is_locked_any t offset length =
    if length == 0 then false else locked_in offset ((offset + length) % 2 ^ 64) t.entries

pub active_lock_count : LockRange → ℕ
active_lock_count t = length t.entries

-- `LockRange()`.
abbrev pub empty : LockRange
empty = record { next_id = 0; entries = []; waiters = []; wakeups = 0 }
