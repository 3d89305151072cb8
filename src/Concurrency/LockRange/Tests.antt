-- ===== src/Concurrency/LockRange/Tests.antt =====
-- Runs of the range lock, and the theorems of its modules at concrete inputs.
use mathlib.Core.List.{Mem, Pairwise, not-mem-nil, Perm}
use yacul.Common.{true, ok, ◌+◌, ◌⊎◌, [], none, ◌∷◌, arith, refl, ◌≡◌, false}
use yacul.Concurrency.LockRange.{
  timeout, timed_out, loop_test, acquired, erase_waiter, overlaps, done, notified, is_locked_any,
  Waiter, do_release, resume, blocked, exclusive_waiter_in, map_insert, shared, exclusive,
  has_conflict, can_grant, empty, insert_entry, Outcome, begin_wait, LockRange,
}
use yacul.Concurrency.LockRange.Guards.{new_guard, upgrade_begin, waiter_for, lock_begin}
use yacul.Concurrency.LockRange.System.{unlock, lock, here, next, Reach, start, settle, System}
use yacul.Concurrency.LockRange.Holders.{Holds}
use yacul.Concurrency.LockRange.Claims.{any_clash, IsTable, Compatible, claims}
use yacul.Concurrency.LockRange.Exclusion.{
  upgrade_begin-held, Reach-Inv, mutual_exclusion, claims-perm-held,
}
use yacul.Concurrency.LockRange.Conflict.{has_conflict-eq-any_clash}
use yacul.Concurrency.LockRange.Progress.{
  timeout_strands_reader, wait_forever-acquired, no_deadlock,
}
use yacul.Concurrency.LockRange.Release.{do_release-Holds}

-- What a run computes with.
running : Unit {0}
unfolding lock_begin begin_wait resume do_release upgrade_begin is_locked_any insert_entry can_grant
    has_conflict map_insert exclusive_waiter_in overlaps erase_waiter
running = tt

-- A thread locks [0, 10) exclusively.
abbrev locked : LockRange × Outcome
locked = begin_wait empty (waiter_for 100 0 10 exclusive) false

abbrev one_writer : System
one_writer = settle start (waiter_for 100 0 10 exclusive) locked

one_writer-Reach : Reach one_writer
unfolding running
one_writer-Reach =
    next here (lock 100 0 10 exclusive false (omega arith) (omega arith) not-mem-nil refl)

-- A second one asks for [5, 10) to read, and is blocked.
abbrev asked : LockRange × Outcome
asked = begin_wait one_writer.table (waiter_for 200 5 5 shared) false

abbrev one_reader_waits : System
one_reader_waits = settle one_writer (waiter_for 200 5 5 shared) asked

asked_blocks : asked.1 ≡ blocked
unfolding running
asked_blocks = refl

one_reader_waits-Reach : Reach one_reader_waits
unfolding running
one_reader_waits-Reach =
    next one_writer-Reach (lock 200 5 5 shared false (omega arith) (omega arith) not-mem-nil refl)

-- The first one releases.
abbrev released : System
released = record {
  table = do_release one_reader_waits.table 0 10 exclusive;
  held = [];
  blocked = one_reader_waits.blocked;
}

released-Reach : Reach released
unfolding running
released-Reach = next one_reader_waits-Reach (unlock [] [] 0 10 exclusive refl)

mutual_exclusion_example : Pairwise Compatible one_reader_waits.held
mutual_exclusion_example = mutual_exclusion one_reader_waits-Reach

claims-perm-held_example : Perm (claims one_reader_waits.table.entries) one_reader_waits.held
claims-perm-held_example = claims-perm-held one_reader_waits-Reach

no_deadlock_example :
    (w : Waiter) × Mem w released.blocked × ((resume released.table w notified).1 ≡ done acquired)
unfolding running
no_deadlock_example = no_deadlock (waiter_for 200 5 5 shared) [] released-Reach refl refl

-- Two entries, in the order of their offsets.
abbrev two_entries : LockRange
two_entries = record {
  next_id = 2;
  entries =
      (
        record { offset = 0; id = 1 },
        record { offset = 0; end = 4; mode = shared; share_count = 1 },
      )
      ∷ (
        record { offset = 8; id = 0 },
        record { offset = 8; end = 12; mode = exclusive; share_count = 1 },
      )
      ∷ [];
  waiters = [];
  wakeups = 0;
}

two_entries-IsTable : IsTable 2 two_entries.entries
two_entries-IsTable = omega arith

has_conflict-eq-any_clash_example :
    has_conflict two_entries 2 9 shared none
    ≡ any_clash (record { offset = 2; end = 9; mode = shared }) (claims two_entries.entries)
has_conflict-eq-any_clash_example =
    has_conflict-eq-any_clash two_entries 2 2 9 shared two_entries-IsTable

writer-Holds : Holds one_writer.table one_writer.held
writer-Holds = (Reach-Inv one_writer-Reach).holds

do_release-Holds_example :
    Holds (do_release one_writer.table 0 10 exclusive) []
    × ((do_release one_writer.table 0 10 exclusive).wakeups ≡ one_writer.table.wakeups + 1)
    × ((do_release one_writer.table 0 10 exclusive).waiters ≡ one_writer.table.waiters)
unfolding running
do_release-Holds_example = do_release-Holds 0 10 exclusive (omega arith) writer-Holds

-- A thread holds [0, 10) to read.
abbrev one_reader : System
one_reader =
    settle start (waiter_for 100 0 10 shared) (begin_wait empty (waiter_for 100 0 10 shared) false)

one_reader-Reach : Reach one_reader
unfolding running
one_reader-Reach =
    next here (lock 100 0 10 shared false (omega arith) (omega arith) not-mem-nil refl)

upgrade_begin-held_example :
    (u : LockRange) × Holds u []
    × (u.next_id ≡ one_reader.table.next_id)
    × (u.waiters ≡ one_reader.table.waiters)
    × (upgrade_begin one_reader.table 100 (new_guard 0 10 shared)
        ≡ ok (begin_wait u (waiter_for 100 0 10 exclusive) false))
unfolding running
upgrade_begin-held_example = upgrade_begin-held 100 0 10 (Reach-Inv one_reader-Reach).holds

-- The reader's range is asked for by a writer, and then by another reader.
abbrev queue : LockRange
queue = record one_reader.table {
  waiters = waiter_for 200 0 10 exclusive ∷ waiter_for 300 5 5 shared ∷ [];
}

timeout_strands_reader_example :
    ((loop_test queue (waiter_for 300 5 5 shared)).1 ≡ blocked)
    × ((resume queue (waiter_for 200 0 10 exclusive) timed_out).1 ≡ done timeout)
    × (can_grant (resume queue (waiter_for 200 0 10 exclusive) timed_out).0 5 10 shared none ≡ true)
    × ((resume queue (waiter_for 200 0 10 exclusive) timed_out).0.wakeups ≡ queue.wakeups)
unfolding running
timeout_strands_reader_example =
    timeout_strands_reader queue (waiter_for 200 0 10 exclusive) (waiter_for 300 5 5 shared) refl
      refl refl refl refl refl

wait_forever-acquired_example :
    (((begin_wait queue (waiter_for 400 0 10 exclusive) false).1 ≡ blocked)
      ⊎ ((begin_wait queue (waiter_for 400 0 10 exclusive) false).1 ≡ done acquired))
    × (((resume queue (waiter_for 400 0 10 exclusive) notified).1 ≡ blocked)
        ⊎ ((resume queue (waiter_for 400 0 10 exclusive) notified).1 ≡ done acquired))
wait_forever-acquired_example = wait_forever-acquired queue (waiter_for 400 0 10 exclusive)
