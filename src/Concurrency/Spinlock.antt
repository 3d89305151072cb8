-- ===== src/Concurrency/Spinlock.antt =====
-- The spinlock of yacul/concurrency/spinlock.h and spinlock.cc: its flag, and the threads that spin on it.
-- Each access to the flag is a step; the pauses of CpuRelax have no effect on it.
pub mod Exclusion
pub mod Tests
use yacul.Common.{
  leb, not, ◌^◌, [], false, ◌++◌, ◌%◌, ◌+◌, List, true, ◌*◌, if◌then◌else◌, Bool, ℕ, ◌∷◌, ◌≡◌,
}

-- `locked_.exchange(true)`: the old value, and the new flag.
abbrev pub exchange : Bool → Bool × Bool
exchange locked = (locked, true)

abbrev pub k_max_spin_count : ℕ
k_max_spin_count = 1024

-- Where a thread stands: before the first exchange of lock, in the two loops of SpinWait, before a later
-- exchange, between the load and the exchange of try_lock, in its critical section, or done without the lock.
pub data Phase : Type 0 where
  arriving retrying trying owning refused : Phase
  spinning yielding : ℕ → Phase

-- `SpinWait` after a load in its first loop, where `n` is spin_count: the phase of the thread.
unfoldable pub spin : Bool → ℕ → Phase
spin locked n =
    let next = n * 2 % 2 ^ 32 in
    if not locked then retrying else if leb next k_max_spin_count then spinning next else yielding 0

-- `SpinWait` at the load in its second loop, after `n` rounds.
unfoldable pub yield_wait : Bool → ℕ → Phase
yield_wait locked n = if locked then yielding ((n + 1) % 2 ^ 32) else retrying

-- The next access of a thread to the flag: the flag and the phase after it.
unfoldable pub advance : Bool → Phase → Bool × Phase
unfolding spin yield_wait
advance locked arriving = ((exchange locked).1, if (exchange locked).0 then spinning 1 else owning)
advance locked retrying = ((exchange locked).1, if (exchange locked).0 then spinning 1 else owning)
advance locked trying = ((exchange locked).1, if (exchange locked).0 then refused else owning)
advance locked (spinning n) = (locked, spin locked n)
advance locked (yielding n) = (locked, yield_wait locked n)
advance locked owning = (false, refused)
advance locked refused = (locked, refused)

-- The load of `try_lock`.
unfoldable pub try_lock : Bool → Phase
try_lock locked = if locked then refused else trying

-- Threads call lock or try_lock, go on, and leave.
pub data Step : Bool × List Phase → Bool × List Phase → Type 0 where
  call_lock : (locked : Bool) (ts : List Phase) → Step (locked, ts) (locked, arriving ∷ ts)
  call_try_lock :
      (locked : Bool) (ts : List Phase) → Step (locked, ts) (locked, try_lock locked ∷ ts)
  goes_on :
      (locked : Bool) (xs ys : List Phase) (t : Phase)
      → Step (locked, xs ++ t ∷ ys) ((advance locked t).0, xs ++ (advance locked t).1 ∷ ys)

pub data Reach : Bool × List Phase → Type 0 where
  here : Reach (false, [])
  next : {s t : Bool × List Phase} → Reach s → Step s t → Reach t
