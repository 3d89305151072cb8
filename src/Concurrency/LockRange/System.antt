-- ===== src/Concurrency/LockRange/System.antt =====
-- Any number of threads on one LockRange: each stretch of code under `mu_` is a step, and between two
-- steps any other thread may take the mutex. `held` is the claims of the live guards, `blocked` the
-- requests of the threads that wait on `cv_`; `cv_` may wake a waiter at any time, spuriously too.
use mathlib.Core.List.{Mem}
use yacul.Common.{◌^◌, ◌<◌, ◌∷◌, ◌++◌, ok, ◌≡◌, ◌+◌, Bool, [], List, ℕ}
use yacul.Concurrency.LockRange.{
  exclusive, shared, do_release, resume, Wakeup, Outcome, LockRange, Waiter, Mode, empty,
}
use yacul.Concurrency.LockRange.Claims.{Claim}
use yacul.Concurrency.LockRange.Waits.{holding, HasId}
use yacul.Concurrency.LockRange.Holders.{request}
use yacul.Concurrency.LockRange.Queue.{waiting, addresses}
use yacul.Concurrency.LockRange.Guards.{new_guard, upgrade_begin, waiter_for, lock_begin}

pub record System : Type 0 where
  pub table : LockRange
  pub held : List Claim
  pub blocked : List Waiter

abbrev pub range : ℕ → ℕ → Mode → Claim
range offset length mode = record { offset = offset; end = offset + length; mode = mode }

-- The threads after a stretch of WaitLoop for the request `w`.
abbrev pub settle : System → Waiter → LockRange × Outcome → System
settle s w (t, out) = record {
  table = t;
  held = holding out (request w) s.held;
  blocked = waiting out w s.blocked;
}

pub data Step (s : System) : System → Type 0 where
  -- `Lock`, `TryLockUntil` or `TryLock` is called; the descriptor stands at an address of its own, and the length is
  -- a uint64_t.
  lock :
      (address offset length : ℕ) (mode : Mode) (no_wait : Bool) {r : LockRange × Outcome}
      → HasId s.table
      → length < 2 ^ 64
      → ¬ Mem address (addresses s.blocked)
      → lock_begin s.table address offset length mode no_wait ≡ ok r
      → Step s (settle s (waiter_for address offset length mode) r)
  -- A wait on `cv_` returns.
  wake :
      (xs ys : List Waiter) (w : Waiter) (k : Wakeup)
      → HasId s.table
      → s.blocked ≡ xs ++ w ∷ ys
      → Step s (settle (record s { blocked = xs ++ ys }) w (resume s.table w k))
  -- A guard is released or destroyed.
  unlock :
      (xs ys : List Claim) (offset length : ℕ) (mode : Mode)
      → s.held ≡ xs ++ range offset length mode ∷ ys
      → Step s (record s { table = do_release s.table offset length mode; held = xs ++ ys })
  -- A shared guard is upgraded.
  upgrade :
      (xs ys : List Claim) (address offset length : ℕ) {r : LockRange × Outcome}
      → HasId s.table
      → ¬ Mem address (addresses s.blocked)
      → s.held ≡ xs ++ range offset length shared ∷ ys
      → upgrade_begin s.table address (new_guard offset length shared) ≡ ok r
      → Step s
          (settle (record s { held = xs ++ ys }) (waiter_for address offset length exclusive) r)

abbrev pub start : System
start = record { table = empty; held = []; blocked = [] }

pub data Reach : System → Type 0 where
  here : Reach start
  next : {s t : System} → Reach s → Step s t → Reach t
