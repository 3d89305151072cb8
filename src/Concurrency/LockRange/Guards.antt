-- ===== src/Concurrency/LockRange/Guards.antt =====
-- The guards of yacul/concurrency/lock_range.cc, and the public calls that hand them out. A call that
-- waits is two functions: what runs before the waits, and what runs with the status that they end in.
-- The deadline stands in neither: it decides which `Wakeup` a wait returns.
use yacul.Common.{
  ℕ, ◌+◌, ◌-◌, ◌%◌, ◌^◌, Bool, true, false, not, ◌&&◌, Option, none, some, [], ◌∷◌, ltb, leb, ◌==◌,
  if◌then◌else◌, Run, ok, abort, ◌>>=◌, ◌>>◌, check,
}
use yacul.Concurrency.LockRange.{
  Mode, shared, exclusive, is_exclusive, same_mode, Status, acquired, invalid, Waiter, Entries,
  LockRange, Outcome, done, begin_wait, do_release,
}

-- `valid` is `owner_ != nullptr`; there is one lock, so the owner needs no name.
pub record Guard : Type 0 where
  pub valid : Bool
  pub offset : ℕ
  pub length : ℕ
  pub mode : Mode

-- `Guard{}`
abbrev pub no_guard : Guard
no_guard = record { valid = false; offset = 0; length = 0; mode = shared }

abbrev pub new_guard : ℕ → ℕ → Mode → Guard
new_guard offset length mode = record {
  valid = true;
  offset = offset;
  length = length;
  mode = mode;
}

unfoldable pub validate_range : ℕ → ℕ → Run (Unit {0})
validate_range offset length = do
  check (not (length == 0))
  check (leb offset (2 ^ 64 - 1 - length))

-- `Guard::Release`, and what the destructor does.
unfoldable pub release : LockRange → Guard → LockRange × Guard
release t g =
    if g.valid then (do_release t g.offset g.length g.mode, record g { valid = false }) else (t, g)

-- `Guard(Guard &&other)`: the new guard and what is left of `other`.
unfoldable pub move_guard : Guard → Guard × Guard
move_guard other = (other, record other { valid = false })

-- `operator=(Guard &&other)` between two different guards.
unfoldable pub move_assign : LockRange → Guard → Guard → LockRange × Guard × Guard
unfolding release
move_assign t g other = ((release t g).0, other, record other { valid = false })

-- The call's own descriptor; `address` is where it stands on the stack.
abbrev pub waiter_for : ℕ → ℕ → ℕ → Mode → Waiter
waiter_for address offset length mode = record {
  address = address;
  offset = offset;
  end = (offset + length) % 2 ^ 64;
  mode = mode;
}

-- `Lock` and `TryLockUntil` up to the first wait (`no_wait` false), and `TryLock` (`no_wait` true).
unfoldable pub lock_begin : LockRange → ℕ → ℕ → ℕ → Mode → Bool → Run (LockRange × Outcome)
unfolding validate_range
lock_begin t address offset length mode no_wait = do
  validate_range offset length
  ok (begin_wait t (waiter_for address offset length mode) no_wait)

abbrev pub is_acquired : Status → Bool
is_acquired acquired = true
is_acquired _ = false

-- `TryLock` and `TryLockUntil` with the status that `WaitLoop` returned.
unfoldable pub try_lock_end : Status → ℕ → ℕ → Mode → Guard
try_lock_end s offset length mode = if is_acquired s then new_guard offset length mode else no_guard

-- `Lock` with that status.
unfoldable pub lock_end : Status → ℕ → ℕ → Mode → Run Guard
lock_end s offset length mode = do check (is_acquired s); ok (new_guard offset length mode)

-- Step 1 of `UpgradeUntil`: the scan for the guard's own entry. `true` stands for an entry erased.
unfoldable pub unshare_in : ℕ → ℕ → Entries → Option (Entries × Bool)
unshare_in off end [] = none
unshare_in off end ((key, e) ∷ rest) =
    let later = unshare_in off end rest in
    if ltb off key.offset
    then none
    else if not (e.offset == off && e.end == end && same_mode e.mode shared)
    then (elim later [ none ↦ none | some (es, gone) ↦ some ((key, e) ∷ es, gone) ])
    else if ltb 1 e.share_count
    then some ((key, record e { share_count = e.share_count - 1 }) ∷ rest, false)
    else some (rest, true)

-- LOG(FATAL) when the entry is not there.
abbrev after_unshare : LockRange → Option (Entries × Bool) → Run LockRange
after_unshare t none = abort
after_unshare t (some (es, false)) = ok (record t { entries = es })
after_unshare t (some (es, true)) = ok (record t { entries = es; wakeups = t.wakeups + 1 })

-- `UpgradeUntil` up to the first wait.
unfoldable pub upgrade_begin : LockRange → ℕ → Guard → Run (LockRange × Outcome)
unfolding unshare_in
upgrade_begin t address g = do
  check g.valid
  if is_exclusive g.mode then ok (t, done invalid) else (do
    let end = (g.offset + g.length) % 2 ^ 64
    u ← after_unshare t (unshare_in g.offset end t.entries)
    ok (begin_wait u (waiter_for address g.offset g.length exclusive) false))

-- The guard after `UpgradeUntil`, by its status.
unfoldable pub upgrade_end : Status → Guard → Guard
upgrade_end s g =
    if is_exclusive g.mode
    then g
    else if is_acquired s
    then record g { mode = exclusive }
    else record g { valid = false }

-- `Upgrade`, with the status that `UpgradeUntil(kForever)` returned.
unfoldable pub upgrade : Status → Guard → Run Guard
unfolding upgrade_end
upgrade s g = do check (is_acquired s); ok (upgrade_end s g)
