-- ===== src/Concurrency/Spinlock/Tests.antt =====
-- The theorem on the spinlock, with a thread that locks and one that comes then.
use yacul.Concurrency.Spinlock.{
  Reach, Phase, advance, here, next, call_lock, goes_on, arriving, owning,
}
use yacul.Common.{true, [], false, if◌then◌else◌, List, Bool, tally, ◌∷◌, ◌≡◌}
use yacul.Concurrency.Spinlock.Exclusion.{one_owner, is_owner}

-- The first thread owns the lock, and the second spins.
abbrev two_threads : (s : Bool × List Phase) × Reach s
unfolding advance
two_threads = (
  _,
  next
      (next (next (next here (call_lock false [])) (goes_on false [] [] arriving))
        (call_lock true (owning ∷ [])))
      (goes_on true [] (owning ∷ []) arriving),
)

one_owner_example : tally is_owner two_threads.0.1 ≡ (if two_threads.0.0 then 1 else 0)
one_owner_example = one_owner two_threads.1
