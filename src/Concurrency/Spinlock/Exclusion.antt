-- ===== src/Concurrency/Spinlock/Exclusion.antt =====
-- Mutual exclusion of the spinlock.
use yacul.Concurrency.Spinlock.{
  k_max_spin_count, Step, Reach, yield_wait, spin, advance, Phase, try_lock, here, next, call_lock,
  call_try_lock, goes_on, owning, arriving, retrying, trying, refused, spinning, yielding,
}
use yacul.Common.{
  inr, inl, ◌^◌, sym, ◌%◌, ◌*◌, ◌++◌, ◌∙◌, leb, Bool-cases, arith, tally-middle, ◌+◌, refl, tally,
  false, true, if◌then◌else◌, List, Bool, ℕ, ◌≡◌,
}

abbrev pub is_owner : Phase → Bool
is_owner owning = true
is_owner t = false

-- The flag says whether there is an owner, and there is one at most.
abbrev pub Inv : Bool × List Phase → Type 0
Inv s = tally is_owner s.1 ≡ (if s.0 then 1 else 0)

weight : Phase → ℕ
weight t = if is_owner t then 1 else 0

spin-weight : (locked : Bool) (m : ℕ) → weight (spin locked m) ≡ 0
unfolding weight spin
spin-weight false m = refl
spin-weight true m = elim (Bool-cases (leb (m * 2 % 2 ^ 32) k_max_spin_count)) [
  | inl more ↦ rw more refl
  | inr over ↦ rw over refl
]

advance-owners :
    (locked : Bool) (t : Phase) (n : ℕ)
    → weight t + n ≡ (if locked then 1 else 0)
    → weight (advance locked t).1 + n ≡ (if (advance locked t).0 then 1 else 0)
unfolding advance weight spin yield_wait
advance-owners true arriving n e = e
advance-owners false arriving n e = omega (arith, e)
advance-owners true retrying n e = e
advance-owners false retrying n e = omega (arith, e)
advance-owners true trying n e = e
advance-owners false trying n e = omega (arith, e)
advance-owners true owning n e = omega (arith, e)
advance-owners false owning n e = absurd (omega (arith, e))
advance-owners locked refused n e = e
advance-owners locked (spinning m) n e = rw (spin-weight locked m) e
advance-owners true (yielding m) n e = e
advance-owners false (yielding m) n e = e

Step-Inv : {s t : Bool × List Phase} → Inv s → Step s t → Inv t
unfolding try_lock weight
Step-Inv v (call_lock locked ts) = omega (arith, v)
Step-Inv v (call_try_lock true ts) = omega (arith, v)
Step-Inv v (call_try_lock false ts) = omega (arith, v)
Step-Inv v (goes_on locked xs ys t) =
    tally-middle is_owner xs ys (advance locked t).1
    ∙ advance-owners locked t (tally is_owner (xs ++ ys)) (sym (tally-middle is_owner xs ys t) ∙ v)

-- However the threads call lock and try_lock, spin and leave: while the flag is set exactly one thread is in
-- its critical section, and while it is not set none is.
pub one_owner : {s : Bool × List Phase} → Reach s → tally is_owner s.1 ≡ (if s.0 then 1 else 0)
one_owner here = refl
one_owner (next r t) = Step-Inv (one_owner r) t
