-- ===== src/Misc/ScopedExec/Races.antt =====
-- The calls that disarm an object, in the order in which they get its mutex, up to its destructor.
use mathlib.Core.List.{append-nil}
use yacul.Common.{
  arith, inr, refl, if◌then◌else◌, [], inl, ◌++◌, none, some, ◌∷◌, false, Bool-cases, ◌≡◌, true,
  Bool, List, Option, ℕ,
}
use yacul.Misc.ScopedExec.{
  release, to_list, ScopedExec, reset_empty, assign_locked, assign_unsafe, extract_if_armed,
}

pub data Call : Type 0 where
  invokes resets releases : Call

-- The critical section of a call, and the functor that the call then runs.
unfoldable pub call : Option ℕ → Call → ScopedExec → ScopedExec × Option ℕ
unfolding extract_if_armed reset_empty release
call left invokes e = extract_if_armed left e
call left resets e = reset_empty e
call left releases e = ((release left e).0, none)

-- What the calls and then the destructor run.
unfoldable pub all_runs : Option ℕ → List Call → ScopedExec → List ℕ
unfolding call
all_runs left [] e = to_list (extract_if_armed left e).1
all_runs left (c ∷ cs) e = let (e', f) = call left c e in to_list f ++ all_runs left cs e'

abbrev pub starts_with_release : List Call → Bool
starts_with_release (releases ∷ cs) = true
starts_with_release cs = false

-- A call on a disarmed object runs nothing and leaves it disarmed.
call_disarmed :
    (left : Option ℕ) (c : Call) (e : ScopedExec)
    → e.armed ≡ false
    → ((call left c e).0.armed ≡ false) × (to_list (call left c e).1 ≡ [])
unfolding call
call_disarmed left invokes e off = ground arith
call_disarmed left resets e off = ground arith
call_disarmed left releases e off = (refl, refl)

disarmed_runs :
    (left : Option ℕ) (cs : List Call) (e : ScopedExec) → e.armed ≡ false → all_runs left cs e ≡ []
unfolding all_runs
disarmed_runs left [] e off = ground arith
disarmed_runs left (c ∷ cs) e off =
    let (still, none_run) = call_disarmed left c e off in
    cc (none_run, disarmed_runs left cs (call left c e).0 still)

-- A call that runs the functor takes it out.
call_armed :
    (left : Option ℕ) (c : Call) (e : ScopedExec) (f : ℕ)
    → e.armed ≡ true
    → e.fn ≡ some f
    → ((call left c e).0.armed ≡ false)
      × (to_list (call left c e).1 ≡ (if starts_with_release (c ∷ []) then [] else f ∷ []))
unfolding call
call_armed left invokes e f on at = ground arith
call_armed left resets e f on at = ground arith
call_armed left releases e f on at = (refl, refl)

starts_with_release-cons :
    (c : Call) (cs : List Call) → starts_with_release (c ∷ cs) ≡ starts_with_release (c ∷ [])
starts_with_release-cons invokes cs = refl
starts_with_release-cons resets cs = refl
starts_with_release-cons releases cs = refl

-- Invoke, reset() and release on an armed object in any order, and its destructor at the end, whatever a move
-- leaves in a std::function: all together run its functor once, or, where release is the first of the
-- calls, not at all.
pub all_runs_once :
    (left : Option ℕ) (cs : List Call) (e : ScopedExec) (f : ℕ)
    → e.armed ≡ true
    → e.fn ≡ some f
    → all_runs left cs e ≡ (if starts_with_release cs then [] else f ∷ [])
unfolding all_runs
all_runs_once left [] e f on at = ground arith
all_runs_once left (c ∷ cs) e f on at =
    let (off, run) = call_armed left c e f on at in
    let later = disarmed_runs left cs (call left c e).0 off in
    rw (starts_with_release-cons c cs, run, later) (append-nil _)

-- The two policies of operator= have the same result.
assign_unsafe-eq :
    (left : Option ℕ) (this other : ScopedExec)
    → assign_unsafe left this other ≡ assign_locked left this other
unfolding assign_unsafe assign_locked
assign_unsafe-eq left this other = elim (Bool-cases this.armed) [
  | inl on ↦ rw on refl
  | inr off ↦ rw off refl
]
