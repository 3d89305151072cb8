-- ===== src/Misc/ScopedExec.antt =====
-- Models yacul/misc/scoped_exec.h: an object that runs a functor when it is destroyed. A functor is a
-- number, and an empty std::function is none. The standard does not say what a std::function holds
-- after a move from it, so that is the parameter `left` of the functions that move. Each function is
-- one critical section of the mutex; the functor that it hands back is run by its caller behind it,
-- as a step of its own.
pub mod Once
pub mod Emptied
pub mod Races
mod Tests
use yacul.Common.{
  ◌≡◌, none, not, true, ◌++◌, false, if◌then◌else◌, ◌∷◌, some, Option, [], List, Bool, ℕ,
}

pub record ScopedExec : Type 0 where
  pub fn : Option ℕ
  pub armed : Bool

abbrev pub is_some : Option ℕ → Bool
is_some none = false
is_some (some f) = true

-- ScopedExec() and ScopedExec(Fn &&).
pub new_exec : Option ℕ → ScopedExec
new_exec f = record { fn = f; armed = is_some f }

module _ (left : Option ℕ) where
  -- ExtractIfArmed: the functor that the caller is to run.
  unfoldable pub extract_if_armed : ScopedExec → ScopedExec × Option ℕ
  extract_if_armed e =
      if not e.armed then (e, none) else (record { fn = left; armed = false }, e.fn)

  -- The new object, and the one that is moved from.
  unfoldable pub move_construct : ScopedExec → ScopedExec × ScopedExec
  move_construct other =
      (record { fn = other.fn; armed = other.armed }, record { fn = left; armed = false })

  -- operator= of two objects, with the thread-safe policy: *this, the other, and the functor that is
  -- run behind the two locks.
  unfoldable pub assign_locked : ScopedExec → ScopedExec → ScopedExec × ScopedExec × Option ℕ
  assign_locked this other =
      let old_fn = if this.armed then this.fn else none in
      (record { fn = other.fn; armed = other.armed }, record { fn = left; armed = false }, old_fn)

  -- The same with the unsafe policy.
  unfoldable pub assign_unsafe : ScopedExec → ScopedExec → ScopedExec × ScopedExec × Option ℕ
  unfolding extract_if_armed
  assign_unsafe this other =
      let (e, old_fn) = extract_if_armed this in
      (record e { fn = other.fn; armed = other.armed }, record { fn = left; armed = false }, old_fn)

  -- release(): what the call returns is not run.
  unfoldable pub release : ScopedExec → ScopedExec × Option ℕ
  release e = (record { fn = left; armed = false }, e.fn)

-- reset(fn) under the mutex; the second part is run behind it.
unfoldable pub reset_with : Option ℕ → ScopedExec → ScopedExec × Option ℕ
reset_with f e =
    let old_fn = if e.armed then e.fn else none in (record { fn = f; armed = is_some f }, old_fn)

-- reset() under the mutex.
unfoldable pub reset_empty : ScopedExec → ScopedExec × Option ℕ
reset_empty e =
    let old_fn = if e.armed then e.fn else none in
    (record { fn = none; armed = if e.armed then false else e.armed }, old_fn)

abbrev pub to_list : Option ℕ → List ℕ
to_list none = []
to_list (some f) = f ∷ []

-- The objects that are alive, and the functors: the ones registered so far, those that a thread took
-- out and is about to run, those that were run, and those that release() gave back.
pub record System : Type 0 where
  pub objects : List ScopedExec
  pub registered : List ℕ
  pub taken : List ℕ
  pub ran : List ℕ
  pub returned : List ℕ

-- A call on one object: what it takes out, if anything.
pub took : System → List ScopedExec → List ScopedExec → ScopedExec × Option ℕ → System
took s xs ys (e, f) = record s { objects = xs ++ e ∷ ys; taken = to_list f ++ s.taken }

-- The same for an object that is destroyed.
pub gone : System → List ScopedExec → List ScopedExec → ScopedExec × Option ℕ → System
gone s xs ys (e, f) = record s { objects = xs ++ ys; taken = to_list f ++ s.taken }

-- A release: what comes back, if anything, is what the object held, armed or not.
pub gave : System → List ScopedExec → List ScopedExec → ScopedExec × Option ℕ → System
gave s xs ys (e, f) = record s { objects = xs ++ e ∷ ys; returned = to_list f ++ s.returned }

-- A move construction.
pub made : System → List ScopedExec → List ScopedExec → ScopedExec × ScopedExec → System
made s xs ys (new, e) = record s { objects = new ∷ xs ++ e ∷ ys }

-- A move assignment; `before` puts the two objects in the order in which they stand.
pub assigned :
    Bool
    → System
    → List ScopedExec
    → List ScopedExec
    → List ScopedExec
    → ScopedExec × ScopedExec × Option ℕ
    → System
assigned before s xs ys zs (e, o, f) = record s {
  objects = if before then xs ++ e ∷ (ys ++ o ∷ zs) else xs ++ o ∷ (ys ++ e ∷ zs);
  taken = to_list f ++ s.taken;
}

-- `Left` says what a std::function can hold after a move from it.
pub data Step (Left : Option ℕ → Type 0) : System → System → Type 0 where
  constructs :
      (s : System) (f : Option ℕ)
      → Step Left s
          (record s { objects = new_exec f ∷ s.objects; registered = to_list f ++ s.registered })
  moves :
      (left : Option ℕ)
      → Left left
      → (s : System) (xs ys : List ScopedExec) (e : ScopedExec) → s.objects ≡ xs ++ e ∷ ys
      → Step Left s (made s xs ys (move_construct left e))
  assigns :
      (left : Option ℕ)
      → Left left
      → (before : Bool) (s : System) (xs ys zs : List ScopedExec) (e o : ScopedExec)
      → s.objects ≡ (if before then xs ++ e ∷ (ys ++ o ∷ zs) else xs ++ o ∷ (ys ++ e ∷ zs))
      → Step Left s (assigned before s xs ys zs (assign_locked left e o))
  releases :
      (left : Option ℕ)
      → Left left
      → (s : System) (xs ys : List ScopedExec) (e : ScopedExec) → s.objects ≡ xs ++ e ∷ ys
      → Step Left s (gave s xs ys (release left e))
  resets_with :
      (f : Option ℕ) (s : System) (xs ys : List ScopedExec) (e : ScopedExec)
      → s.objects ≡ xs ++ e ∷ ys
      → Step Left s
          (took (record s { registered = to_list f ++ s.registered }) xs ys (reset_with f e))
  resets :
      (s : System) (xs ys : List ScopedExec) (e : ScopedExec)
      → s.objects ≡ xs ++ e ∷ ys
      → Step Left s (took s xs ys (reset_empty e))
  invokes :
      (left : Option ℕ)
      → Left left
      → (s : System) (xs ys : List ScopedExec) (e : ScopedExec) → s.objects ≡ xs ++ e ∷ ys
      → Step Left s (took s xs ys (extract_if_armed left e))
  destroys :
      (left : Option ℕ)
      → Left left
      → (s : System) (xs ys : List ScopedExec) (e : ScopedExec) → s.objects ≡ xs ++ e ∷ ys
      → Step Left s (gone s xs ys (extract_if_armed left e))
  runs :
      (s : System) (fs gs : List ℕ) (f : ℕ)
      → s.taken ≡ fs ++ f ∷ gs
      → Step Left s (record s { taken = fs ++ gs; ran = f ∷ s.ran })

abbrev pub nothing : System
nothing = record { objects = []; registered = []; taken = []; ran = []; returned = [] }

pub data Reach (Left : Option ℕ → Type 0) : System → Type 0 where
  here : Reach Left nothing
  next : {s t : System} → Reach Left s → Step Left s t → Reach Left t
