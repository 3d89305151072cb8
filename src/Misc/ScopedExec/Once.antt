-- ===== src/Misc/ScopedExec/Once.antt =====
-- Every registered functor is in exactly one place, whatever the threads call.
use yacul.Common.{
  ◌⊎◌, ◌≤◌, tally-middle, ap, none, some, false, true, refl, inr, tally-append, Option, inl,
  Bool-cases, [], arith, ◌+◌, ◌++◌, if◌then◌else◌, ◌≡◌, tally, ◌∷◌, Bool, List, ℕ,
}
use yacul.Misc.ScopedExec.{
  release, move_construct, gave, Reach, made, assigned, Step, new_exec, reset_with,
  extract_if_armed, reset_empty, assign_locked, gone, took, to_list, System, ScopedExec, constructs,
  moves, assigns, releases, resets_with, resets, invokes, destroys, runs, here, next,
}

-- The functors that the objects would still run.
unfoldable pub held : List ScopedExec → List ℕ
held [] = []
held (e ∷ es) = (if e.armed then to_list e.fn else []) ++ held es

module _ (f : ℕ → Bool) where
  -- The functors that the object would run.
  unfoldable pub load : ScopedExec → ℕ
  load e = if e.armed then tally f (to_list e.fn) else 0

  tally-held-cons :
      (e : ScopedExec) (es : List ScopedExec) → tally f (held (e ∷ es)) ≡ load e + tally f (held es)
  unfolding held load
  tally-held-cons e es = elim (Bool-cases e.armed) [
    | inl on ↦ rw on (tally-append f (to_list e.fn) (held es))
    | inr off ↦ rw off (omega arith)
  ]

  tally-held-middle :
      (xs ys : List ScopedExec) (e : ScopedExec)
      → tally f (held (xs ++ e ∷ ys)) ≡ load e + tally f (held (xs ++ ys))
  tally-held-middle [] ys e = tally-held-cons e ys
  tally-held-middle (x ∷ xs) ys e = omega (
    arith,
    tally-held-cons x (xs ++ e ∷ ys),
    tally-held-cons x (xs ++ ys),
    tally-held-middle xs ys e,
  )

  -- The functors that an object would still run, that a thread is about to run, and that were run.
  unfoldable pub kept : System → ℕ
  kept s = tally f (held s.objects) + tally f s.taken + tally f s.ran

  module _ (e : ScopedExec) where
    load_armed : e.armed ≡ true → load e ≡ tally f (to_list e.fn)
    unfolding load
    load_armed on = rw on refl

    load_disarmed : e.armed ≡ false → load e ≡ 0
    unfolding load
    load_disarmed off = rw off refl

  module _ (s : System) (xs ys : List ScopedExec) (e : ScopedExec)
      (at : s.objects ≡ xs ++ e ∷ ys) where
    split_load : tally f (held s.objects) ≡ load e + tally f (held (xs ++ ys))
    split_load = rw at (tally-held-middle xs ys e)

    -- A call that takes out what the object held, and leaves as much as `n` counts.
    took-kept :
        (n : ℕ) (r : ScopedExec × Option ℕ)
        → (load r.0 ≡ n) × (tally f (to_list r.1) ≡ load e)
        → kept (took s xs ys r) ≡ n + kept s
    unfolding kept took
    took-kept n (e', g) h =
        omega (arith, split_load, tally-held-middle xs ys e', tally-append f (to_list g) s.taken, h)

    gone-kept :
        (r : ScopedExec × Option ℕ)
        → tally f (to_list r.1) ≡ load e
        → kept (gone s xs ys r) ≡ kept s
    unfolding kept gone
    gone-kept (e', g) h = omega (arith, split_load, tally-append f (to_list g) s.taken, h)

    gave-kept : (left : Option ℕ) → kept (gave s xs ys (release left e)) + load e ≡ kept s
    unfolding kept gave release
    gave-kept left =
        let u : ScopedExec = record { fn = left; armed = false } in
        omega (arith, split_load, load_disarmed u refl, tally-held-middle xs ys u)

    made-kept : (left : Option ℕ) → kept (made s xs ys (move_construct left e)) ≡ kept s
    unfolding kept made move_construct
    made-kept left =
        let u : ScopedExec = record { fn = left; armed = false } in
        omega (
          arith,
          split_load,
          tally-held-cons e (xs ++ u ∷ ys),
          tally-held-middle xs ys u,
          load_disarmed u refl,
        )

  load-new_exec : (g : Option ℕ) → load (new_exec g) ≡ tally f (to_list g)
  unfolding load new_exec
  load-new_exec none = refl
  load-new_exec (some g) = refl

  load-extract_if_armed :
      (left : Option ℕ) (e : ScopedExec)
      → (load (extract_if_armed left e).0 ≡ 0)
        × (tally f (to_list (extract_if_armed left e).1) ≡ load e)
  unfolding load extract_if_armed
  load-extract_if_armed left e = elim (Bool-cases e.armed) [
    | inl on ↦ rw on (refl, refl)
    | inr off ↦ rw off (refl, refl)
  ]

  load-reset_with :
      (g : Option ℕ) (e : ScopedExec)
      → (load (reset_with g e).0 ≡ tally f (to_list g))
        × (tally f (to_list (reset_with g e).1) ≡ load e)
  unfolding load reset_with
  load-reset_with none e = elim (Bool-cases e.armed) [
    | inl on ↦ rw on (refl, refl)
    | inr off ↦ rw off (refl, refl)
  ]
  load-reset_with (some g) e = elim (Bool-cases e.armed) [
    | inl on ↦ rw on (refl, refl)
    | inr off ↦ rw off (refl, refl)
  ]

  load-reset_empty :
      (e : ScopedExec)
      → (load (reset_empty e).0 ≡ 0) × (tally f (to_list (reset_empty e).1) ≡ load e)
  unfolding load reset_empty
  load-reset_empty e = elim (Bool-cases e.armed) [
    | inl on ↦ rw on (refl, refl)
    | inr off ↦ rw off (refl, refl)
  ]

  load-assign_locked :
      (left : Option ℕ) (e o : ScopedExec)
      → let r = assign_locked left e o in
        (load r.0 ≡ load o) × (load r.1 ≡ 0) × (tally f (to_list r.2) ≡ load e)
  unfolding load assign_locked
  load-assign_locked left e o = elim (Bool-cases e.armed) [
    | inl on ↦ rw on (refl, refl, refl)
    | inr off ↦ rw off (refl, refl, refl)
  ]

  -- The kept of two objects of the list.
  tally-held-two :
      (xs ys zs : List ScopedExec) (e o : ScopedExec)
      → tally f (held (xs ++ e ∷ (ys ++ o ∷ zs)))
        ≡ load e + load o + tally f (held (xs ++ (ys ++ zs)))
  tally-held-two [] ys zs e o =
      omega (arith, tally-held-cons e (ys ++ o ∷ zs), tally-held-middle ys zs o)
  tally-held-two (x ∷ xs) ys zs e o = omega (
    arith,
    tally-held-two xs ys zs e o,
    tally-held-cons x (xs ++ e ∷ (ys ++ o ∷ zs)),
    tally-held-cons x (xs ++ (ys ++ zs)),
  )

  tally-held-both :
      (before : Bool) (xs ys zs : List ScopedExec) (e o : ScopedExec)
      → tally f (held (if before then xs ++ e ∷ (ys ++ o ∷ zs) else xs ++ o ∷ (ys ++ e ∷ zs)))
        ≡ load e + load o + tally f (held (xs ++ (ys ++ zs)))
  tally-held-both true xs ys zs e o = tally-held-two xs ys zs e o
  tally-held-both false xs ys zs e o = omega (arith, tally-held-two xs ys zs o e)

  assigned-kept :
      (before : Bool) (s : System) (xs ys zs : List ScopedExec) (e o : ScopedExec)
      (r : ScopedExec × ScopedExec × Option ℕ)
      → s.objects ≡ (if before then xs ++ e ∷ (ys ++ o ∷ zs) else xs ++ o ∷ (ys ++ e ∷ zs))
      → (load r.0 ≡ load o) × (load r.1 ≡ 0) × (tally f (to_list r.2) ≡ load e)
      → kept (assigned before s xs ys zs r) ≡ kept s
  unfolding kept assigned
  assigned-kept before s xs ys zs e o (e', o', g) at h = omega (
    arith,
    ap (λ (es : List ScopedExec). tally f (held es)) at,
    h,
    tally-held-both before xs ys zs e o,
    tally-held-both before xs ys zs e' o',
    tally-append f (to_list g) s.taken,
  )

  kept-registered : (s : System) (rs : List ℕ) → kept (record s { registered = rs }) ≡ kept s
  unfolding kept
  kept-registered s rs = refl

  -- What a step does to the counts: a release gives back what its object held, and any other step keeps what
  -- is registered where it is.
  abbrev pub Change : System → System → Type 0
  Change s t =
      ((tally f t.returned ≡ tally f s.returned)
        × (tally f t.registered + kept s ≡ tally f s.registered + kept t))
      ⊎ (xs : List ScopedExec) × (e : ScopedExec) × (ys : List ScopedExec) × (s.objects
          ≡ xs ++ e ∷ ys)
        × (tally f t.registered ≡ tally f s.registered)
        × (kept t + load e ≡ kept s)
        × (tally f t.returned ≡ tally f (to_list e.fn) + tally f s.returned)

  pub Step-Change : {Left : Option ℕ → Type 0} {s t : System} → Step Left s t → Change s t
  Step-Change (constructs s g) = inl (
    refl,
    unfold kept in
        omega (
          arith,
          load-new_exec g,
          tally-held-cons (new_exec g) s.objects,
          tally-append f (to_list g) s.registered,
        ),
  )
  Step-Change (moves left l s xs ys e at) =
      unfold made in inl (refl, omega (arith, made-kept s xs ys e at left))
  Step-Change (assigns left l before s xs ys zs e o at) =
      unfold assigned in
      inl (
        refl,
        omega (
          arith,
          assigned-kept before s xs ys zs e o (assign_locked left e o) at
              (load-assign_locked left e o),
        ),
      )
  Step-Change (releases left l s xs ys e at) =
      unfold gave release in
      inr
        (xs, e, ys, at, refl, gave-kept s xs ys e at left, tally-append f (to_list e.fn) s.returned)
  Step-Change (resets_with g s xs ys e at) =
      let u : System = record s { registered = to_list g ++ s.registered } in
      unfold took in
      inl (
        refl,
        omega (
          arith,
          tally-append f (to_list g) s.registered,
          took-kept u xs ys e at (tally f (to_list g)) (reset_with g e) (load-reset_with g e),
          kept-registered s (to_list g ++ s.registered),
        ),
      )
  Step-Change (resets s xs ys e at) =
      unfold took in
      inl (refl, omega (arith, took-kept s xs ys e at 0 (reset_empty e) (load-reset_empty e)))
  Step-Change (invokes left l s xs ys e at) =
      unfold took in
      inl (
        refl,
        omega (
          arith,
          took-kept s xs ys e at 0 (extract_if_armed left e) (load-extract_if_armed left e),
        ),
      )
  Step-Change (destroys left l s xs ys e at) =
      unfold gone in
      inl (
        refl,
        omega (
          arith,
          gone-kept s xs ys e at (extract_if_armed left e) (load-extract_if_armed left e).1,
        ),
      )
  Step-Change (runs s fs gs g at) =
      inl (refl, unfold kept in omega (arith, ap (tally f) at, tally-middle f fs gs g))

  pub load-le : (e : ScopedExec) → load e ≤ tally f (to_list e.fn)
  unfolding load
  load-le e = elim (Bool-cases e.armed) [
    | inl on ↦ rw on (omega arith)
    | inr off ↦ rw off (omega arith)
  ]

  abbrev Inv : System → Type 0
  Inv s = (kept s ≤ tally f s.registered) × (tally f s.registered ≤ kept s + tally f s.returned)

  Step-Inv : (s t : System) → Inv s → Change s t → Inv t
  Step-Inv s t v (inl c) = (omega (arith, v, c), omega (arith, v, c))
  Step-Inv s t v (inr (xs, e, ys, at, same, left, back)) =
      (omega (arith, v, same, left), omega (arith, v, same, left, back, load-le e))

module _ (Left : Option ℕ → Type 0) (f : ℕ → Bool) where
  Reach-Inv : {s : System} → Reach Left s → Inv f s
  Reach-Inv here = unfold kept held in (omega arith, omega arith)
  Reach-Inv (next r st) = Step-Inv f _ _ (Reach-Inv r) (Step-Change f st)

-- In every reachable state, whatever a std::function holds after a move from it, and whatever test on
-- functors one counts by: what armed objects hold, what threads have taken out to run and what was run
-- are together no more than what was registered, so nothing is run more often than it was registered;
-- and with what release() gave back they are no less, so nothing is lost.
pub run_at_most_once :
    {Left : Option ℕ → Type 0} {s : System} (f : ℕ → Bool)
    → Reach Left s
    → (tally f (held s.objects) + tally f s.taken + tally f s.ran ≤ tally f s.registered)
      × (tally f s.registered
          ≤ tally f (held s.objects) + tally f s.taken + tally f s.ran + tally f s.returned)
unfolding kept
run_at_most_once {Left} f r = Reach-Inv Left f r
