-- ===== src/Concurrency/LockId/Exclusion.antt =====
-- What holds of the locks by id, however their threads interleave.
use yacul.Concurrency.LockId.System.{
  Step, Reach, System, acquire, grant, give_up, unlock, release, here, next,
}
use yacul.Common.{
  inr, arith, inl, Option-cases, ◌<◌, ◌⊎◌, subst, some, none, refl, [], tally, All, ℕ, ◌≡◌,
}
use yacul.Concurrency.LockId.{shared, exclusive, entry_of, new_lock}
use yacul.Concurrency.LockId.Entries.{is_on, owns_on, Inv}
use yacul.Concurrency.LockId.References.{owns-le, acquire-Inv}
use yacul.Concurrency.LockId.Owners.{unlock-Inv, give_up-Inv, grant-Inv}
use yacul.Concurrency.LockId.Releases.{release-Inv}

module _ (hash : ℕ → ℕ) where
  new_lock-Inv : (n : ℕ) → Inv hash (new_lock n) []
  unfolding new_lock
  new_lock-Inv n = record {
    found = λ id a e. absurd (cc);
    absent = λ id e. refl;
    apart = λ id j a e f. absurd (cc);
    points = tt;
  }

  Step-Inv : {s t : System} → Inv hash s.locks s.claims → Step hash s t → Inv hash t.locks t.claims
  Step-Inv {s} v (acquire id fresh mode few new) =
      acquire-Inv hash s.locks s.claims id fresh mode v few new
  Step-Inv {s} v (grant xs ys id a mode l e h) =
      grant-Inv hash s.locks xs ys id a mode l (subst (Inv hash s.locks) e v) h
  Step-Inv {s} v (give_up xs ys id a mode e) =
      give_up-Inv hash s.locks xs ys id a mode (subst (Inv hash s.locks) e v)
  Step-Inv {s} v (unlock xs ys id a mode e) =
      unlock-Inv hash s.locks xs ys id a mode (subst (Inv hash s.locks) e v)
  Step-Inv {s} v (release xs ys id a mode e) =
      release-Inv hash s.locks xs ys _ (subst (Inv hash s.locks) e v) refl

  pub Reach-Inv : {s : System} → Reach hash s → Inv hash s.locks s.claims
  Reach-Inv (here n) = new_lock-Inv n
  Reach-Inv (next r t) = Step-Inv (Reach-Inv r) t

  -- However the threads lock, wait, give up and release: of an id, either no claim owns the lock
  -- exclusively, or exactly one does and none shares it.
  pub writer_alone :
      {s : System} (id : ℕ)
      → Reach hash s
      → (tally (owns_on exclusive id) s.claims ≡ 0)
        ⊎ (tally (owns_on exclusive id) s.claims ≡ 1) × (tally (owns_on shared id) s.claims ≡ 0)
  writer_alone {s} id r = elim (Option-cases (entry_of hash s.locks id)) [
    | inl nothing ↦
        inl (omega (arith, (Reach-Inv r).absent id nothing, owns-le exclusive id s.claims))
    | inr (a, at) ↦
        let m = (Reach-Inv r).found id a at in
        elim m.alone [
          | inl none_in ↦ inl (omega (arith, m.writers))
          | inr (one, alone) ↦ inr (omega (arith, m.writers), omega (arith, m.readers))
        ]
  ]

  -- In every reachable state, an id has an entry exactly while some claim on it is not released: the count of
  -- the entry is the number of its claims, and without a claim there is no entry.
  pub ref_count-claims :
      {s : System} (id : ℕ)
      → Reach hash s
      → ((entry_of hash s.locks id ≡ none) × (tally (is_on id) s.claims ≡ 0))
        ⊎ ((a : ℕ) × (entry_of hash s.locks id ≡ some a)
            × (0 < tally (is_on id) s.claims)
            × ((s.locks.heap a).ref_count ≡ tally (is_on id) s.claims))
  ref_count-claims {s} id r = elim (Option-cases (entry_of hash s.locks id)) [
    | inl nothing ↦ inl (nothing, (Reach-Inv r).absent id nothing)
    | inr (a, at) ↦ let m = (Reach-Inv r).found id a at in inr (a, at, m.used, m.refs)
  ]

  -- In every reachable state, the entry that a thread has a pointer to is the one that the shards have for
  -- its id: no thread is left with the pointer to an erased entry.
  pub pointers-entries :
      {s : System} → Reach hash s → All (λ c. entry_of hash s.locks c.id ≡ some c.address) s.claims
  pointers-entries r = (Reach-Inv r).points
