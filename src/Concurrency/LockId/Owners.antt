-- ===== src/Concurrency/LockId/Owners.antt =====
-- The mutex of an entry, while its threads take it and give it back.
use yacul.Common.{
  ◌⊎◌, subst, inr, ◌&&◌, inl, Bool-cases, false, tally-middle, sym, refl, arith, true, ◌∙◌, ◌==◌,
  if◌then◌else◌, some, All-middle, ◌+◌, ◌++◌, tally, List, ℕ, ◌∷◌, ◌≡◌,
}
use yacul.Concurrency.LockId.{
  shared, SharedMutex, exclusive, entry_of, set_heap, unlock_mutex, lock_mutex, lock_entry,
  unlock_entry, Mode, LockEntry, LockId,
}
use yacul.Concurrency.LockId.System.{leaving, holding, waiting, Phase, Claim}
use yacul.Concurrency.LockId.Entries.{owns, turn-Inv, owns_on, Matches, is_on, Inv}

-- A claim counts on its own id.
pub own-claim :
    (xs ys : List Claim) (w : Claim)
    → (tally (is_on w.id) (xs ++ w ∷ ys) ≡ 1 + tally (is_on w.id) (xs ++ ys))
      × ((m : Mode)
          → tally (owns_on m w.id) (xs ++ w ∷ ys)
            ≡ (if owns m w.phase w.mode then 1 else 0) + tally (owns_on m w.id) (xs ++ ys))
own-claim xs ys w =
    let on : (w.id == w.id) ≡ true = ground arith in
    (
      tally-middle (is_on w.id) xs ys w ∙ rw on refl,
      λ m. tally-middle (owns_on m w.id) xs ys w ∙ rw on refl,
    )

module _ (hash : ℕ → ℕ) where
  pub set-Inv :
      (l : LockId) (xs ys : List Claim) (w w' : Claim) (e : LockEntry)
      → Inv hash l (xs ++ w ∷ ys)
      → w.id ≡ w'.id
      → w.address ≡ w'.address
      → Matches e (xs ++ w' ∷ ys) w.id
      → Inv hash (set_heap hash l w.address e) (xs ++ w' ∷ ys)
  set-Inv l xs ys w w' e v i a m =
      let here : (w.address == w.address) ≡ true = ground arith in
      turn-Inv hash l (set_heap hash l w.address e) xs ys w w' v i a (λ j. refl)
        (λ b k. let away : (b == w.address) ≡ false = ground arith in rw away refl) (rw here m)

  module _ (l : LockId) (xs ys : List Claim) (id a : ℕ) (mode : Mode) where
    abbrev pub claim : Phase → Claim
    claim phase = record { id = id; address = a; mode = mode; phase = phase }

    entry-Matches :
        (phase : Phase)
        → Inv hash l (xs ++ claim phase ∷ ys)
        → Matches (l.heap a) (xs ++ claim phase ∷ ys) id
    entry-Matches phase v =
        v.found id a
          (All-middle (λ (c : Claim). entry_of hash l c.id ≡ some c.address) xs ys (claim phase)
            v.points).0

    abbrev weight : Mode → Phase → ℕ
    weight m phase = if owns m phase mode then 1 else 0

    -- The claim goes to another phase, and the mutex with it.
    turned-Matches :
        (from to : Phase) (e : LockEntry) (x : SharedMutex)
        → Matches e (xs ++ claim from ∷ ys) id
        → x.writers + weight exclusive from ≡ e.mutex.writers + weight exclusive to
        → x.readers + weight shared from ≡ e.mutex.readers + weight shared to
        → (x.writers ≡ 0) ⊎ (x.writers ≡ 1) × (x.readers ≡ 0)
        → Matches (record e { mutex = x }) (xs ++ claim to ∷ ys) id
    turned-Matches from to e x m w r alone =
        let (n, own) = own-claim xs ys (claim from) in
        let (n', own') = own-claim xs ys (claim to) in
        record {
          refs = m.refs ∙ n ∙ sym n';
          used = omega (arith, n');
          small = omega (arith, m.small, n, n');
          writers = omega (arith, m.writers, own exclusive, own' exclusive, w);
          readers = omega (arith, m.readers, own shared, own' shared, r);
          alone = alone;
        }

    pub give_up-Inv : Inv hash l (xs ++ claim waiting ∷ ys) → Inv hash l (xs ++ claim leaving ∷ ys)
    give_up-Inv v =
        let m = entry-Matches waiting v in
        turn-Inv hash l l xs ys (claim waiting) (claim leaving) v refl refl (λ j. refl)
          (λ b k. refl)
          (turned-Matches waiting leaving (l.heap a) (l.heap a).mutex m refl refl m.alone)

module _ (hash : ℕ → ℕ) (l : LockId) (xs ys : List Claim) (id a : ℕ) where
  -- What a claim that owns the mutex says of it.
  owner :
      (mode : Mode) (e : LockEntry)
      → Matches e (xs ++ claim hash l xs ys id a mode holding ∷ ys) id
      → (e.mutex.writers
          ≡ (if owns exclusive holding mode then 1 else 0)
            + tally (owns_on exclusive id) (xs ++ ys))
        × (e.mutex.readers
            ≡ (if owns shared holding mode then 1 else 0) + tally (owns_on shared id) (xs ++ ys))
  owner mode e m =
      let (n, own) = own-claim xs ys (claim hash l xs ys id a mode holding) in
      (m.writers ∙ own exclusive, m.readers ∙ own shared)

  pub unlock-Inv :
      (mode : Mode)
      → Inv hash l (xs ++ claim hash l xs ys id a mode holding ∷ ys)
      → Inv hash (unlock_entry hash l a mode) (xs ++ claim hash l xs ys id a mode leaving ∷ ys)
  unfolding unlock_entry unlock_mutex
  unlock-Inv exclusive v =
      let m = entry-Matches hash l xs ys id a exclusive holding v in
      let (w, r) = owner exclusive (l.heap a) m in
      set-Inv hash l xs ys _ (claim hash l xs ys id a exclusive leaving) _ v refl refl (
        turned-Matches hash l xs ys id a exclusive holding leaving (l.heap a) _ m (omega arith) refl
          (elim m.alone [
            | inl none_in ↦ absurd (omega arith)
            | inr (one, alone) ↦ inl (omega arith)
          ]))
  unlock-Inv shared v =
      let m = entry-Matches hash l xs ys id a shared holding v in
      let (w, r) = owner shared (l.heap a) m in
      set-Inv hash l xs ys _ (claim hash l xs ys id a shared leaving) _ v refl refl (
        turned-Matches hash l xs ys id a shared holding leaving (l.heap a) _ m refl (omega arith)
          (elim m.alone [ inl none_in ↦ inl none_in | inr (one, alone) ↦ absurd (omega arith) ]))

  pub grant-Inv :
      (mode : Mode) (l' : LockId)
      → Inv hash l (xs ++ claim hash l xs ys id a mode waiting ∷ ys)
      → lock_entry hash l a mode ≡ some l'
      → Inv hash l' (xs ++ claim hash l xs ys id a mode holding ∷ ys)
  unfolding lock_entry lock_mutex
  grant-Inv exclusive l' v e =
      let m = entry-Matches hash l xs ys id a exclusive waiting v in
      let x = (l.heap a).mutex in
      elim (Bool-cases (x.writers == 0 && x.readers == 0)) [
        | inr taken ↦ absurd (ground arith)
        | inl free ↦
            let taken : SharedMutex = record x { writers = 1 } in
            let got : lock_entry hash l a exclusive
                ≡ some (set_heap hash l a (record (l.heap a) { mutex = taken })) =
              rw (lock_entry, lock_mutex, free) refl in
            let same : set_heap hash l a (record (l.heap a) { mutex = taken }) ≡ l' = cc in
            subst (λ l'. Inv hash l' (xs ++ claim hash l xs ys id a exclusive holding ∷ ys)) same
              (set-Inv hash l xs ys _ (claim hash l xs ys id a exclusive holding) _ v refl refl (
                turned-Matches hash l xs ys id a exclusive waiting holding (l.heap a) taken m
                  (ground arith) refl (inr (refl, ground arith))))
      ]
  grant-Inv shared l' v e =
      let m = entry-Matches hash l xs ys id a shared waiting v in
      let x = (l.heap a).mutex in
      elim (Bool-cases (x.writers == 0)) [
        | inr taken ↦ absurd (ground arith)
        | inl free ↦
            let joined : SharedMutex = record x { readers = x.readers + 1 } in
            let got : lock_entry hash l a shared
                ≡ some (set_heap hash l a (record (l.heap a) { mutex = joined })) =
              rw (lock_entry, lock_mutex, free) refl in
            let same : set_heap hash l a (record (l.heap a) { mutex = joined }) ≡ l' = cc in
            subst (λ l'. Inv hash l' (xs ++ claim hash l xs ys id a shared holding ∷ ys)) same
              (set-Inv hash l xs ys _ (claim hash l xs ys id a shared holding) _ v refl refl (
                turned-Matches hash l xs ys id a shared waiting holding (l.heap a) joined m refl
                  (omega arith) (inl (ground arith))))
      ]
