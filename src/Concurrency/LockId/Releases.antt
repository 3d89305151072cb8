-- ===== src/Concurrency/LockId/Releases.antt =====
-- The reference counts, while threads leave an entry.
use yacul.Common.{
  tally-zero, All-both, subst, inr, ap, sym, inl, ◌∙◌, Bool-cases, sub64, none, if◌then◌else◌,
  arith, true, ◌==◌, tally, some, refl, All-middle, ◌++◌, false, List, ℕ, ◌∷◌, ◌≡◌,
}
use yacul.Concurrency.LockId.{
  set_heap, put_entry, shared, entry_of, exclusive, LockEntry, Mode, release_entry, LockId,
}
use yacul.Concurrency.LockId.Entries.{other-claim, Matches-without, is_on, Inv, owns}
use yacul.Concurrency.LockId.System.{Claim, leaving}
use yacul.Concurrency.LockId.Owners.{own-claim}
use yacul.Concurrency.LockId.References.{count-Inv, entry_of-put}

leaving-owns : (x m : Mode) → owns x leaving m ≡ false
leaving-owns exclusive m = refl
leaving-owns shared m = refl

module _ (hash : ℕ → ℕ) where
  -- The last claim on an id goes, and the entry with it.
  last-Inv :
      (l : LockId) (xs ys : List Claim) (w : Claim) (e : LockEntry)
      → Inv hash l (xs ++ w ∷ ys)
      → entry_of hash l w.id ≡ some w.address
      → tally (is_on w.id) (xs ++ ys) ≡ 0
      → Inv hash (put_entry hash (set_heap hash l w.address e) w.id none) (xs ++ ys)
  last-Inv l xs ys w e v at gone =
      let left = set_heap hash l w.address e in
      let l1 = put_entry hash left w.id none in
      let on : (w.id == w.id) ≡ true = ground arith in
      let there : entry_of hash l1 w.id ≡ none =
        entry_of-put hash left w.id none w.id ∙ rw on refl in
      let elsewhere : (j : ℕ) → ¬ (j ≡ w.id) → entry_of hash l1 j ≡ entry_of hash l j = λ j other.
        let off : (j == w.id) ≡ false = ground arith in
        entry_of-put hash left w.id none j ∙ rw off refl in
      let still_there : (j b : ℕ)
          → entry_of hash l1 j ≡ some b
          → (¬ (j ≡ w.id)) × (entry_of hash l j ≡ some b) =
        λ j b f.
          let other : ¬ (j ≡ w.id) =
            λ k. let g = sym f ∙ ap (entry_of hash l1) k ∙ there in absurd (cc) in
          (other, sym (elsewhere j other) ∙ f) in
      record {
        found = λ j b f.
            let (other, f') = still_there j b f in
            let away : (b == w.address) ≡ false = elim (Bool-cases (b == w.address)) [
              | inl y ↦ absurd (other (v.apart j w.id b f' (at ∙ ap (λ b. some b) (ground arith))))
              | inr n ↦ n
            ] in
            rw away (Matches-without xs ys w j (l.heap b) (λ q. other (sym q)) (v.found j b f'));
        absent = λ j f. elim (Bool-cases (j == w.id)) [
          | inl k ↦
              let key : w.id ≡ j = ground arith in
              subst (λ j. tally (is_on j) (xs ++ ys) ≡ 0) key gone
          | inr k ↦
              let other : ¬ (j ≡ w.id) = λ q. ground arith in
              sym (other-claim xs ys w j (λ q. other (sym q))).0
              ∙ v.absent j (sym (elsewhere j other) ∙ f)
        ];
        apart = λ i j b f g. v.apart i j b (still_there i b f).1 (still_there j b g).1;
        points =
            All-both
              (λ (c : Claim) (n : (c.id == w.id) ≡ false) q. elsewhere c.id (λ k. ground arith) ∙ q)
              (xs ++ ys) (tally-zero (is_on w.id) (xs ++ ys) gone)
              (All-middle (λ (c : Claim). entry_of hash l c.id ≡ some c.address) xs ys w
                v.points).1;
      }

  pub release-Inv :
      (l : LockId) (xs ys : List Claim) (w : Claim)
      → Inv hash l (xs ++ w ∷ ys)
      → w.phase ≡ leaving
      → Inv hash (release_entry hash l w.id) (xs ++ ys)
  unfolding release_entry
  release-Inv l xs ys w v out =
      let (at, others) =
        All-middle (λ (c : Claim). entry_of hash l c.id ≡ some c.address) xs ys w v.points in
      let m = v.found w.id w.address at in
      let (n, own) = own-claim xs ys w in
      let here : (w.address == w.address) ≡ true = ground arith in
      let unowned : (x : Mode) → ◌≡◌ {A = ℕ} (if owns x w.phase w.mode then 1 else 0) 0 =
        λ x. rw (out, leaving-owns x w.mode) refl in
      let count = sub64 (l.heap w.address).ref_count 1 in
      elim (Bool-cases (count == 0)) [
        | inl last ↦
            rw (release_entry, at, last)
              (last-Inv l xs ys w _ v at (ground (arith, m.refs, n, m.small)))
        | inr more ↦
            rw (release_entry, at, more)
              (count-Inv hash l _ (xs ++ w ∷ ys) (xs ++ ys) w.id w.address v at (λ j. refl)
                (λ b k. let away : (b == w.address) ≡ false = ground arith in rw away refl)
                (rw here (record {
                  refs = omega (arith, m.refs, n, m.small);
                  used = ground (arith, m.refs, n, m.small);
                  small = omega (arith, m.small, n);
                  writers = omega (arith, m.writers, own exclusive, unowned exclusive);
                  readers = omega (arith, m.readers, own shared, unowned shared);
                  alone = m.alone;
                }))
                (λ j e other. Matches-without xs ys w j e other)
                (λ j other. (other-claim xs ys w j other).0) others)
      ]
