-- ===== src/Concurrency/ThreadPool/Orders.antt =====
-- The two orders on tasks, and a queue for an order: a list from which pop takes a greatest item.
use mathlib.Core.List.Perm
use yacul.Common.{
  subst, Bool-cases, Perm, inr, inl, if◌then◌else◌, Option-cases, refl, [], true, All, some, none,
  false, arith, Option, List, Bool, ◌∷◌, ◌≡◌,
}
use yacul.Concurrency.ThreadPool.{MaxQueue, delayed_less, priority_less}

pub record StrictWeak {T : Type 0} (less : T → T → Bool) : Type 0 where
  pub irreflexive : (a : T) → less a a ≡ false
  pub asymmetric : (a b : T) → less a b ≡ true → less b a ≡ false
  pub cotransitive : (a b c : T) → less a b ≡ false → less b c ≡ false → less a c ≡ false

pub priority_less-StrictWeak : StrictWeak priority_less
unfolding priority_less
priority_less-StrictWeak = record {
  irreflexive = λ a. ground arith;
  asymmetric = λ a b e. ground arith;
  cotransitive = λ a b c e f. ground arith;
}

-- operator< of DelayedTask, which compares the execution times and then the priorities, is a strict weak
-- order, as std::priority_queue asks for: irreflexive, asymmetric, and its negation is transitive.
pub delayed_less-StrictWeak : StrictWeak delayed_less
unfolding delayed_less
delayed_less-StrictWeak = record {
  irreflexive = λ a. ground arith;
  asymmetric = λ a b e. ground arith;
  cotransitive = λ a b c e f. ground arith;
}

module _ {T : Type 0} (less : T → T → Bool) (order : StrictWeak less) where
  -- `x` joins a list whose greatest item has been taken out.
  abbrev pub joined : T → Option (T × List T) → Option (T × List T)
  joined x none = some (x, [])
  joined x (some (m, r)) = if less x m then some (m, x ∷ r) else some (x, m ∷ r)

  abbrev pub take_greatest : List T → Option (T × List T)
  take_greatest [] = none
  take_greatest (x ∷ xs) = joined x (take_greatest xs)

  none_above :
      (x m : T) (ys : List T)
      → less x m ≡ false
      → All (λ y. less m y ≡ false) ys
      → All (λ y. less x y ≡ false) ys
  none_above x m [] e a = tt
  none_above x m (y ∷ ys) e a = (order.cotransitive x m y e a.0, none_above x m ys e a.1)

  pub take_greatest-none : (xs : List T) → take_greatest xs ≡ none → xs ≡ []
  take_greatest-none [] e = refl
  take_greatest-none (x ∷ xs) e = elim (Option-cases (take_greatest xs)) [
    | inl nothing ↦ absurd (let got : take_greatest (x ∷ xs) ≡ some (x, []) = rw nothing refl in cc)
    | inr ((m, r), found) ↦ elim (Bool-cases (less x m)) [
      | inl above ↦
          absurd (let got : take_greatest (x ∷ xs) ≡ some (m, x ∷ r) = rw (found, above) refl in cc)
      | inr below ↦
          absurd (let got : take_greatest (x ∷ xs) ≡ some (x, m ∷ r) = rw (found, below) refl in cc)
    ]
  ]

  abbrev pub IsGreatest : List T → T → List T → Type 0
  IsGreatest xs m r = Perm xs (m ∷ r) × All (λ y. less m y ≡ false) xs

  pub take_greatest-IsGreatest :
      (xs : List T) (m : T) (r : List T) → take_greatest xs ≡ some (m, r) → IsGreatest xs m r
  take_greatest-IsGreatest [] m r e = absurd (cc)
  take_greatest-IsGreatest (x ∷ xs) m r e = elim (Option-cases (take_greatest xs)) [
    | inl nothing ↦
        let got : take_greatest (x ∷ xs) ≡ some (x, []) = rw nothing refl in
        let same : (x, []) ≡ (m, r) = cc in
        subst (λ (mr : T × List T). IsGreatest (x ∷ xs) mr.0 mr.1) same
          (rw (take_greatest-none xs nothing) (Perm.refl (x ∷ []), (order.irreflexive x, tt)))
    | inr ((m', r'), found) ↦
        let (perm, above) = take_greatest-IsGreatest xs m' r' found in
        elim (Bool-cases (less x m')) [
          | inl lower ↦
              let got : take_greatest (x ∷ xs) ≡ some (m', x ∷ r') = rw (found, lower) refl in
              let same : (m', x ∷ r') ≡ (m, r) = cc in
              subst (λ (mr : T × List T). IsGreatest (x ∷ xs) mr.0 mr.1) same
                (
                  Perm.trans (Perm.cons x perm) (Perm.swap m' x r'),
                  (order.asymmetric x m' lower, above),
                )
          | inr higher ↦
              let got : take_greatest (x ∷ xs) ≡ some (x, m' ∷ r') = rw (found, higher) refl in
              let same : (x, m' ∷ r') ≡ (m, r) = cc in
              subst (λ (mr : T × List T). IsGreatest (x ∷ xs) mr.0 mr.1) same
                (Perm.cons x perm, (order.irreflexive x, none_above x m' xs higher above))
        ]
  ]

  abbrev pub selection : MaxQueue less
  selection = record {
    Queue = List T;
    nothing = [];
    emplace = λ q x. x ∷ q;
    pop = take_greatest;
    contents = λ q. q;
    contents-nothing = refl;
    emplaced = λ q x. Perm.refl (x ∷ q);
    popped = take_greatest-IsGreatest;
    drained = take_greatest-none;
  }
