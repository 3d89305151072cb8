-- ===== src/Concurrency/LockId/Entries.antt =====
-- The entries of the shards against the claims of the threads.
use mathlib.Core.Option.{some-injective}
use yacul.Common.{
  ◌^◌, All-map, middle-All, if◌then◌else◌, inr, subst, ap, inl, Bool-cases, sym, All-middle, ◌∙◌,
  tally-middle, ◌⊎◌, All, arith, true, ◌&&◌, none, false, some, ◌==◌, ◌<◌, ◌++◌, tally, Bool, List,
  ℕ, ◌∷◌, ◌≡◌,
}
use yacul.Concurrency.LockId.{shared, exclusive, entry_of, Mode, LockId, LockEntry}
use yacul.Concurrency.LockId.System.{holding, Phase, Claim}

-- Claims on an id, and those of them that own the mutex in a mode.
abbrev pub is_on : ℕ → Claim → Bool
is_on id c = c.id == id

abbrev pub owns : Mode → Phase → Mode → Bool
owns exclusive holding exclusive = true
owns shared holding shared = true
owns m f n = false

abbrev pub owns_on : Mode → ℕ → Claim → Bool
owns_on mode id c = c.id == id && owns mode c.phase c.mode

-- An entry has what its claims say.
pub record Matches (e : LockEntry) (cs : List Claim) (id : ℕ) : Type 0 where
  pub refs : e.ref_count ≡ tally (is_on id) cs
  pub used : 0 < tally (is_on id) cs
  pub small : tally (is_on id) cs < 2 ^ 64
  pub writers : e.mutex.writers ≡ tally (owns_on exclusive id) cs
  pub readers : e.mutex.readers ≡ tally (owns_on shared id) cs
  pub alone : (e.mutex.writers ≡ 0) ⊎ (e.mutex.writers ≡ 1) × (e.mutex.readers ≡ 0)

Matches-same :
    (e : LockEntry) (cs ds : List Claim) (id : ℕ)
    → tally (is_on id) cs ≡ tally (is_on id) ds
    → tally (owns_on exclusive id) cs ≡ tally (owns_on exclusive id) ds
    → tally (owns_on shared id) cs ≡ tally (owns_on shared id) ds
    → Matches e cs id
    → Matches e ds id
Matches-same e cs ds id r w s m = record {
  refs = m.refs ∙ r;
  used = omega (arith, m.used, r);
  small = omega (arith, m.small, r);
  writers = m.writers ∙ w;
  readers = m.readers ∙ s;
  alone = m.alone;
}

-- A claim on another id does not count.
pub other-claim :
    (xs ys : List Claim) (w : Claim) (j : ℕ)
    → ¬ (w.id ≡ j)
    → (tally (is_on j) (xs ++ w ∷ ys) ≡ tally (is_on j) (xs ++ ys))
      × ((m : Mode) → tally (owns_on m j) (xs ++ w ∷ ys) ≡ tally (owns_on m j) (xs ++ ys))
other-claim xs ys w j other =
    let off : (w.id == j) ≡ false = ground arith in
    (
      tally-middle (is_on j) xs ys w ∙ rw off (omega arith),
      λ m. tally-middle (owns_on m j) xs ys w ∙ rw off (omega arith),
    )

pub Matches-without :
    (xs ys : List Claim) (w : Claim) (j : ℕ) (e : LockEntry)
    → ¬ (w.id ≡ j)
    → Matches e (xs ++ w ∷ ys) j
    → Matches e (xs ++ ys) j
Matches-without xs ys w j e other m =
    let (n, own) = other-claim xs ys w j other in
    Matches-same e (xs ++ w ∷ ys) (xs ++ ys) j n (own exclusive) (own shared) m

pub Matches-with :
    (xs ys : List Claim) (w : Claim) (j : ℕ) (e : LockEntry)
    → ¬ (w.id ≡ j)
    → Matches e (xs ++ ys) j
    → Matches e (xs ++ w ∷ ys) j
Matches-with xs ys w j e other m =
    let (n, own) = other-claim xs ys w j other in
    Matches-same e (xs ++ ys) (xs ++ w ∷ ys) j (sym n) (sym (own exclusive)) (sym (own shared)) m

module _ (hash : ℕ → ℕ) where
  pub record Inv (l : LockId) (cs : List Claim) : Type 0 where
    pub found : (id a : ℕ) → entry_of hash l id ≡ some a → Matches (l.heap a) cs id
    pub absent : (id : ℕ) → entry_of hash l id ≡ none → tally (is_on id) cs ≡ 0
    pub apart : (id j a : ℕ) → entry_of hash l id ≡ some a → entry_of hash l j ≡ some a → id ≡ j
    pub points : All (λ c. entry_of hash l c.id ≡ some c.address) cs

  -- A claim goes on to another phase, with the mutex of its entry changed to fit.
  pub turn-Inv :
      (l l' : LockId) (xs ys : List Claim) (w w' : Claim)
      → Inv l (xs ++ w ∷ ys)
      → w.id ≡ w'.id
      → w.address ≡ w'.address
      → ((j : ℕ) → entry_of hash l' j ≡ entry_of hash l j)
      → ((b : ℕ) → ¬ (b ≡ w.address) → l'.heap b ≡ l.heap b)
      → Matches (l'.heap w.address) (xs ++ w' ∷ ys) w.id
      → Inv l' (xs ++ w' ∷ ys)
  turn-Inv l l' xs ys w w' v i a same rest m = record {
    found = λ id b e.
        let e' = sym (same id) ∙ e in
        elim (Bool-cases (w.id == id)) [
          | inl on ↦
              let key : w.id ≡ id = ground arith in
              let place : w.address ≡ b =
                some-injective w.address b (sym (own.0) ∙ ap (entry_of hash l) key ∙ e') in
              subst (λ b. Matches (l'.heap b) (xs ++ w' ∷ ys) id) place
                (subst (λ id. Matches (l'.heap w.address) (xs ++ w' ∷ ys) id) key m)
          | inr off ↦
              let other : ¬ (w.id ≡ id) = λ k. ground arith in
              let other' : ¬ (w'.id ≡ id) = λ k. other (i ∙ k) in
              let away : ¬ (b ≡ w.address) =
                λ k. other (v.apart w.id id b (own.0 ∙ ap (λ b. some b) (sym k)) e') in
              subst (λ e. Matches e (xs ++ w' ∷ ys) id) (sym (rest b away))
                (Matches-with xs ys w' id (l.heap b) other'
                  (Matches-without xs ys w id (l.heap b) other (v.found id b e')))
        ];
    absent = λ id e.
        let none_before = v.absent id (sym (same id) ∙ e) in
        let equal : is_on id w ≡ is_on id w' = ap (λ k. k == id) i in
        let flag = ap {B = ℕ} (λ b. if b then 1 else 0) equal in
        omega (
          arith,
          none_before,
          flag,
          tally-middle (is_on id) xs ys w,
          tally-middle (is_on id) xs ys w',
        );
    apart = λ id j b e f. v.apart id j b (sym (same id) ∙ e) (sym (same j) ∙ f);
    points =
        middle-All (λ (c : Claim). entry_of hash l' c.id ≡ some c.address) xs ys w'
          (same w'.id ∙ ap (entry_of hash l) (sym i) ∙ own.0 ∙ ap (λ b. some b) a)
          (All-map (λ (c : Claim) q. same c.id ∙ q) (xs ++ ys) own.1);
  }
    where
      own :
          (entry_of hash l w.id ≡ some w.address)
          × All (λ c. entry_of hash l c.id ≡ some c.address) (xs ++ ys)
      own = All-middle (λ (c : Claim). entry_of hash l c.id ≡ some c.address) xs ys w v.points
