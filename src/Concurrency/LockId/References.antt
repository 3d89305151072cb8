-- ===== src/Concurrency/LockId/References.antt =====
-- The reference counts, while threads come to an entry.
use mathlib.Core.Option.{some-injective}
use yacul.Common.{
  tally-le, Option-cases, ◌^◌, update, ◌⊎◌, ◌<◌, ◌+◌, length, false, none, All-map, subst, refl, ap,
  [], ◌∙◌, true, inr, sym, inl, All, arith, Bool-cases, ◌==◌, ◌≤◌, if◌then◌else◌, some, tally, List,
  Option, ℕ, ◌∷◌, ◌≡◌,
}
use yacul.Concurrency.LockId.{
  shared, exclusive, acquire_entry, fresh_entry, set_heap, shard_index, LockEntry, put_entry,
  entry_of, Mode, LockId,
}
use yacul.Concurrency.LockId.System.{waiting, Claim}
use yacul.Concurrency.LockId.Entries.{other-claim, Matches-with, owns, is_on, Matches, owns_on, Inv}
use yacul.Concurrency.LockId.Owners.{own-claim}

pub owns-le : (m : Mode) (id : ℕ) (cs : List Claim) → tally (owns_on m id) cs ≤ tally (is_on id) cs
owns-le m id [] = omega arith
owns-le m id (c ∷ cs) = elim (Bool-cases (c.id == id)) [
  | inr off ↦ rw off (omega (arith, owns-le m id cs))
  | inl on ↦ elim (Bool-cases (owns m c.phase c.mode)) [
    | inl y ↦ rw (on, y) (omega (arith, owns-le m id cs))
    | inr n ↦ rw (on, n) (omega (arith, owns-le m id cs))
  ]
]

module _ (hash : ℕ → ℕ) where
  -- Where the shards map an id, after a change at `id`.
  pub entry_of-put :
      (l : LockId) (id : ℕ) (v : Option ℕ) (j : ℕ)
      → entry_of hash (put_entry hash l id v) j ≡ (if j == id then v else entry_of hash l j)
  entry_of-put l id v j = elim (Bool-cases (j == id)) [
    | inl on ↦
        let key : j ≡ id = ground arith in
        let shard : (shard_index hash l.num_shards j == shard_index hash l.num_shards id) ≡ true =
          let e = ap (λ k. shard_index hash l.num_shards k) key in ground arith in
        rw (shard, on) refl
    | inr off ↦
        elim (Bool-cases (shard_index hash l.num_shards j == shard_index hash l.num_shards id)) [
          | inl shard ↦
              let e : shard_index hash l.num_shards j ≡ shard_index hash l.num_shards id =
                ground arith in
              rw (shard, off) (ap (λ i. l.shards i j) (sym e))
          | inr apart ↦ rw (apart, off) refl
        ]
  ]

  -- The claims of one id change, and its entry with them.
  pub count-Inv :
      (l l' : LockId) (cs ds : List Claim) (id a : ℕ)
      → Inv hash l cs
      → entry_of hash l id ≡ some a
      → ((j : ℕ) → entry_of hash l' j ≡ entry_of hash l j)
      → ((b : ℕ) → ¬ (b ≡ a) → l'.heap b ≡ l.heap b)
      → Matches (l'.heap a) ds id
      → ((j : ℕ) (e : LockEntry) → ¬ (id ≡ j) → Matches e cs j → Matches e ds j)
      → ((j : ℕ) → ¬ (id ≡ j) → tally (is_on j) cs ≡ tally (is_on j) ds)
      → All (λ c. entry_of hash l c.id ≡ some c.address) ds
      → Inv hash l' ds
  count-Inv l l' cs ds id a v at same rest m others counts points = record {
    found = λ j b e.
        let e' = sym (same j) ∙ e in
        elim (Bool-cases (id == j)) [
          | inl on ↦
              let key : id ≡ j = ground arith in
              let place : a ≡ b = some-injective a b (sym at ∙ ap (entry_of hash l) key ∙ e') in
              subst (λ b. Matches (l'.heap b) ds j) place
                (subst (λ j. Matches (l'.heap a) ds j) key m)
          | inr off ↦
              let other : ¬ (id ≡ j) = λ k. ground arith in
              let away : ¬ (b ≡ a) =
                λ k. other (v.apart id j b (at ∙ ap (λ b. some b) (sym k)) e') in
              subst (λ e. Matches e ds j) (sym (rest b away))
                (others j (l.heap b) other (v.found j b e'))
        ];
    absent = λ j e.
        let e' = sym (same j) ∙ e in
        let other : ¬ (id ≡ j) = λ k. absurd (let f = ap (entry_of hash l) k in cc) in
        sym (counts j other) ∙ v.absent j e';
    apart = λ i j b e f. v.apart i j b (sym (same i) ∙ e) (sym (same j) ∙ f);
    points = All-map (λ (c : Claim) q. same c.id ∙ q) ds points;
  }

  abbrev pub waits : ℕ → ℕ → Mode → Claim
  waits id a mode = record { id = id; address = a; mode = mode; phase = waiting }

  -- A thread comes to an id without an entry: a new one.
  first-Inv :
      (l : LockId) (cs : List Claim) (id fresh : ℕ) (mode : Mode)
      → Inv hash l cs
      → ((j : ℕ) → ¬ (entry_of hash l j ≡ some fresh))
      → entry_of hash l id ≡ none
      → Inv hash
          (set_heap hash
            (put_entry hash l id (some fresh))
            fresh
            (record fresh_entry { ref_count = 1 }))
          (waits id fresh mode ∷ cs)
  first-Inv l cs id fresh mode v new nothing =
      let none_before = v.absent id nothing in
      let on : (id == id) ≡ true = ground arith in
      let here : (fresh == fresh) ≡ true = ground arith in
      let l1 = put_entry hash l id (some fresh) in
      let elsewhere : (j : ℕ) → ¬ (j ≡ id) → entry_of hash l1 j ≡ entry_of hash l j = λ j other.
        let off : (j == id) ≡ false = ground arith in
        entry_of-put l id (some fresh) j ∙ rw off refl in
      let there : entry_of hash l1 id ≡ some fresh =
        entry_of-put l id (some fresh) id ∙ rw on refl in
      let w = waits id fresh mode in
      let (n, own) = own-claim [] cs w in
      let made : Matches (record fresh_entry { ref_count = 1 }) (w ∷ cs) id = record {
        refs = omega (arith, n, none_before);
        used = omega (arith, n);
        small = omega (arith, n, none_before);
        writers = omega (arith, own exclusive, owns-le exclusive id cs, none_before);
        readers = omega (arith, own shared, owns-le shared id cs, none_before);
        alone = inl refl;
      } in
      let first_there : (j b : ℕ)
          → entry_of hash l1 j ≡ some b
          → ((j ≡ id) × (b ≡ fresh)) ⊎ ((¬ (j ≡ id)) × (entry_of hash l j ≡ some b)) =
        λ j b e. elim (Bool-cases (j == id)) [
          | inl k ↦
              let key : j ≡ id = ground arith in
              inl (key, some-injective b fresh (sym e ∙ ap (entry_of hash l1) key ∙ there))
          | inr k ↦
              let other : ¬ (j ≡ id) = λ q. ground arith in inr (other, sym (elsewhere j other) ∙ e)
        ] in
      record {
        found = λ j b e. elim (first_there j b e) [
          | inl (key, place) ↦
              subst
                (λ b.
                  Matches (update l.heap fresh (record fresh_entry { ref_count = 1 }) b) (w ∷ cs) j)
                (sym place)
                (subst
                  (λ j.
                    Matches (update l.heap fresh (record fresh_entry { ref_count = 1 }) fresh)
                      (w ∷ cs) j)
                  (sym key) (rw here made))
          | inr (other, e') ↦
              let away : (b == fresh) ≡ false = elim (Bool-cases (b == fresh)) [
                | inl y ↦ absurd (new j (e' ∙ ap (λ b. some b) (ground arith)))
                | inr n ↦ n
              ] in
              rw away (Matches-with [] cs w j (l.heap b) (λ q. other (sym q)) (v.found j b e'))
        ];
        absent = λ j e. elim (Bool-cases (j == id)) [
          | inl k ↦
              let key : id ≡ j = ground arith in
              absurd (let f = sym there ∙ ap (entry_of hash l1) key ∙ e in cc)
          | inr k ↦
              let other : ¬ (j ≡ id) = λ q. ground arith in
              (other-claim [] cs w j (λ q. other (sym q))).0
              ∙ v.absent j (sym (elsewhere j other) ∙ e)
        ];
        apart = λ i j b e f. elim (first_there i b e) [
          | inl (key, place) ↦ elim (first_there j b f) [
            | inl (key', place') ↦ key ∙ sym key'
            | inr (other', f') ↦ absurd (new j (f' ∙ ap (λ b. some b) place))
          ]
          | inr (other, e') ↦ elim (first_there j b f) [
            | inl (key', place') ↦ absurd (new i (e' ∙ ap (λ b. some b) place'))
            | inr (other', f') ↦ v.apart i j b e' f'
          ]
        ];
        points = (
          there,
          All-map
              (λ (c : Claim) q.
                elsewhere c.id
                  (λ k. let f = sym q ∙ ap (entry_of hash l) k ∙ nothing in absurd (cc))
                ∙ q)
              cs v.points,
        );
      }

  pub acquire-Inv :
      (l : LockId) (cs : List Claim) (id fresh : ℕ) (mode : Mode)
      → Inv hash l cs
      → length cs + 1 < 2 ^ 64
      → ((j : ℕ) → ¬ (entry_of hash l j ≡ some fresh))
      → Inv hash
          (acquire_entry hash l id fresh).0
          (waits id (acquire_entry hash l id fresh).1 mode ∷ cs)
  unfolding acquire_entry
  acquire-Inv l cs id fresh mode v few new = elim (Option-cases (entry_of hash l id)) [
    | inl nothing ↦ rw (acquire_entry, nothing) (first-Inv l cs id fresh mode v new nothing)
    | inr (a, at) ↦
        let m = v.found id a at in
        let w = waits id a mode in
        let (n, own) = own-claim [] cs w in
        let here : (a == a) ≡ true = ground arith in
        rw (acquire_entry, at)
          (count-Inv l _ cs (w ∷ cs) id a v at (λ j. refl)
            (λ b k. let away : (b == a) ≡ false = ground arith in rw away refl)
            (rw here (record {
              refs = omega (arith, m.refs, n, few, tally-le (is_on id) cs);
              used = omega (arith, n);
              small = omega (arith, n, few, tally-le (is_on id) cs);
              writers = m.writers ∙ sym (own exclusive ∙ omega arith);
              readers = m.readers ∙ sym (own shared ∙ omega arith);
              alone = m.alone;
            }))
            (λ j e other. Matches-with [] cs w j e other)
            (λ j other. sym (other-claim [] cs w j other).0) (at, v.points))
  ]
