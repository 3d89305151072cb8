-- ===== src/Qos/Queues/Sizes.antt =====
-- The depth counters against the items that the queues hold.
use yacul.Common.{
  sub64, some, add64, inr, ap, inl, ◌∷◌, refl, ◌==◌, ◌∙◌, zero, Bool-cases, update, length-append,
  ◌^◌, ◌≢◌, ◌%◌, arith, ◌+◌, List, ◌<◌, ◌≡◌, suc, length, ℕ,
}
use yacul.Qos.Queues.{taken, stored, set_limiter, State, Item, Fifo, Inserted, PriorityQueue}
use yacul.Qos.Buckets.{TokenBucket, Doubles}
use yacul.Qos.Items.{num_priority_levels, Item}

-- The sum over the levels below `n`.
abbrev pub sum : (ℕ → ℕ) → ℕ → ℕ
sum g zero = 0
sum g (suc n) = sum g n + g n

pub sum_same : (g g' : ℕ → ℕ) (n : ℕ) → ((a : ℕ) → a < n → g' a ≡ g a) → sum g' n ≡ sum g n
sum_same g g' zero h = refl
sum_same g g' (suc n) h =
    omega (arith, sum_same g g' n (λ a lt. h a (omega arith)), h n (omega arith))

pub sum_change :
    (g g' : ℕ → ℕ) (p n : ℕ)
    → p < n
    → ((a : ℕ) → a ≢ p → g' a ≡ g a)
    → sum g' n + g p ≡ sum g n + g' p
sum_change g g' p zero lt h = absurd (omega arith)
sum_change g g' p (suc n) lt h = elim (Bool-cases (p == n)) [
  | inl same ↦
      let e : p ≡ n = ground arith in
      let rest = sum_same g g' n (λ a l. h a (λ q. omega arith)) in rw e (omega arith)
  | inr other ↦
      let rest = sum_change g g' p n (ground arith) h in
      let at_n = h n (λ q. ground arith) in omega arith
]

pub length-Inserted :
    (i : Item) (ws zs : List Item) → Inserted i ws zs → length zs ≡ suc (length ws)
length-Inserted i ws zs (xs, ys, e, e') =
    rw (e, e') (omega (arith, length-append xs ys, length-append xs (i ∷ ys)))

module _ {Num : Type 0} (f : Fifo) where
  abbrev pub size_at : (ℕ → PriorityQueue Num f.Queue) → ℕ → ℕ
  size_at qs p = length (f.contents (qs p).queue)

  -- Each depth is the number of items in the queue of its level, and the total depth the number of all
  -- items, modulo 2 ^ 64.
  pub record IsCounted (qs : ℕ → PriorityQueue Num f.Queue) (total : ℕ) : Type 0 where
    pub depth_at : (p : ℕ) → (qs p).depth ≡ size_at qs p % 2 ^ 64
    pub total_at : total ≡ sum (size_at qs) num_priority_levels % 2 ^ 64

  -- One level changes its size from m to n, and both depths follow.
  module _ (qs : ℕ → PriorityQueue Num f.Queue) (total p : ℕ) (q : PriorityQueue Num f.Queue)
      (low : p < num_priority_levels) (h : IsCounted qs total) where
    sum-update :
        sum (size_at (update qs p q)) num_priority_levels + size_at qs p
        ≡ sum (size_at qs) num_priority_levels + length (f.contents q.queue)
    sum-update =
        let same : size_at (update qs p q) p ≡ length (f.contents q.queue) = ground arith in
        sum_change (size_at qs) (size_at (update qs p q)) p num_priority_levels low
          (λ a ne. ground arith)
        ∙ ap (λ n. sum (size_at qs) num_priority_levels + n) same

    -- The new counters are right if they are the sizes after the change.
    pub update-IsCounted :
        (total' : ℕ)
        → q.depth ≡ length (f.contents q.queue) % 2 ^ 64
        → ((s' : ℕ)
            → s' + size_at qs p ≡ sum (size_at qs) num_priority_levels + length (f.contents q.queue)
            → total' ≡ s' % 2 ^ 64)
        → IsCounted (update qs p q) total'
    update-IsCounted total' here follows = record {
      depth_at = λ a. elim (Bool-cases (a == p)) [
        | inl same ↦ rw same here
        | inr other ↦ rw other (h.depth_at a)
      ];
      total_at = follows (sum (size_at (update qs p q)) num_priority_levels) sum-update;
    }

counts_up : (t s m n s' : ℕ) → t ≡ s % 2 ^ 64 → n ≡ suc m → s' + m ≡ s + n → add64 t 1 ≡ s' % 2 ^ 64
counts_up t s m n s' h e k = omega arith

counts_down :
    (t s m n s' : ℕ) → t ≡ s % 2 ^ 64 → m ≡ suc n → s' + m ≡ s + n → sub64 t 1 ≡ s' % 2 ^ 64
counts_down t s m n s' h e k = omega arith

counts_on : (t s m n s' : ℕ) → t ≡ s % 2 ^ 64 → m ≡ n → s' + m ≡ s + n → t ≡ s' % 2 ^ 64
counts_on t s m n s' h e k = omega arith

module _ (d : Doubles) (f : Fifo) (s : State d f) (p : ℕ) (low : p < num_priority_levels)
    (h : IsCounted f s.queues s.total_depth) where
  pub stored-IsCounted :
      (i : Item) (r : f.Queue)
      → f.enqueue (s.queues p).queue i ≡ some r
      → let s' = stored d f s p r in IsCounted f s'.queues s'.total_depth
  unfolding stored
  stored-IsCounted i r e =
      let longer = length-Inserted i _ _ (f.enqueued (s.queues p).queue i r e) in
      update-IsCounted f s.queues s.total_depth p _ low h _
        (counts_up _ _ _ _ _ (h.depth_at p) longer (omega arith))
        (λ n k. counts_up _ _ _ _ n h.total_at longer k)

  pub taken-IsCounted :
      (i : Item) (r : f.Queue)
      → f.try_dequeue (s.queues p).queue ≡ some (i, r)
      → let s' = taken d f s p r in IsCounted f s'.queues s'.total_depth
  unfolding taken
  taken-IsCounted i r e =
      let shorter = length-Inserted i _ _ (f.dequeued (s.queues p).queue i r e) in
      update-IsCounted f s.queues s.total_depth p _ low h _
        (counts_down _ _ _ _ _ (h.depth_at p) shorter (omega arith))
        (λ n k. counts_down _ _ _ _ n h.total_at shorter k)

  pub set_limiter-IsCounted :
      (b : TokenBucket (d.Num))
      → let s' = set_limiter d f s p b in IsCounted f s'.queues s'.total_depth
  unfolding set_limiter
  set_limiter-IsCounted b =
      update-IsCounted f s.queues s.total_depth p _ low h _ (h.depth_at p)
        (λ n k. counts_on _ _ _ _ n h.total_at refl k)
