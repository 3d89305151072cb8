-- ===== src/Qos/Queues/Expiry.antt =====
-- What TryDequeue does with expired items.
use yacul.Common.{
  length, ap, ◌==◌, Bool-cases, ◌≤◌, sym, ◌<◌, subst, ◌∙◌, refl, zero, inr, inl, Option-cases, suc,
  ◌≢◌, arith, true, ◌-◌, none, ◌≡◌, ℕ,
}
use yacul.Qos.Queues.{PriorityQueue, State, Fifo}
use yacul.Qos.Buckets.{Doubles}
use yacul.Qos.Queues.Dequeue.{try_levels, dequeue_internal, leaves, discard, is_expired, try_level}
use yacul.Qos.Queues.Sizes.{length-Inserted, size_at}
use yacul.Qos.Queues.Order.{All-Inserted, Expiring}
use yacul.Qos.Items.{num_priority_levels}

module _ (d : Doubles) (f : Fifo) (now : ℕ → ℕ → ℕ × ℕ) where
  abbrev AllExpired : State d f → ℕ → Type 0
  AllExpired s p = Expiring s.config true (f.contents (s.queues p).queue)

  -- Level `p` has lost `n` items, or all, and nothing else has changed there.
  record IsSwept (s t : State d f) (p n : ℕ) : Type 0 where
    size : size_at f t.queues p ≡ size_at f s.queues p - n
    others : (a : ℕ) → a ≢ p → t.queues a ≡ s.queues a
    config : t.config ≡ s.config

  -- One item more has left before.
  IsSwept-step :
      (s s' t : State d f) (p n : ℕ)
      → size_at f s.queues p ≡ suc (size_at f s'.queues p)
      → ((a : ℕ) → a ≢ p → s'.queues a ≡ s.queues a)
      → s'.config ≡ s.config
      → IsSwept s' t p n
      → IsSwept s t p (suc n)
  IsSwept-step s s' t p n one same kept h = record {
    size = omega (arith, h.size);
    others = λ a ne. h.others a ne ∙ same a ne;
    config = h.config ∙ kept;
  }

  try_level-IsSwept :
      (n : ℕ) (s : State d f) (p : ℕ)
      → AllExpired s p
      → let (t, o) = try_level d f (now p) n s p in (o ≡ none) × IsSwept s t p n
  unfolding try_level
  try_level-IsSwept zero s p late =
      (refl, record { size = omega arith; others = λ a ne. refl; config = refl })
  try_level-IsSwept (suc n) s p late = elim (Option-cases (f.try_dequeue (s.queues p).queue)) [
    | inl empty ↦
        rw (empty, try_level)
          (
            refl,
            record {
              size = rw (f.drained (s.queues p).queue empty) (omega arith);
              others = λ a ne. refl;
              config = refl;
            },
          )
    | inr ((i, q), e) ↦
        let put = f.dequeued (s.queues p).queue i q e in
        let (bad, rest) =
          All-Inserted (λ i. (r : ℕ × ℕ) → is_expired s.config r i ≡ true) i _ _ put late in
        let s' = discard d f (leaves d f s p q) p i in
        let there : (s'.queues p).queue ≡ q = ground arith in
        let (gone, swept) =
          try_level-IsSwept n s' p
            (subst (λ r. Expiring s.config true (f.contents r)) (sym there) rest) in
        let one = length-Inserted i (f.contents q) (f.contents (s.queues p).queue) put in
        let shorter : size_at f s.queues p ≡ suc (size_at f s'.queues p) = rw there one in
        let t = (try_level d f (now p) n s' p).0 in
        rw (e, try_level, bad (now p n))
          (gone, IsSwept-step s s' t p n shorter (λ a ne. ground arith) refl swept)
  ]

  -- A queue and the settings decide what has expired.
  AllExpired-same :
      (s t : State d f) (p : ℕ)
      → t.queues p ≡ s.queues p
      → t.config ≡ s.config
      → AllExpired s p
      → AllExpired t p
  AllExpired-same s t p same kept h =
      subst (λ c. Expiring c true (f.contents (t.queues p).queue)) (sym kept)
        (subst (λ (q : PriorityQueue d.Num f.Queue). Expiring s.config true (f.contents q.queue))
          (sym same) h)

  -- The levels below `n` have lost their quota, and the others nothing.
  abbrev AreSwept : State d f → State d f → ℕ → Type 0
  AreSwept s t n =
      ((p : ℕ) → p < n → size_at f t.queues p ≡ size_at f s.queues p - (s.queues p).wrr_quota)
      × ((p : ℕ) → n ≤ p → t.queues p ≡ s.queues p)

  AreSwept-step :
      (s r t : State d f) (p : ℕ)
      → IsSwept s r p (s.queues p).wrr_quota
      → AreSwept r t p
      → AreSwept s t (suc p)
  AreSwept-step s r t p one (sizes, kept) = (
    λ a lt. elim (Bool-cases (a == p)) [
      | inl here ↦
          let e : a ≡ p = ground arith in
          subst (λ b. size_at f t.queues b ≡ size_at f s.queues b - (s.queues b).wrr_quota) (sym e)
            (ap (λ (q : PriorityQueue d.Num f.Queue). length (f.contents q.queue))
                (kept p (omega arith))
              ∙ one.size)
      | inr below ↦
          subst
            (λ (q : PriorityQueue d.Num f.Queue).
              size_at f t.queues a ≡ length (f.contents q.queue) - q.wrr_quota)
            (one.others a (λ e. ground arith)) (sizes a (ground arith))
    ],
    λ a l. kept a (omega arith) ∙ one.others a (λ e. omega arith),
  )

  try_levels-AreSwept :
      (n : ℕ) (s : State d f)
      → ((p : ℕ) → p < n → AllExpired s p)
      → let (t, o) = try_levels d f now n s in (o ≡ none) × AreSwept s t n
  unfolding try_levels
  try_levels-AreSwept zero s late = (refl, ((λ p lt. absurd (omega arith)), λ p l. refl))
  try_levels-AreSwept (suc p) s late =
      let (gone, swept) = try_level-IsSwept (s.queues p).wrr_quota s p (late p (omega arith)) in
      let r = (try_level d f (now p) (s.queues p).wrr_quota s p).0 in
      let (none_left, below) = try_levels-AreSwept p r (λ a lt.
        AllExpired-same s r a (swept.others a (λ e. omega arith)) swept.config
          (late a (omega arith))) in
      rw (gone, try_levels) (none_left, AreSwept-step s r (try_levels d f now p r).0 p swept below)

  -- Where every queued item has expired at every reading of the clock, TryDequeue returns nothing, and
  -- takes from each level as many items as its quota, or all if there are fewer: the rest stays queued.
  pub dequeue_internal_all_expired :
      (s : State d f)
      → ((p : ℕ) → Expiring s.config true (f.contents (s.queues p).queue))
      → let (t, o) = dequeue_internal d f now s in
        (o ≡ none)
        × ((p : ℕ)
            → p < num_priority_levels
            → size_at f t.queues p ≡ size_at f s.queues p - (s.queues p).wrr_quota)
  unfolding dequeue_internal
  dequeue_internal_all_expired s late =
      let (gone, left) = try_levels-AreSwept num_priority_levels s (λ p lt. late p) in
      (gone, left.0)
