-- ===== src/Qos/Queues/Order.antt =====
-- Which item TryDequeue returns, where no item has expired.
use yacul.Common.{
  ap, ◌==◌, Bool-cases, refl, inr, Option-cases, zero, sym, subst, some, suc, ◌∷◌, ◌⊎◌, arith, ◌++◌,
  [], inl, none, false, ◌≡◌, ◌<◌, ◌≤◌, Bool, Option, List, ℕ, All,
}
use yacul.Qos.Queues.{on_dequeued, notify, count, Inserted, taken, Item, QosConfig, State, Fifo}
use yacul.Qos.Buckets.{Doubles}
use yacul.Qos.Queues.Dequeue.{dequeue_internal, is_expired, leaves, try_level, try_levels}
use yacul.Qos.Items.{num_priority_levels, Item}

-- The items of the list are expired, or not, at every reading of the clock.
abbrev pub Expiring : {Num : Type 0} → QosConfig Num → Bool → List Item → Type 0
Expiring c b = All (λ i. (r : ℕ × ℕ) → is_expired c r i ≡ b)

pub All-Inserted :
    (P : Item → Type 0) (i : Item) (ws zs : List Item)
    → Inserted i ws zs
    → All P zs
    → P i × All P ws
All-Inserted P i ws zs (xs, ys, e, e') h =
    let (a, b) = split xs (subst (All P) e' h) in (a, subst (All P) (sym e) b)
  where
    split : (xs : List Item) → All P (xs ++ i ∷ ys) → P i × All P (xs ++ ys)
    split [] k = k
    split (x ∷ xs) k = let (a, b) = split xs k.1 in (a, (k.0, b))

module _ (d : Doubles) (f : Fifo) (now : ℕ → ℕ → ℕ × ℕ) where
  -- The levels from `lo` up to `hi` hold nothing.
  abbrev pub Empty : State d f → ℕ → ℕ → Type 0
  Empty s lo hi = (p : ℕ) → lo ≤ p → p < hi → f.contents (s.queues p).queue ≡ []

  -- What came out of the levels below `n`: nothing, all being empty, or an item of the highest level that
  -- held one.
  abbrev pub Highest : State d f → ℕ → State d f × Option Item → Type 0
  Highest s n r =
      (r.1 ≡ none) × Empty s 0 n
      ⊎ (i : Item) × (p : ℕ) × (r.1 ≡ some i)
        × (p < n)
        × Inserted i (f.contents (r.0.queues p).queue) (f.contents (s.queues p).queue)
        × Empty s (suc p) n

  -- One level, whose quota is not 0: it is empty and nothing changes, or an item comes out.
  try_level-one :
      (s : State d f) (p n : ℕ)
      → 0 < n
      → Expiring s.config false (f.contents (s.queues p).queue)
      → (f.contents (s.queues p).queue ≡ []) × (try_level d f (now p) n s p ≡ (s, none))
        ⊎ (t : State d f) × (i : Item) × (try_level d f (now p) n s p ≡ (t, some i))
          × Inserted i (f.contents (t.queues p).queue) (f.contents (s.queues p).queue)
  unfolding try_level leaves taken count notify
  try_level-one s p zero more fresh = absurd (omega arith)
  try_level-one s p (suc n) more fresh = elim (Option-cases (f.try_dequeue (s.queues p).queue)) [
    | inl empty ↦ inl (f.drained (s.queues p).queue empty, rw (empty, try_level) refl)
    | inr ((i, q), e) ↦
        let put = f.dequeued (s.queues p).queue i q e in
        let good =
          (All-Inserted (λ i. (r : ℕ × ℕ) → is_expired s.config r i ≡ false) i _ _ put fresh).0
            (now p n) in
        let there : f.contents ((leaves d f s p q).queues p).queue ≡ f.contents q = ground arith in
        inr (
          notify d f (leaves d f s p q) (on_dequeued i.metadata),
          i,
          rw (e, try_level, good) refl,
          subst (λ ws. Inserted i ws (f.contents (s.queues p).queue)) (sym there) put,
        )
  ]

  try_levels-Highest :
      (s : State d f) (n : ℕ)
      → ((p : ℕ) → 0 < (s.queues p).wrr_quota)
      → ((p : ℕ) → Expiring s.config false (f.contents (s.queues p).queue))
      → Highest s n (try_levels d f now n s)
  unfolding try_levels
  try_levels-Highest s zero quotas fresh = inl (refl, λ p l u. absurd (omega arith))
  try_levels-Highest s (suc p) quotas fresh =
      elim (try_level-one s p (s.queues p).wrr_quota (quotas p) (fresh p)) [
        | inl (empty, e) ↦
            let past : try_levels d f now (suc p) s ≡ try_levels d f now p s =
              rw (e, try_levels)
                (ap (λ (r : State d f × Option Item). try_levels d f now p r.0) e) in
            subst (Highest s (suc p)) (sym past)
              (below (try_levels d f now p s) (try_levels-Highest s p quotas fresh) empty)
        | inr (t, i, e, put) ↦
            let here : try_levels d f now (suc p) s ≡ (t, some i) =
              rw (e, try_levels) (ap (λ (r : State d f × Option Item). (r.0, some i)) e) in
            subst (Highest s (suc p)) (sym here)
              (inr (i, p, refl, omega arith, put, λ a l u. absurd (omega arith)))
      ]
    where
      below :
          (r : State d f × Option Item)
          → Highest s p r
          → f.contents (s.queues p).queue ≡ []
          → Highest s (suc p) r
      below r (inl (none_left, empty)) e = inl (
        none_left,
        λ a l u. elim (Bool-cases (a == p)) [
          | inl same ↦
              let k : a ≡ p = ground arith in
              subst (λ b. f.contents (s.queues b).queue ≡ []) (sym k) e
          | inr other ↦ empty a l (ground arith)
        ],
      )
      below r (inr (i, q, found, lt, put, empty)) e = inr (
        i,
        q,
        found,
        omega arith,
        put,
        λ a l u. elim (Bool-cases (a == p)) [
          | inl same ↦
              let k : a ≡ p = ground arith in
              subst (λ b. f.contents (s.queues b).queue ≡ []) (sym k) e
          | inr other ↦ empty a l (ground arith)
        ],
      )

  -- Where no quota is 0 and no queued item has expired at any reading of the clock, TryDequeue either
  -- returns nothing, and every level is empty, or it returns an item of the highest level that holds one,
  -- and has taken it out of that level. However large its quota is, no call passes over a level that holds
  -- an item.
  pub dequeue_internal-Highest :
      (s : State d f)
      → ((p : ℕ) → 0 < (s.queues p).wrr_quota)
      → ((p : ℕ) → Expiring s.config false (f.contents (s.queues p).queue))
      → Highest s num_priority_levels (dequeue_internal d f now s)
  unfolding dequeue_internal
  dequeue_internal-Highest s quotas fresh = try_levels-Highest s num_priority_levels quotas fresh
