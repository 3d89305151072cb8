-- ===== src/Qos/Queues/Dequeue.antt =====
-- The way out of the queue: TryDequeue, TryDequeueBulk and the test for expired items.
use yacul.Common.{
  add64, ◌/◌, ◌-◌, leb, if◌then◌else◌, zero, ltb, ◌∷◌, some, ◌&&◌, ◌||◌, suc, none, Bool, [], List,
  Option, ℕ,
}
use yacul.Qos.Queues.{on_dequeued, on_expired, Item, count, notify, State, QosConfig, taken, Fifo}
use yacul.Qos.Buckets.{Doubles}
use yacul.Qos.Items.{num_priority_levels, Item}

-- `IsExpired` at two readings of the clock; the age is cut to milliseconds.
unfoldable pub is_expired : {Num : Type 0} → QosConfig Num → ℕ × ℕ → Item → Bool
is_expired c now i =
    i.own_expired
    || i.metadata.has_deadline && ltb i.metadata.deadline now.0
    || ltb 0 c.item_ttl_ms && leb c.item_ttl_ms ((now.1 - i.metadata.enqueue_time) / 1000000)

module _ (d : Doubles) (f : Fifo) where
  open f use {try_dequeue}

  -- The item has left level `p`: the depths and the counter.
  unfoldable pub leaves : State d f → ℕ → f.Queue → State d f
  unfolding taken count
  leaves s p q = count d f (taken d f s p q) p (λ c. record c { dequeued = add64 c.dequeued 1 })

  -- It is discarded: NotifyExpired, then the counter.
  unfoldable pub discard : State d f → ℕ → Item → State d f
  unfolding notify count
  discard s p i =
      count d f (notify d f s (on_expired i.metadata)) p
        (λ c. record c { expired = add64 c.expired 1 })

  -- The loop over the quota of level `p`; the clock is read for each try.
  unfoldable pub try_level : (ℕ → ℕ × ℕ) → ℕ → State d f → ℕ → State d f × Option Item
  unfolding leaves discard notify is_expired
  try_level now zero s p = (s, none)
  try_level now (suc n) s p = elim (try_dequeue (s.queues p).queue) [
    | none ↦ (s, none)
    | some (i, q) ↦
        let s' = leaves s p q in
        let rest = try_level now n (discard s' p i) p in
        if is_expired s.config (now n) i
        then rest
        else (notify d f s' (on_dequeued i.metadata), some i)
  ]

  -- The loop over the levels below `n`, the highest first.
  unfoldable pub try_levels : (ℕ → ℕ → ℕ × ℕ) → ℕ → State d f → State d f × Option Item
  unfolding try_level
  try_levels now zero s = (s, none)
  try_levels now (suc p) s =
      let (s', o) = try_level (now p) (s.queues p).wrr_quota s p in
      elim o [ some i ↦ (s', some i) | none ↦ try_levels now p s' ]

  -- `DequeueInternal`, which is `TryDequeue`
  unfoldable pub dequeue_internal : (ℕ → ℕ → ℕ × ℕ) → State d f → State d f × Option Item
  unfolding try_levels
  dequeue_internal now s = try_levels now num_priority_levels s

  -- `TryDequeueBulk` of at most `n` items
  unfoldable pub try_dequeue_bulk : (ℕ → ℕ → ℕ → ℕ × ℕ) → ℕ → State d f → State d f × List Item
  unfolding dequeue_internal
  try_dequeue_bulk now zero s = (s, [])
  try_dequeue_bulk now (suc n) s =
      let (s', o) = dequeue_internal (now n) s in
      let (s'', is) = try_dequeue_bulk now n s' in
      elim o [ none ↦ (s', []) | some i ↦ (s'', i ∷ is) ]
