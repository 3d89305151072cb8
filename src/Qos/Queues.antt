-- ===== src/Qos/Queues.antt =====
-- The queue of yacul/qos/qos.h and yacul/qos/qos.cc: its state, the admission of items and their way
-- out. Each call is one step; a time that the code reads from the clock is an argument. The queue of a
-- level is the vendored concurrent queue, of which the model knows the record Fifo.
pub mod Dequeue
pub mod Consumers
pub mod Sizes
pub mod Calls
pub mod Counts
pub mod Order
pub mod Setup
pub mod Expiry
use yacul.Common.{
  sub64, add64, leb, ◌%◌, true, ◌&&◌, [], ◌∷◌, ◌-◌, ltb, ◌≡◌, ◌^◌, Bool, false, map, some, Option,
  ◌+◌, List, update, ◌++◌, none, if◌then◌else◌, ℕ, arith,
}
use yacul.Qos.Items.{PriorityStats, Metadata, Item}
use yacul.Qos.Buckets.{try_consume, Doubles, TokenBucket}

-- `zs` is `ws` with the item at some place.
abbrev pub Inserted : Item → List Item → List Item → Type 0
Inserted i ws zs = (xs : List Item) × (ys : List Item) × (ws ≡ xs ++ ys) × (zs ≡ xs ++ i ∷ ys)

-- moodycamel::ConcurrentQueue with one call at a time: enqueue fails (`none`) only where memory is short,
-- and try_dequeue fails only on the empty queue. The order is left open.
pub record Fifo : Type 1 where
  pub Queue : Type 0
  pub enqueue : Queue → Item → Option Queue
  pub try_dequeue : Queue → Option (Item × Queue)
  pub contents : Queue → List Item
  pub enqueued :
      (q : Queue) (i : Item) (r : Queue)
      → enqueue q i ≡ some r
      → Inserted i (contents q) (contents r)
  pub dequeued :
      (q : Queue) (i : Item) (r : Queue)
      → try_dequeue q ≡ some (i, r)
      → Inserted i (contents r) (contents q)
  pub drained : (q : Queue) → try_dequeue q ≡ none → contents q ≡ []

pub data OverflowPolicy : Type 0 where
  drop drop_oldest block : OverflowPolicy

pub record QosConfig (Num : Type 0) : Type 0 where
  pub max_queue_depth : ℕ
  pub max_total_depth : ℕ
  pub rate_limit_per_priority : ℕ → Num
  pub burst_multiplier : Num
  pub global_rate_limit : Num
  pub global_burst_multiplier : Num
  pub wrr_quanta : ℕ → ℕ
  pub num_consumer_threads : ℕ
  pub item_ttl_ms : ℕ
  pub overflow_policy : OverflowPolicy
  pub backpressure_threshold : Num

pub record PriorityQueue (Num Queue : Type 0) : Type 0 where
  pub queue : Queue
  pub rate_limiter : Option (TokenBucket Num)
  pub depth : ℕ
  pub wrr_quota : ℕ

-- The calls of an observer.
pub data Notice : Type 0 where
  on_enqueued on_dequeued on_dropped on_expired : Metadata → Notice
  on_executed : Metadata → ℕ → Notice

-- `consumers` counts the consumer threads, and `notices` lists what the observers were told.
pub record Qos (Num Queue : Type 0) : Type 0 where
  pub config : QosConfig Num
  pub queues : ℕ → PriorityQueue Num Queue
  pub global_rate_limiter : Option (TokenBucket Num)
  pub next_id : ℕ
  pub total_depth : ℕ
  pub running : Bool
  pub paused : Bool
  pub stop_requested : Bool
  pub consumers : ℕ
  pub observers : List ℕ
  pub notices : List (ℕ × Notice)
  pub stats : ℕ → PriorityStats

module _ (d : Doubles) (f : Fifo) where
  open d use {Num, nil, lt, times, of_int}
  open f use {Queue, enqueue, try_dequeue}

  abbrev pub State : Type 0
  State = Qos Num Queue

  -- `NotifyEnqueued` and the like, for the observers registered now.
  unfoldable pub notify : State → Notice → State
  notify s c = record s { notices = s.notices ++ map (λ o. (o, c)) s.observers }

  unfoldable pub count : State → ℕ → (PriorityStats → PriorityStats) → State
  count s p g = record s { stats = update s.stats p (g (s.stats p)) }

  -- NotifyDropped, then the counter.
  unfoldable pub dropped : State → ℕ → Metadata → State
  unfolding notify count
  dropped s p m = count (notify s (on_dropped m)) p (λ c. record c { dropped = add64 c.dropped 1 })

  -- An item has left the queue of a level: both depths.
  unfoldable pub taken : State → ℕ → Queue → State
  taken s p q = record s {
    queues =
        update s.queues p (record (s.queues p) { queue = q; depth = sub64 (s.queues p).depth 1 });
    total_depth = sub64 s.total_depth 1;
  }

  -- An item has come to the queue of a level.
  unfoldable pub stored : State → ℕ → Queue → State
  stored s p q = record s {
    queues =
        update s.queues p (record (s.queues p) { queue = q; depth = add64 (s.queues p).depth 1 });
    total_depth = add64 s.total_depth 1;
  }

  -- How far an item gets: on to the next test, not into the queue, or the caller waits.
  pub data Admission : Type 0 where
    admitted refused : State → Admission
    held_back : Admission

  abbrev pub and_then : Admission → (State → Admission) → Admission
  and_then (admitted s) k = k s
  and_then (refused s) k = refused s
  and_then held_back k = held_back

  -- A full level, by the overflow policy.
  unfoldable pub admit_full : State → ℕ → Item → OverflowPolicy → Admission
  unfolding dropped taken
  admit_full s p i drop = refused (dropped s p i.metadata)
  admit_full s p i drop_oldest = elim (try_dequeue (s.queues p).queue) [
    | none ↦ admitted s
    | some (e, q) ↦ admitted (dropped (taken s p q) p e.metadata)
  ]
  admit_full s p i block = if s.stop_requested then admitted s else held_back

  unfoldable pub admit_depth : State → ℕ → Item → Admission
  unfolding admit_full
  admit_depth s p i =
      if ltb 0 s.config.max_queue_depth && leb s.config.max_queue_depth (s.queues p).depth
      then admit_full s p i s.config.overflow_policy
      else admitted s

  unfoldable pub admit_total : State → ℕ → Item → Admission
  unfolding dropped
  admit_total s p i =
      if ltb 0 s.config.max_total_depth && leb s.config.max_total_depth s.total_depth
      then refused (dropped s p i.metadata)
      else admitted s

  unfoldable pub admit_global : ℕ → State → ℕ → Item → Admission
  unfolding dropped
  admit_global now s p i = elim s.global_rate_limiter [
    | none ↦ admitted s
    | some b ↦
        let (b', pass) = try_consume d now b (of_int i.cost) in
        let s' = record s { global_rate_limiter = some b' } in
        if pass then admitted s' else refused (dropped s' p i.metadata)
  ]

  unfoldable pub set_limiter : State → ℕ → TokenBucket Num → State
  set_limiter s p b = record s {
    queues = update s.queues p (record (s.queues p) { rate_limiter = some b });
  }

  unfoldable pub admit_rate : ℕ → State → ℕ → Item → Admission
  unfolding dropped set_limiter
  admit_rate now s p i = elim (s.queues p).rate_limiter [
    | none ↦ admitted s
    | some b ↦
        let (b', pass) = try_consume d now b (of_int i.cost) in
        let s' = set_limiter s p b' in
        if pass then admitted s' else refused (dropped s' p i.metadata)
  ]

  -- The metadata that a queued item carries; a deadline is written only where there is one.
  unfoldable pub stamp : ℕ → ℕ → Option ℕ → Item → Item
  stamp id now none i = record i {
    metadata = record i.metadata { id = id; enqueue_time = now; has_deadline = false };
  }
  stamp id now (some t) i = record i {
    metadata = record i.metadata { id = id; enqueue_time = now; has_deadline = true; deadline = t };
  }

  unfoldable pub insert : ℕ → Option ℕ → State → ℕ → Item → Admission
  unfolding dropped stored notify count stamp
  insert now deadline s p i =
      let j = stamp s.next_id now deadline i in
      let s' = record s { next_id = add64 s.next_id 1 } in
      elim (enqueue (s.queues p).queue j) [
        | none ↦ refused (dropped s' p j.metadata)
        | some q ↦ admitted (
            notify (count (stored s' p q) p (λ c. record c { enqueued = add64 c.enqueued 1 }))
              (on_enqueued j.metadata))
      ]

  -- `EnqueueInternal`, with the readings of the clock for the two limiters and the stamp. `admitted` is
  -- true, `refused` false. A caller that waits starts from the same state again.
  unfoldable pub enqueue_internal : ℕ × ℕ × ℕ → State → Item → ℕ → Option ℕ → Admission
  unfolding admit_depth admit_total admit_global admit_rate insert
  enqueue_internal now s i p deadline = and_then (admit_depth s p i) λ s1.
      and_then (admit_total s1 p i) λ s2.
        and_then (admit_global now.0 s2 p i)
          λ s3. and_then (admit_rate now.1 s3 p i) λ s4. insert now.2 deadline s4 p i

  -- The three `Enqueue`: at the item's own priority, at a given one, and with a deadline.
  unfoldable pub enqueue_item : ℕ × ℕ × ℕ → State → Item → Admission
  unfolding enqueue_internal
  enqueue_item now s i = enqueue_internal now s i i.metadata.priority none

  unfoldable pub enqueue_at : ℕ × ℕ × ℕ → State → Item → ℕ → Option ℕ → Admission
  unfolding enqueue_internal
  enqueue_at now s i p deadline =
      enqueue_internal now s (record i { metadata = record i.metadata { priority = p } }) p deadline
