-- ===== src/Qos/Tests.antt =====
-- The theorems on the token bucket and the queue, with numbers for doubles and a list for the queue.
use mathlib.Core.List.{append-nil}
use yacul.Common.{
  All, ◌/◌, ap, sym, ◌*◌, ◌==◌, [], ◌∷◌, ◌-◌, refl, if◌then◌else◌, ◌++◌, arith, ◌+◌, none, ◌≡◌,
  true, false, Option, leb, some, Bool, List, ltb, ℕ,
}
use yacul.Qos.Queues.{Inserted, drop, State, Fifo}
use yacul.Qos.Buckets.{
  bucket_calls-IsBounded, reads, refills, consumes_tokens, bucket_calls, IsBounded, Doubles,
}
use yacul.Qos.Items.{no_stats, Item}
use yacul.Qos.Queues.Calls.{drains, dequeues_bulk, stops, enqueues, Call, calls}
use yacul.Qos.Queues.Order.{dequeue_internal-Highest, Expiring, Highest}
use yacul.Qos.Queues.Sizes.{IsCounted}
use yacul.Qos.Queues.Dequeue.{is_expired, dequeue_internal}
use yacul.Qos.Queues.Counts.{calls-IsCounted}

ltb_irrefl : (a : ℕ) → ltb a a ≡ false
ltb_irrefl a = ground arith

ltb-minus : (c t x : ℕ) → ltb c t ≡ false → leb x 0 ≡ false → ltb c (t - x) ≡ false
ltb-minus c t x h k = ground arith

abbrev whole_numbers : Doubles
whole_numbers = record {
  Num = ℕ;
  nil = 0;
  lt = ltb;
  le = leb;
  plus = λ a b. a + b;
  minus = λ a b. a - b;
  times = λ a b. a * b;
  over = λ a b. a / b;
  of_int = λ a. a;
  seconds = λ a b. b - a;
  lt_irrefl = ltb_irrefl;
  minus_below = ltb-minus;
}

abbrev head_of : List Item → Option (Item × List Item)
head_of [] = none
head_of (x ∷ xs) = some (x, xs)

head_of-Inserted :
    (q : List Item) (i : Item) (r : List Item) → head_of q ≡ some (i, r) → Inserted i r q
head_of-Inserted [] i r e = cc
head_of-Inserted (x ∷ xs) i r e = ([], r, refl, ap rejoin e)
  where
    rejoin : Option (Item × List Item) → List Item
    rejoin none = []
    rejoin (some (y, ys)) = y ∷ ys

head_of-none : (q : List Item) → head_of q ≡ none → q ≡ []
head_of-none [] e = refl
head_of-none (x ∷ xs) e = cc

stored_last :
    (q : List Item) (i : Item) (r : List Item) → some (q ++ i ∷ []) ≡ some r → Inserted i q r
stored_last q i r e = (q, [], sym (append-nil q), cc)

abbrev list_queue : Fifo
list_queue = record {
  Queue = List Item;
  enqueue = λ q i. some (q ++ i ∷ []);
  try_dequeue = head_of;
  contents = λ q. q;
  enqueued = λ q i r e. stored_last q i r e;
  dequeued = head_of-Inserted;
  drained = head_of-none;
}

abbrev item : Bool → Item
item late = record {
  metadata = record {
    id = 1;
    priority = 3;
    enqueue_time = 0;
    deadline = 0;
    weight = 1;
    has_deadline = false;
  };
  cost = 1;
  own_expired = late;
}

-- Level 3 holds three such items; every level has a quota of 2.
abbrev three_items : Bool → State whole_numbers list_queue
three_items late = record {
  config = record {
    max_queue_depth = 8;
    max_total_depth = 0;
    rate_limit_per_priority = λ p. 0;
    burst_multiplier = 2;
    global_rate_limit = 0;
    global_burst_multiplier = 2;
    wrr_quanta = λ p. 2;
    num_consumer_threads = 1;
    item_ttl_ms = 0;
    overflow_policy = drop;
    backpressure_threshold = 1;
  };
  queues = λ p. record {
    queue = if p == 3 then item late ∷ item late ∷ item late ∷ [] else [];
    rate_limiter = none;
    depth = if p == 3 then 3 else 0;
    wrr_quota = 2;
  };
  global_rate_limiter = none;
  next_id = 4;
  total_depth = 3;
  running = false;
  paused = false;
  stop_requested = false;
  consumers = 0;
  observers = [];
  notices = [];
  stats = λ p. no_stats;
}

abbrev noon : ℕ → ℕ → ℕ × ℕ
noon p n = (0, 0)

IsCounted-three : IsCounted list_queue (three_items false).queues (three_items false).total_depth
IsCounted-three = record { depth_at = λ p. ground arith; total_at = refl }

-- An item comes, the consumers stop, and two items are taken.
abbrev some_calls : List Call
some_calls =
    enqueues (0, 0, 0) (item false) 5 (some 9)
    ∷ stops
    ∷ dequeues_bulk (λ i. noon) 2
    ∷ drains (λ i. noon) (λ i. 1) 4
    ∷ []

calls-IsCounted_example :
    let t = calls whole_numbers list_queue (three_items false) some_calls in
    IsCounted list_queue t.queues t.total_depth
calls-IsCounted_example =
    calls-IsCounted whole_numbers list_queue (three_items false) some_calls
      (omega arith, (tt, (tt, (tt, tt)))) IsCounted-three

All-if : (P : Item → Type 0) (b : Bool) (xs : List Item) → All P xs → All P (if b then xs else [])
All-if P true xs h = h
All-if P false xs h = tt

-- The items say so themselves.
fresh : (p : ℕ) → Expiring (three_items false).config false ((three_items false).queues p).queue
unfolding is_expired
fresh p = All-if _ (p == 3) _ ((λ r. refl), ((λ r. refl), ((λ r. refl), tt)))

late : (p : ℕ) → Expiring (three_items true).config true ((three_items true).queues p).queue
unfolding is_expired
late p = All-if _ (p == 3) _ ((λ r. refl), ((λ r. refl), ((λ r. refl), tt)))

dequeue_internal-Highest_example :
    Highest whole_numbers list_queue noon
      (three_items false)
      6
      (dequeue_internal whole_numbers list_queue noon (three_items false))
dequeue_internal-Highest_example =
    dequeue_internal-Highest whole_numbers list_queue noon (three_items false) (λ p. omega arith)
      fresh

bucket_calls-IsBounded_example : IsBounded whole_numbers (
    bucket_calls whole_numbers
      (record { rate = 2; capacity = 5; tokens = 3; last_refill_ns = 0 })
      (consumes_tokens 4 2 ∷ refills 9 ∷ reads 8 ∷ []))
bucket_calls-IsBounded_example =
    bucket_calls-IsBounded whole_numbers
      (record { rate = 2; capacity = 5; tokens = 3; last_refill_ns = 0 })
      (consumes_tokens 4 2 ∷ refills 9 ∷ reads 8 ∷ []) refl
