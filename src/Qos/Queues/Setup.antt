-- ===== src/Qos/Queues/Setup.antt =====
-- The constructor of QOS, the back pressure, and what the counters are from the start on.
use yacul.Common.{
  length, ap, refl, ◌^◌, ◌%◌, zero, ◌||◌, ◌≡◌, [], none, some, suc, false, List, ◌==◌, ltb,
  if◌then◌else◌, Bool, Option, ℕ, All,
}
use yacul.Qos.Queues.{Admission, State, enqueue_internal, QosConfig, Fifo}
use yacul.Qos.Queues.Calls.{IsLeveled, Call, calls}
use yacul.Qos.Buckets.{TokenBucket, new_bucket, Doubles}
use yacul.Qos.Queues.Consumers.{size_approx, size_approx_at}
use yacul.Qos.Items.{total_executed, PriorityStats, total_of, Item, no_stats, num_priority_levels}
use yacul.Qos.Queues.Sizes.{sum, size_at}
use yacul.Qos.Queues.Counts.{calls-IsCounted}

module _ (d : Doubles) (f : Fifo) where
  open d use {Num, nil, lt, le, times, over, of_int}

  -- A limiter only for a rate that is not 0; its bucket holds the rate times the burst.
  unfoldable pub limiter_for : ℕ → Num → Num → Option (TokenBucket Num)
  unfolding new_bucket
  limiter_for now rate burst =
      if lt nil rate then some (new_bucket d now rate (times rate burst)) else none

  -- `QOS(config)`; `made n` is a new concurrent queue with room for `n` items, and the clock is read for
  -- each limiter.
  unfoldable pub new_qos : (ℕ → f.Queue) → (ℕ → ℕ) → ℕ → QosConfig Num → State d f
  unfolding limiter_for
  new_qos made now now_global c = record {
    config = c;
    queues = λ p. record {
      queue = made (if ltb 0 c.max_queue_depth then c.max_queue_depth else 256);
      rate_limiter = limiter_for (now p) (c.rate_limit_per_priority p) c.burst_multiplier;
      depth = 0;
      wrr_quota = c.wrr_quanta p;
    };
    global_rate_limiter = limiter_for now_global c.global_rate_limit c.global_burst_multiplier;
    next_id = 1;
    total_depth = 0;
    running = false;
    paused = false;
    stop_requested = false;
    consumers = 0;
    observers = [];
    notices = [];
    stats = λ p. no_stats;
  }

  -- The loop of `IsUnderBackPressure` over the levels below `n`: is one of them filled to the threshold?
  unfoldable pub presses : State d f → ℕ → Bool
  presses s zero = false
  presses s (suc p) =
      presses s p
      || le s.config.backpressure_threshold
          (over (of_int (s.queues p).depth) (of_int s.config.max_queue_depth))

  unfoldable pub is_under_back_pressure : State d f → Bool
  unfolding presses
  is_under_back_pressure s =
      if s.config.max_queue_depth == 0 then false else presses s num_priority_levels

  -- `EnqueueTask`: a new FunctionItem has the default cost and never expires by itself.
  unfoldable pub enqueue_task : ℕ × ℕ × ℕ → State d f → ℕ → Admission d f
  unfolding enqueue_internal
  enqueue_task now s p =
      enqueue_internal d f now s
        (record {
          metadata = record {
            id = 0;
            priority = p;
            enqueue_time = 0;
            deadline = 0;
            weight = 1;
            has_deadline = false;
          };
          cost = 1;
          own_expired = false;
        })
        p none

  -- `AverageLatencyUs`
  unfoldable pub average_latency_us : (ℕ → PriorityStats) → Num
  unfolding total_of
  average_latency_us stats =
      let exec = total_executed stats in
      if exec == 0
      then nil
      else over (of_int (total_of (λ p. (stats p).total_latency_us) num_priority_levels))
          (of_int exec)

  -- From the construction on, with new concurrent queues that are empty, and after any public calls and
  -- consumer rounds whose priorities are levels: SizeApprox of each level is the number of items in its
  -- queue, and SizeApprox that of all items, modulo 2 ^ 64.
  pub size_approx-new_qos :
      (made : ℕ → f.Queue) (now : ℕ → ℕ) (now_global : ℕ) (c : QosConfig Num) (cs : List Call)
      → ((n : ℕ) → f.contents (made n) ≡ [])
      → All IsLeveled cs
      → let t = calls d f (new_qos made now now_global c) cs in
        ((p : ℕ) → size_approx_at d f t p ≡ size_at f t.queues p % 2 ^ 64)
        × (size_approx d f t ≡ sum (size_at f t.queues) num_priority_levels % 2 ^ 64)
  unfolding size_approx_at size_approx new_qos
  size_approx-new_qos made now now_global c cs empty low =
      let s = new_qos made now now_global c in
      let start_size : (p : ℕ) → size_at f s.queues p ≡ 0 =
        λ p. ap (λ (is : List Item). length is) (empty _) in
      let h =
        calls-IsCounted d f s cs low
          (record { depth_at = λ p. rw (start_size p) refl; total_at = rw (start_size 0) refl }) in
      (h.depth_at, h.total_at)
