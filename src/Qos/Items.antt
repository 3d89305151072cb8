-- ===== src/Qos/Items.antt =====
-- Items, their metadata and the statistics: yacul/qos/i_qos_item.h, yacul/qos/qos_stats.h and
-- yacul/qos/qos_stats.cc. Times are nanoseconds of the steady clock. A priority is its level, 0 to 5.
use yacul.Common.{add64, ℕ, zero, suc, Bool}

-- kNumPriorityLevels
abbrev pub num_priority_levels : ℕ
num_priority_levels = 6

pub record Metadata : Type 0 where
  pub id : ℕ
  pub priority : ℕ
  pub enqueue_time : ℕ
  pub deadline : ℕ
  pub weight : ℕ
  pub has_deadline : Bool

-- `cost` and `own_expired` are what the virtual functions Cost and IsExpired answer.
pub record Item : Type 0 where
  pub metadata : Metadata
  pub cost : ℕ
  pub own_expired : Bool

pub record PriorityStats : Type 0 where
  pub enqueued : ℕ
  pub dequeued : ℕ
  pub executed : ℕ
  pub dropped : ℕ
  pub expired : ℕ
  pub total_latency_us : ℕ

abbrev pub no_stats : PriorityStats
no_stats = record {
  enqueued = 0;
  dequeued = 0;
  executed = 0;
  dropped = 0;
  expired = 0;
  total_latency_us = 0;
}

-- `PerPriorityStats::Reset`
unfoldable pub reset : PriorityStats → PriorityStats
reset s = record s {
  enqueued = 0;
  dequeued = 0;
  executed = 0;
  dropped = 0;
  expired = 0;
  total_latency_us = 0;
}

-- The sum of a counter over the first `n` levels.
unfoldable pub total_of : (ℕ → ℕ) → ℕ → ℕ
total_of f zero = 0
total_of f (suc n) = add64 (total_of f n) (f n)

module _ (stats : ℕ → PriorityStats) where
  pub total_enqueued : ℕ
  unfolding total_of
  total_enqueued = total_of (λ p. (stats p).enqueued) num_priority_levels

  pub total_dequeued : ℕ
  unfolding total_of
  total_dequeued = total_of (λ p. (stats p).dequeued) num_priority_levels

  pub total_executed : ℕ
  unfolding total_of
  total_executed = total_of (λ p. (stats p).executed) num_priority_levels

  pub total_dropped : ℕ
  unfolding total_of
  total_dropped = total_of (λ p. (stats p).dropped) num_priority_levels

  pub total_expired : ℕ
  unfolding total_of
  total_expired = total_of (λ p. (stats p).expired) num_priority_levels
