-- ===== src/Qos/Queues/Calls.antt =====
-- The public calls of QOS in sequence, and the rounds of the consumer threads between them.
use yacul.Common.{[], ◌∷◌, Option, List, ◌<◌, ℕ}
use yacul.Qos.Queues.Consumers.{
  remove_observer, add_observer, reset_stats, continue_running, pause, all_joined, request_stop,
  start,
}
use yacul.Qos.Queues.{held_back, refused, admitted, Admission, State, Item, enqueue_at, Fifo}
use yacul.Qos.Buckets.{Doubles}
use yacul.Qos.Items.{num_priority_levels, Item}
use yacul.Qos.Queues.Dequeue.{try_dequeue_bulk, dequeue_internal}
use yacul.Qos.Queues.Consumers.{start, drain, consume}

-- A call with the readings of the clock. The round of a consumer has the latency of the item that it
-- runs, if any; `Drain` has fuel.
pub data Call : Type 0 where
  enqueues : ℕ × ℕ × ℕ → Item → ℕ → Option ℕ → Call
  dequeues : (ℕ → ℕ → ℕ × ℕ) → Call
  dequeues_bulk : (ℕ → ℕ → ℕ → ℕ × ℕ) → ℕ → Call
  consumes : (ℕ → ℕ → ℕ × ℕ) → ℕ → Call
  drains : (ℕ → ℕ → ℕ → ℕ × ℕ) → (ℕ → ℕ) → ℕ → Call
  starts stops joins pauses resumes resets : Call
  adds removes : ℕ → Call

-- A priority is one of the levels.
abbrev pub IsLeveled : Call → Type 0
IsLeveled (enqueues now i p deadline) = p < num_priority_levels
IsLeveled _ = Unit

module _ (d : Doubles) (f : Fifo) where
  abbrev pub left_by : State d f → Admission d f → State d f
  left_by s (admitted t) = t
  left_by s (refused t) = t
  left_by s held_back = s

  -- The state after a call; a caller that waits has changed nothing.
  unfoldable pub call : State d f → Call → State d f
  unfolding enqueue_at dequeue_internal try_dequeue_bulk consume drain start request_stop all_joined
      pause continue_running reset_stats add_observer remove_observer
  call s (enqueues now i p deadline) = left_by s (enqueue_at d f now s i p deadline)
  call s (dequeues now) = (dequeue_internal d f now s).0
  call s (dequeues_bulk now n) = (try_dequeue_bulk d f now n s).0
  call s (consumes now latency) = consume d f now latency s
  call s (drains now latency n) = (drain d f now latency n s).0
  call s starts = start d f s
  call s stops = request_stop d f s
  call s joins = all_joined d f s
  call s pauses = pause d f s
  call s resumes = continue_running d f s
  call s resets = reset_stats d f s
  call s (adds o) = add_observer d f s o
  call s (removes o) = remove_observer d f s o

  unfoldable pub calls : State d f → List Call → State d f
  unfolding call
  calls s [] = s
  calls s (c ∷ cs) = calls (call s c) cs
