-- ===== src/Qos/Queues/Consumers.antt =====
-- Start, Stop, Pause, Resume, the loop of a consumer thread, and the observers.
use yacul.Common.{
  add64, zero, some, max, [], none, suc, ◌==◌, ◌+◌, false, ◌++◌, if◌then◌else◌, Bool, ◌∷◌, true,
  List, ℕ,
}
use yacul.Qos.Queues.{on_executed, count, State, notify, Fifo}
use yacul.Qos.Buckets.{Doubles}
use yacul.Qos.Queues.Dequeue.{dequeue_internal}
use yacul.Qos.Items.{Item, reset}

module _ (d : Doubles) (f : Fifo) where
  unfoldable pub start : State d f → State d f
  start s = if s.running then s else record s {
    running = true;
    stop_requested = false;
    paused = false;
    consumers = s.consumers + max 1 s.config.num_consumer_threads;
  }

  -- The flags that Stop sets before it joins the threads.
  unfoldable pub request_stop : State d f → State d f
  request_stop s =
      if s.running then record s { running = false; stop_requested = true; paused = false } else s

  unfoldable pub pause : State d f → State d f
  pause s = record s { paused = true }

  unfoldable pub continue_running : State d f → State d f
  continue_running s = record s { paused = false }

  unfoldable pub add_observer : State d f → ℕ → State d f
  add_observer s o = record s { observers = s.observers ++ o ∷ [] }

  abbrev pub remove_all : ℕ → List ℕ → List ℕ
  remove_all o [] = []
  remove_all o (x ∷ xs) = if x == o then remove_all o xs else x ∷ remove_all o xs

  unfoldable pub remove_observer : State d f → ℕ → State d f
  remove_observer s o = record s { observers = remove_all o s.observers }

  -- After Execute, which took `latency` microseconds.
  unfoldable pub executes : State d f → Item → ℕ → State d f
  unfolding notify count
  executes s i latency =
      notify d f
        (count d f s i.metadata.priority (λ c. record c {
          executed = add64 c.executed 1;
          total_latency_us = add64 c.total_latency_us latency;
        }))
        (on_executed i.metadata latency)

  -- What a dequeue and the run of its item make of the state; false if there was no item.
  unfoldable pub run_one : (ℕ → ℕ → ℕ × ℕ) → ℕ → State d f → State d f × Bool
  unfolding dequeue_internal executes
  run_one now latency s =
      let (s', o) = dequeue_internal d f now s in
      elim o [ none ↦ (s', false) | some i ↦ (executes s' i latency, true) ]

  -- One round of the main loop, whose test has found no request to stop.
  unfoldable pub consume : (ℕ → ℕ → ℕ × ℕ) → ℕ → State d f → State d f
  unfolding run_one
  consume now latency s = if s.paused then s else (run_one now latency s).0

  -- The loop that drains the queue, with fuel; false if that was used up.
  unfoldable pub drain : (ℕ → ℕ → ℕ → ℕ × ℕ) → (ℕ → ℕ) → ℕ → State d f → State d f × Bool
  unfolding run_one
  drain now latency zero s = (s, false)
  drain now latency (suc n) s =
      let (s', more) = run_one (now n) (latency n) s in
      let rest = drain now latency n s' in if more then rest else (s', true)

  unfoldable pub reset_stats : State d f → State d f
  reset_stats s = record s { stats = λ p. reset (s.stats p) }

  unfoldable pub size_approx : State d f → ℕ
  size_approx s = s.total_depth

  unfoldable pub size_approx_at : State d f → ℕ → ℕ
  size_approx_at s p = (s.queues p).depth

  -- Stop, once every consumer thread has been joined.
  unfoldable pub all_joined : State d f → State d f
  all_joined s = record s { consumers = 0 }
