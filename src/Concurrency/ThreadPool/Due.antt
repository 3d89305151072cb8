-- ===== src/Concurrency/ThreadPool/Due.antt =====
-- What ProcessDelayedTasks does to the pool: its two loops together.
use yacul.Common.{◌++◌, tally, ◌∙◌, ap, ◌+◌, refl, ok, arith, length, Bool, ℕ, ◌≡◌, ◌<◌}
use yacul.Concurrency.ThreadPool.Pushing.{behind, entries, push_ready-IsJoined}
use yacul.Concurrency.ThreadPool.{
  ThreadPoolConfig, PriorityTask, State, priority_less, delayed_less, MaxQueue,
}
use yacul.Concurrency.ThreadPool.Collecting.{IsBatch, collect_ready-IsBatch}
use yacul.Concurrency.ThreadPool.Delayed.{push_ready, process_delayed_tasks, Batch}

module _ (p : MaxQueue priority_less) (d : MaxQueue delayed_less) where
  -- What ProcessDelayedTasks makes of the pool `s` with the batch `b`: the delayed tasks that the batch leaves
  -- stay, the ready ones come to the shared queue, and nothing else does.
  pub record IsProcessed (s : State p d) (b : Batch p d) (t : State p d) : Type 0 where
    pub delayed : t.delayed_tasks ≡ b.pool.delayed_tasks
    pub config : t.config ≡ s.config
    pub local : t.thread_local_queues ≡ s.thread_local_queues
    pub fifo : t.tasks ≡ s.tasks ++ behind s.config.enable_priority_queue b.ready
    pub heap :
        (f : PriorityTask → Bool)
        → tally f (p.contents t.priority_tasks)
          ≡ tally f (p.contents s.priority_tasks)
            + tally f (entries s.config.enable_priority_queue b.ready)

  -- With fuel for the delayed tasks, ProcessDelayedTasks returns. Every due task is in a batch and no other, the
  -- ready ones in the order of execution times and then of falling priorities, the dropped ones
  -- cancelled. The ready ones, and nothing else, come to the shared queue of the pool: each with its own
  -- priority where the queue with priorities is on, and behind the others in their order where it is
  -- off. The tasks that are not due stay delayed.
  pub process_delayed_tasks-IsBatch :
      (fuel now : ℕ) (s : State p d)
      → length (d.contents s.delayed_tasks) < fuel
      → (b : Batch p d) × (t : State p d) × (process_delayed_tasks p d fuel now s ≡ ok t)
        × IsBatch p d s now b
        × IsProcessed s b t
  unfolding process_delayed_tasks
  process_delayed_tasks-IsBatch fuel now s f =
      let (b, e, i) = collect_ready-IsBatch p d fuel now s f in
      let j = push_ready-IsJoined p d b.ready b.pool in
      let same : b.pool.config.enable_priority_queue ≡ s.config.enable_priority_queue =
        ap (λ (c : ThreadPoolConfig). c.enable_priority_queue) i.config in
      (
        b,
        push_ready p d b.pool b.ready,
        rw (process_delayed_tasks, e) refl,
        i,
        record {
          delayed = j.delayed;
          config = j.config ∙ i.config;
          local = j.local ∙ i.local;
          fifo = j.fifo ∙ rw (same, i.tasks) refl;
          heap = λ f. omega (
            arith,
            j.heap f,
            ap (λ q. tally f (p.contents q)) i.priority_tasks,
            ap (λ (b' : Bool). tally f (entries b' b.ready)) same,
          );
        },
      )
