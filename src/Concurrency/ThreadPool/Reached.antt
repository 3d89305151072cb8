-- ===== src/Concurrency/ThreadPool/Reached.antt =====
-- What holds in every state of the pool that its threads and callers can reach.
use yacul.Concurrency.ThreadPool.System.{queued, start, Reach, System, here, next}
use yacul.Common.{
  tally-map, tally-append, tally-all, tally, map, subst, min, ap, refl, max, ◌∙◌, zero, inl, true,
  arith, inr, false, ◌^◌, suc, leb, ◌%◌, Bool-cases, if◌then◌else◌, none, [], length, ok, List, All,
  Bool, ℕ, ◌≡◌,
}
use yacul.Concurrency.ThreadPool.{
  no_stats, PriorityTask, empty_slots, steal_task, take_local, Task, State, new_pool,
  ThreadPoolConfig, delayed_less, priority_less, MaxQueue,
}
use yacul.Concurrency.ThreadPool.Places.{placed, Inv}
use yacul.Concurrency.ThreadPool.Effects.{local-none}
use yacul.Concurrency.ThreadPool.Moves.{activities}
use yacul.Concurrency.ThreadPool.Steps.{Step-Inv}

empty_slots-empty :
    (p : MaxQueue priority_less) (d : MaxQueue delayed_less) (b : Bool) (n : ℕ)
    → All (λ (q : List Task). q ≡ []) (if b then empty_slots p d n else [])
empty_slots-empty p d false n = tt
empty_slots-empty p d true zero = tt
empty_slots-empty p d true (suc n) = (refl, empty_slots-empty p d true n)

module _ (p : MaxQueue priority_less) (d : MaxQueue delayed_less) where
  new_pool-Inv :
      (c : ThreadPoolConfig) (now : ℕ) (s : State p d)
      → new_pool p d c now ≡ ok s
      → Inv p d (start p d s)
  unfolding new_pool
  new_pool-Inv c now s e = elim (Bool-cases (leb 1 c.max_threads)) [
    | inr none_allowed ↦ absurd (ground arith)
    | inl some_allowed ↦ elim (Bool-cases (leb c.min_threads c.max_threads)) [
      | inr crossed ↦ absurd (ground arith)
      | inl ordered ↦
          let made : State p d = record {
            config = record c {
              initial_threads = max c.min_threads (min c.initial_threads c.max_threads);
            };
            shutdown = false;
            paused = false;
            next_task_id = 1;
            threads = 0;
            thread_local_queues =
                if c.enable_work_stealing then empty_slots p d c.max_threads else [];
            tasks = [];
            priority_tasks = p.nothing;
            delayed_tasks = d.nothing;
            cancelled_tasks = [];
            cancelled = λ id. false;
            stats = no_stats p d now;
            next_thread_id = 0;
          } in
          let got : new_pool p d c now ≡ ok made = rw (new_pool, some_allowed, ordered) refl in
          let same : made ≡ s = cc in
          subst (λ s. Inv p d (start p d s)) same
            (record {
              counted = record {
                shared = rw p.contents-nothing refl;
                delayed = rw d.contents-nothing refl;
                local = empty_slots-empty p d c.enable_work_stealing c.max_threads;
              };
              active = refl;
              once = λ f. rw (p.contents-nothing, d.contents-nothing) refl;
            })
    ]
  ]

  pub Reach-Inv : {c : ThreadPoolConfig} {s : System p d} → Reach p d c s → Inv p d s
  Reach-Inv {c} (here s now e) = new_pool-Inv c now s e
  Reach-Inv (next r t) = Step-Inv p d (Reach-Inv r) t

  -- In every reachable state, whatever test on tasks one counts by: each accepted task is in exactly one
  -- place, a queue, the batch of the scheduler, the hands of a worker, or among the finished or the
  -- discarded ones, as often as it was accepted.
  pub accepted_in_one_place :
      {c : ThreadPoolConfig} {s : System p d} (f : Task → Bool)
      → Reach p d c s
      → tally f s.accepted ≡ placed p d f s
  accepted_in_one_place f r = (Reach-Inv r).once f

  -- In every reachable state, the counters of the statistics are, modulo 2 ^ 32, the lengths of the shared
  -- and of the delayed queue, and the number of workers that run a task.
  pub counters-lengths :
      {c : ThreadPoolConfig} {s : System p d}
      → Reach p d c s
      → (s.pool.stats.queue_size ≡ length (queued p d s.pool) % 2 ^ 32)
        × (s.pool.stats.delayed_queue_size ≡ length (d.contents s.pool.delayed_tasks) % 2 ^ 32)
        × (s.pool.stats.active_threads ≡ activities s.workers % 2 ^ 32)
  counters-lengths {s = s} r =
      let v = Reach-Inv r in
      let every : Task → Bool = λ t. true in
      let tasks_of_queue = λ (x : PriorityTask). x.task in
      let ps = p.contents s.pool.priority_tasks in
      (
        v.counted.shared
            ∙ ap (λ n. n % 2 ^ 32)
                (omega (
                  arith,
                  tally-all (queued p d s.pool),
                  tally-append every s.pool.tasks (map tasks_of_queue ps),
                  tally-map every tasks_of_queue ps,
                )),
        v.counted.delayed ∙ ap (λ n. n % 2 ^ 32) (tally-all (d.contents s.pool.delayed_tasks)),
        v.active,
      )

  -- In every reachable state, neither the local queue of a worker nor StealTask yields a task: with work
  -- stealing on or off, every task goes through the shared queue.
  pub nothing_to_steal :
      {c : ThreadPoolConfig} {s : System p d} (id : ℕ)
      → Reach p d c s
      → (take_local p d s.pool id ≡ none) × (steal_task p d s.pool id ≡ none)
  nothing_to_steal {s = s} id r = local-none p d s.pool id (Reach-Inv r).counted
