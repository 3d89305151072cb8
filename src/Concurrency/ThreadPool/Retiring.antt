-- ===== src/Concurrency/ThreadPool/Retiring.antt =====
-- Workers that leave, and callers that wait.
use yacul.Concurrency.ThreadPool.System.{
  holding, at, at_shared, Step, System, idle, Phase, retire, work, shared_hit,
}
use yacul.Common.{arith, sym, ap, refl, true, some, subst, [], List, ℕ, ◌∷◌, ◌++◌, ◌≡◌, ◌<◌}
use yacul.Concurrency.ThreadPool.{
  ThreadPoolStats, sub32, dequeue_task, State, Task, tasks_done, delayed_less, priority_less,
  MaxQueue,
}
use yacul.Concurrency.ThreadPool.Effects.{dequeue_task-Effect, dequeue_task-IsDequeued}

abbrev pub all_idle : List ℕ → List (ℕ × Phase)
all_idle [] = []
all_idle (id ∷ ids) = (id, idle) ∷ all_idle ids

module _ (p : MaxQueue priority_less) (d : MaxQueue delayed_less) where
  -- Steps in a row.
  pub data Steps : System p d → System p d → Type 0 where
    stay : {s : System p d} → Steps s s
    step : {s t u : System p d} → Step p d s t → Steps t u → Steps s u

  -- Where threads_ has more entries than min_threads, all idle workers can retire, down to none:
  -- the number of entries that each of them compares with min_threads stays as it is, and the pool is not
  -- shut down by it.
  pub all_retire :
      (s : System p d) (ids : List ℕ)
      → s.workers ≡ all_idle ids
      → s.pool.config.min_threads < s.pool.threads
      → Steps s (record s { workers = [] })
  all_retire s [] e surplus = subst (λ ws. Steps s (record s { workers = ws })) e stay
  all_retire s (id ∷ ids) e surplus =
      step (retire [] (all_idle ids) id e surplus)
        (all_retire (record s { workers = all_idle ids }) ids refl surplus)

  -- A worker takes the last queued task while none is active: the wait of WaitForTasks is over, with
  -- the task in the hands of the worker and not begun.
  pub wait_misses_task :
      (s : System p d) (xs ys : List (ℕ × Phase)) (id : ℕ) (t : Task) (s' : State p d)
      → s.workers ≡ xs ++ (id, at_shared) ∷ ys
      → dequeue_task p d s.pool ≡ some (t, s')
      → s.pool.stats.queue_size ≡ 1
      → s.pool.stats.active_threads ≡ 0
      → Step p d s (at p d s xs (id, holding t) ys s') × (tasks_done p d s' ≡ true)
  unfolding tasks_done
  wait_misses_task s xs ys id t s' e h one none_active =
      let q = dequeue_task-IsDequeued p d s.pool t s' h in
      let size : s'.stats.queue_size ≡ sub32 q.rest.stats.queue_size 1 =
        ap (λ (s : State p d). s.stats.queue_size) (sym q.counted) in
      let size0 : s.pool.stats.queue_size ≡ q.rest.stats.queue_size =
        ap (λ (c : ThreadPoolStats). c.queue_size) q.pulled.stats in
      let active = (dequeue_task-Effect p d s.pool t s' h).active in
      (
        work xs ys id at_shared s' (holding t) e (shared_hit t s' h),
        ground (arith, size, size0, active),
      )
