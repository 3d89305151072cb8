-- ===== src/Concurrency/ThreadPool/Tests.antt =====
-- The theorems on the thread pool at concrete pools, with the queues of ThreadPool.Orders.
use yacul.Concurrency.ThreadPool.System.{
  Reach, at_shared, start, queued, System, here, next, add, submit,
}
use yacul.Common.{
  tally, List, arith, refl, ◌^◌, ◌%◌, ok, some, true, [], false, Bool, none, length, ℕ, ◌∷◌, ◌≡◌,
}
use yacul.Concurrency.ThreadPool.{
  normal, add_worker_thread, high, steal_task, delayed, user, push_task, no_stats, regular,
  delayed_less, enqueue_task, low, priority_less, MaxQueue, new_pool, Task, dequeue_task, State,
  take_local, ThreadPoolConfig,
}
use yacul.Concurrency.ThreadPool.Retiring.{all_retire, all_idle, Steps}
use yacul.Concurrency.ThreadPool.Effects.{dequeue_task-IsDequeued, IsDequeued}
use yacul.Concurrency.ThreadPool.Delayed.{process_delayed_tasks, Batch}
use yacul.Concurrency.ThreadPool.Places.{placed}
use yacul.Concurrency.ThreadPool.Reached.{counters-lengths, nothing_to_steal, accepted_in_one_place}
use yacul.Concurrency.ThreadPool.Orders.{
  priority_less-StrictWeak, delayed_less-StrictWeak, selection,
}
use yacul.Concurrency.ThreadPool.Due.{process_delayed_tasks-IsBatch, IsProcessed}
use yacul.Concurrency.ThreadPool.Collecting.{IsBatch}
use yacul.Concurrency.ThreadPool.Moves.{activities}

abbrev P : MaxQueue priority_less
P = selection priority_less priority_less-StrictWeak

abbrev D : MaxQueue delayed_less
D = selection delayed_less delayed_less-StrictWeak

abbrev config : ThreadPoolConfig
config = record {
  min_threads = 1;
  max_threads = 4;
  initial_threads = 2;
  max_queue_size = 3;
  thread_idle_timeout = 30000;
  delay_scheduler_interval = 10;
  enable_work_stealing = true;
  enable_priority_queue = true;
  enable_delayed_tasks = true;
}

abbrev fresh : State P D
fresh = record {
  config = config;
  shutdown = false;
  paused = false;
  next_task_id = 1;
  threads = 0;
  thread_local_queues = [] ∷ [] ∷ [] ∷ [] ∷ [];
  tasks = [];
  priority_tasks = [];
  delayed_tasks = [];
  cancelled_tasks = [];
  cancelled = λ id. false;
  stats = no_stats P D 0;
  next_thread_id = 0;
}

-- The pool with one task in its queue.
abbrev loaded : State P D
loaded = record fresh {
  threads = 1;
  next_thread_id = 1;
  priority_tasks = record { priority = 1; task = regular (user 7) } ∷ [];
  stats = record (no_stats P D 0) { tasks_submitted = 1; queue_size = 1 };
}

-- One worker, and one task that is submitted.
abbrev one_task : (s : System P D) × Reach P D config s
unfolding new_pool enqueue_task push_task add_worker_thread
one_task = (_, next (next (here fresh 0 refl) (add 1 refl)) (submit normal 7 loaded refl))

abbrev every : Task → Bool
every t = true

accepted_in_one_place_example : tally every one_task.0.accepted ≡ placed P D every one_task.0
accepted_in_one_place_example = accepted_in_one_place P D every one_task.1

counters-lengths_example :
    (one_task.0.pool.stats.queue_size ≡ length (queued P D one_task.0.pool) % 2 ^ 32)
    × (one_task.0.pool.stats.delayed_queue_size
        ≡ length (D.contents one_task.0.pool.delayed_tasks) % 2 ^ 32)
    × (one_task.0.pool.stats.active_threads ≡ activities one_task.0.workers % 2 ^ 32)
counters-lengths_example = counters-lengths P D one_task.1

nothing_to_steal_example :
    (take_local P D one_task.0.pool 0 ≡ none) × (steal_task P D one_task.0.pool 0 ≡ none)
nothing_to_steal_example = nothing_to_steal P D 0 one_task.1

abbrev idlers : System P D
idlers = record (start P D (record fresh { threads = 2 })) { workers = all_idle (0 ∷ 1 ∷ []) }

all_retire_example : Steps P D idlers (record idlers { workers = [] })
all_retire_example = all_retire P D idlers (0 ∷ 1 ∷ []) refl (omega arith)

-- A worker in front of DequeueTask, and the last task.
abbrev about_to_take : System P D
about_to_take = record (start P D loaded) { workers = (0, at_shared) ∷ [] }

abbrev taken : State P D
taken = record loaded {
  priority_tasks = [];
  stats = record (no_stats P D 0) { tasks_submitted = 1; queue_size = 0 };
}

dequeued : dequeue_task P D loaded ≡ some (regular (user 7), taken)
unfolding dequeue_task
dequeued = refl

dequeue_task-IsDequeued_example : IsDequeued P D loaded (regular (user 7)) taken
dequeue_task-IsDequeued_example =
    dequeue_task-IsDequeued P D loaded (regular (user 7)) taken dequeued

-- Two delayed tasks, of which one is due at 20.
abbrev waiting_pool : State P D
waiting_pool = record fresh {
  delayed_tasks =
      record { execute_time = 10; priority = low; task = delayed 1 (user 8); task_id = 1 }
      ∷ record { execute_time = 30; priority = high; task = delayed 2 (user 9); task_id = 2 }
      ∷ [];
}

process_delayed_tasks-IsBatch_example :
    (b : Batch P D) × (t : State P D) × (process_delayed_tasks P D 3 20 waiting_pool ≡ ok t)
    × IsBatch P D waiting_pool 20 b
    × IsProcessed P D waiting_pool b t
process_delayed_tasks-IsBatch_example =
    process_delayed_tasks-IsBatch P D 3 20 waiting_pool (omega arith)

abbrev functions : List ℕ
functions = 4 ∷ 5 ∷ 6 ∷ 7 ∷ []
