-- ===== src/Concurrency/ThreadPool.antt =====
-- The thread pool of yacul/concurrency/threadpool.h and threadpool.cc: its state, and the calls on it. A
-- function of a caller is a number, a time is a number of ticks, and std::priority_queue is the record
-- MaxQueue. The shared flag of a cancellable task is named by the id of the task.
pub mod Delayed
pub mod System
pub mod Counts
pub mod Effects
pub mod Batches
pub mod Moves
pub mod Places
pub mod Steps
pub mod Reached
pub mod Retiring
pub mod Pushing
pub mod Collecting
pub mod Due
pub mod Submitting
pub mod Orders
pub mod Tests
use yacul.Common.{
  add64, ok, zero, All, ◌>>◌, ◌*◌, min, some, not, ◌++◌, ◌||◌, Perm, update, map, leb, ◌&&◌,
  if◌then◌else◌, ◌≡◌, length, none, ◌∷◌, check, suc, ltb, max, ◌==◌, [], ◌-◌, ◌%◌, true, Run,
  Option, false, ℕ, List, Bool, ◌+◌, ◌^◌,
}

-- std::priority_queue: pop takes an item that is not less than another.
pub record MaxQueue {T : Type 0} (less : T → T → Bool) : Type 1 where
  pub Queue : Type 0
  pub nothing : Queue
  pub emplace : Queue → T → Queue
  pub pop : Queue → Option (T × Queue)
  pub contents : Queue → List T
  pub contents-nothing : contents nothing ≡ []
  pub emplaced : (q : Queue) (x : T) → Perm (contents (emplace q x)) (x ∷ contents q)
  pub popped :
      (q : Queue) (x : T) (r : Queue)
      → pop q ≡ some (x, r)
      → Perm (contents q) (x ∷ contents r) × All (λ y. less x y ≡ false) (contents q)
  pub drained : (q : Queue) → pop q ≡ none → contents q ≡ []

pub data TaskPriority : Type 0 where
  low normal high critical : TaskPriority

-- `static_cast<int>(priority)`
abbrev pub level : TaskPriority → ℕ
level low = 0
level normal = 1
level high = 2
level critical = 3

-- What a packaged task runs: the function of a caller, or the body that SubmitRecurring makes of one, with
-- its task id and interval.
pub data Job : Type 0 where
  user : ℕ → Job
  recurring : ℕ → ℕ → TaskPriority → ℕ → Job

-- The wrapped tasks of SubmitWithPriority and of SubmitDelayedWithPriority, the latter with its task id.
pub data Task : Type 0 where
  regular : Job → Task
  delayed : ℕ → Job → Task

pub record PriorityTask : Type 0 where
  pub priority : ℕ
  pub task : Task

-- `PriorityTask::operator<`
unfoldable pub priority_less : PriorityTask → PriorityTask → Bool
priority_less a b = ltb a.priority b.priority

pub record DelayedTask : Type 0 where
  pub execute_time : ℕ
  pub priority : TaskPriority
  pub task : Task
  pub task_id : ℕ

-- `DelayedTask::operator<`
unfoldable pub delayed_less : DelayedTask → DelayedTask → Bool
delayed_less a b =
    if not (a.execute_time == b.execute_time)
    then ltb b.execute_time a.execute_time
    else ltb (level a.priority) (level b.priority)

pub record ThreadPoolConfig : Type 0 where
  pub min_threads : ℕ
  pub max_threads : ℕ
  pub initial_threads : ℕ
  pub max_queue_size : ℕ
  pub thread_idle_timeout : ℕ
  pub delay_scheduler_interval : ℕ
  pub enable_work_stealing : Bool
  pub enable_priority_queue : Bool
  pub enable_delayed_tasks : Bool

pub record ThreadPoolStats : Type 0 where
  pub tasks_submitted : ℕ
  pub tasks_completed : ℕ
  pub tasks_failed : ℕ
  pub delayed_tasks_submitted : ℕ
  pub delayed_tasks_executed : ℕ
  pub tasks_cancelled : ℕ
  pub active_threads : ℕ
  pub queue_size : ℕ
  pub delayed_queue_size : ℕ
  pub start_time : ℕ

-- `threads` is the number of entries of threads_, and `cancelled` the flags.
pub record ThreadPool (P D : Type 0) : Type 0 where
  pub config : ThreadPoolConfig
  pub shutdown : Bool
  pub paused : Bool
  pub next_task_id : ℕ
  pub threads : ℕ
  pub thread_local_queues : List (List Task)
  pub tasks : List Task
  pub priority_tasks : P
  pub delayed_tasks : D
  pub cancelled_tasks : List ℕ
  pub cancelled : ℕ → Bool
  pub stats : ThreadPoolStats
  pub next_thread_id : ℕ

-- fetch_add and fetch_sub of a std::atomic<uint32_t>.
abbrev pub add32 : ℕ → ℕ → ℕ
add32 a b = (a + b) % 2 ^ 32

abbrev pub sub32 : ℕ → ℕ → ℕ
sub32 a b = (a + (2 ^ 32 - b)) % 2 ^ 32

abbrev pub has_key : ℕ → List ℕ → Bool
has_key k [] = false
has_key k (x ∷ xs) = (k == x) || has_key k xs

abbrev pub erase_key : ℕ → List ℕ → List ℕ
erase_key k [] = []
erase_key k (x ∷ xs) = if k == x then xs else x ∷ erase_key k xs

-- `m[k] = v` in the map of flags.
abbrev pub put_key : ℕ → List ℕ → List ℕ
put_key k xs = if has_key k xs then xs else k ∷ xs

module _ (p : MaxQueue priority_less) (d : MaxQueue delayed_less) where
  abbrev pub State : Type 0
  State = ThreadPool p.Queue d.Queue

  abbrev pub with_stats : State → (ThreadPoolStats → ThreadPoolStats) → State
  with_stats s g = record s { stats = g s.stats }

  -- `emplace` in the shared queue that the configuration chooses.
  unfoldable pub push_task : State → ℕ → Task → State
  push_task s l t =
      if s.config.enable_priority_queue
      then record s {
        priority_tasks = p.emplace s.priority_tasks (record { priority = l; task = t });
      }
      else record s { tasks = s.tasks ++ t ∷ [] }

  abbrev pub is_full : State → Bool
  is_full s = ltb 0 s.config.max_queue_size && leb s.config.max_queue_size s.stats.queue_size

  -- `EnqueueTask` under queue_mutex_, and whether the task is now in the queue; the call goes on with
  -- try_expand_pool only then.
  unfoldable pub enqueue_task : State → TaskPriority → Task → Run (State × Bool)
  unfolding push_task
  enqueue_task s prio t =
      check (not s.shutdown)
      >> (if is_full s
          then ok (s, false)
          else ok (
            with_stats (push_task s (level prio) t) (λ c. record c {
              tasks_submitted = add64 c.tasks_submitted 1;
              queue_size = add32 c.queue_size 1;
            }),
            true,
          ))

  -- `TryExpandPool` up to AddWorkerThread: whether it calls that.
  unfoldable pub try_expand_pool : State → Bool
  try_expand_pool s =
      if leb s.config.max_threads s.threads
      then false
      else ltb (s.threads * 2 % 2 ^ 32) s.stats.queue_size && leb s.threads s.stats.active_threads

  -- `AddWorkerThread`: the id of the new worker is the old `next_thread_id`.
  unfoldable pub add_worker_thread : State → State
  add_worker_thread s = record s {
    next_thread_id = add32 s.next_thread_id 1;
    threads = s.threads + 1;
  }

  -- `DequeueTask`
  unfoldable pub dequeue_task : State → Option (Task × State)
  dequeue_task s = elim (if s.config.enable_priority_queue then p.pop s.priority_tasks else none) [
    | some (x, r) ↦ some (
      x.task,
      with_stats (record s { priority_tasks = r })
          (λ c. record c { queue_size = sub32 c.queue_size 1 }),
    )
    | none ↦ elim s.tasks [
      | [] ↦ none
      | t ∷ ts ↦ some (
        t,
        with_stats (record s { tasks = ts }) (λ c. record c { queue_size = sub32 c.queue_size 1 }),
      )
    ]
  ]

  -- The front of the queue in slot `k`.
  abbrev pub pop_slot : ℕ → List (List Task) → Option (Task × List (List Task))
  pop_slot k [] = none
  pop_slot zero ([] ∷ qs) = none
  pop_slot zero ((t ∷ ts) ∷ qs) = some (t, ts ∷ qs)
  pop_slot (suc k) (q ∷ qs) = elim (pop_slot k qs) [ none ↦ none | some (t, rs) ↦ some (t, q ∷ rs) ]

  -- The worker's own slot, where work stealing is on.
  unfoldable pub take_local : State → ℕ → Option (Task × State)
  take_local s id =
      if s.config.enable_work_stealing
      then elim (pop_slot (id % length s.thread_local_queues) s.thread_local_queues) [
        | none ↦ none
        | some (t, qs) ↦ some (t, record s { thread_local_queues = qs })
      ]
      else none

  -- The loop of `StealTask` over the slots from `i` on, `k` of them, without the slot `own`.
  abbrev pub steal_from : List (List Task) → ℕ → ℕ → ℕ → Option (Task × List (List Task))
  steal_from qs own i zero = none
  steal_from qs own i (suc k) =
      let rest = steal_from qs own (suc i) k in
      if i == own then rest else elim (pop_slot i qs) [ none ↦ rest | some r ↦ some r ]

  -- `StealTask`
  unfoldable pub steal_task : State → ℕ → Option (Task × State)
  steal_task s id =
      let n = length s.thread_local_queues in
      elim (steal_from s.thread_local_queues (id % n) 0 n) [
        | none ↦ none
        | some (t, qs) ↦ some (t, record s { thread_local_queues = qs })
      ]

  -- `CancelTask(task_id)`
  unfoldable pub cancel_task : State → ℕ → State × Bool
  cancel_task s id =
      if has_key id s.cancelled_tasks
      then (record s { cancelled = update s.cancelled id true }, true)
      else (s, false)

  -- The wait of `WaitForTasks` is over.
  unfoldable pub tasks_done : State → Bool
  tasks_done s = s.stats.queue_size == 0 && s.stats.active_threads == 0

  unfoldable pub pause : State → State
  pause s = record s { paused = true }

  unfoldable pub resume_pool : State → State
  resume_pool s = record s { paused = false }

  -- `Shutdown` under the two mutexes.
  unfoldable pub shut_down : State → State
  shut_down s = record s { shutdown = true }

  -- `ShutdownNow` under the two mutexes.
  unfoldable pub shut_down_now : State → State
  shut_down_now s = record s {
    shutdown = true;
    tasks = [];
    priority_tasks = p.nothing;
    delayed_tasks = d.nothing;
    cancelled_tasks = [];
    thread_local_queues =
        if s.config.enable_work_stealing
        then map (λ (q : List Task). []) s.thread_local_queues
        else s.thread_local_queues;
    stats = record s.stats { queue_size = 0; delayed_queue_size = 0 };
  }

  -- The loop of `Resize`, for a size within the bounds of the configuration: `n` new workers.
  unfoldable pub add_workers : ℕ → State → State
  unfolding add_worker_thread
  add_workers zero s = s
  add_workers (suc n) s = add_workers n (add_worker_thread s)

  unfoldable pub resize : State → ℕ → State
  unfolding add_workers
  resize s new_size =
      add_workers (max s.config.min_threads (min new_size s.config.max_threads) - s.threads) s

  unfoldable pub reset_stats : State → ℕ → State
  reset_stats s now = with_stats s (λ c. record c {
    tasks_submitted = 0;
    tasks_completed = 0;
    tasks_failed = 0;
    delayed_tasks_submitted = 0;
    delayed_tasks_executed = 0;
    tasks_cancelled = 0;
    start_time = now;
  })

  unfoldable pub set_max_queue_size : State → ℕ → State
  set_max_queue_size s n = record s { config = record s.config { max_queue_size = n } }

  -- The end of `Shutdown` and of `ShutdownNow`.
  unfoldable pub clear_threads : State → State
  clear_threads s = record s { threads = 0 }

  abbrev pub no_stats : ℕ → ThreadPoolStats
  no_stats now = record {
    tasks_submitted = 0;
    tasks_completed = 0;
    tasks_failed = 0;
    delayed_tasks_submitted = 0;
    delayed_tasks_executed = 0;
    tasks_cancelled = 0;
    active_threads = 0;
    queue_size = 0;
    delayed_queue_size = 0;
    start_time = now;
  }

  abbrev pub empty_slots : ℕ → List (List Task)
  empty_slots zero = []
  empty_slots (suc n) = [] ∷ empty_slots n

  -- The constructor up to its loop over AddWorkerThread.
  unfoldable pub new_pool : ThreadPoolConfig → ℕ → Run State
  new_pool c now =
      let initial = max c.min_threads (min c.initial_threads c.max_threads) in
      check (leb 1 c.max_threads)
      >> check (leb c.min_threads c.max_threads)
      >> ok (record {
        config = record c { initial_threads = initial };
        shutdown = false;
        paused = false;
        next_task_id = 1;
        threads = 0;
        thread_local_queues = if c.enable_work_stealing then empty_slots c.max_threads else [];
        tasks = [];
        priority_tasks = p.nothing;
        delayed_tasks = d.nothing;
        cancelled_tasks = [];
        cancelled = λ id. false;
        stats = no_stats now;
        next_thread_id = 0;
      })
