-- ===== src/Concurrency/ThreadPool/System.antt =====
-- The threads of the pool and its callers: each stretch of code between two synchronising operations is a
-- step, and between two steps any other thread may take one.
use yacul.Common.{
  update, Bool, [], min, max, if◌then◌else◌, suc, none, some, ◌+◌, ok, true, ◌⊎◌, false, map, List,
  ℕ, ◌∷◌, ◌++◌, ◌≡◌, ◌<◌,
}
use yacul.Concurrency.ThreadPool.{
  clear_threads, set_max_queue_size, reset_stats, shut_down_now, shut_down, resume_pool, new_pool,
  pause, ThreadPoolConfig, cancel_task, recurring, add_worker_thread, Job, try_expand_pool,
  steal_task, dequeue_task, take_local, user, regular, PriorityTask, enqueue_task, DelayedTask,
  State, TaskPriority, delayed_less, priority_less, Task, MaxQueue,
}
use yacul.Concurrency.ThreadPool.Delayed.{
  end_task, push_ready, collect_ready, Batch, count_run, take_id, place_delayed, register,
  delayed_by, recurring_stops, job_of, begin_task,
}

-- Where a worker stands in WorkerLoop.
pub data Phase : Type 0 where
  looking unpaused at_local at_shared stealing idle : Phase
  holding running resubmitting repeating ending : Task → Phase
  replacing : Task → DelayedTask → Phase

-- A caller inside of SubmitRecurring, in front of its token, with the id, interval, priority and function, or
-- behind it; and one in front of the mutex of SubmitDelayed.
pub data Pending : Type 0 where
  registering kicking : ℕ → ℕ → TaskPriority → ℕ → Pending
  placing : DelayedTask → Pending

module _ (p : MaxQueue priority_less) (d : MaxQueue delayed_less) where
  -- `expanding` and `adding` count the callers in TryExpandPool and in front of AddWorkerThread, and `calls` are the
  -- callers that submit a delayed task; `ready` is the
  -- batch of the scheduler between its two loops. The last three list the tasks that were accepted, that ran
  -- to their end, and that were cancelled or cleared away.
  pub record System : Type 0 where
    pub pool : State p d
    pub workers : List (ℕ × Phase)
    pub expanding : ℕ
    pub adding : ℕ
    pub calls : List Pending
    pub ready : List DelayedTask
    pub accepted : List Task
    pub finished : List Task
    pub discarded : List Task

  abbrev pub at : System → List (ℕ × Phase) → ℕ × Phase → List (ℕ × Phase) → State p d → System
  at s xs w ys s' = record s { pool = s'; workers = xs ++ w ∷ ys }

  abbrev pub queued : State p d → List Task
  queued s = s.tasks ++ map (λ (x : PriorityTask). x.task) (p.contents s.priority_tasks)

  abbrev pub waiting : List DelayedTask → List Task
  waiting xs = map (λ (x : DelayedTask). x.task) xs

  -- A stretch of WorkerLoop in the worker `id` that only changes the pool and the phase.
  pub data Move (s : State p d) (id : ℕ) : Phase → State p d → Phase → Type 0 where
    -- The worker is not paused, or not any more.
    go : (s.paused ≡ false) ⊎ (s.shutdown ≡ true) → Move s id looking s unpaused
    enter : (s.shutdown ≡ false) ⊎ (0 < s.stats.queue_size) → Move s id unpaused s at_local
    local_hit :
        (t : Task) (s' : State p d)
        → take_local p d s id ≡ some (t, s')
        → Move s id at_local s' (holding t)
    local_miss : take_local p d s id ≡ none → Move s id at_local s at_shared
    shared_hit :
        (t : Task) (s' : State p d)
        → dequeue_task p d s ≡ some (t, s')
        → Move s id at_shared s' (holding t)
    shared_miss :
        dequeue_task p d s ≡ none
        → Move s id at_shared s (if s.config.enable_work_stealing then stealing else idle)
    steal_hit :
        (t : Task) (s' : State p d)
        → steal_task p d s id ≡ some (t, s')
        → Move s id stealing s' (holding t)
    steal_miss : steal_task p d s id ≡ none → Move s id stealing s idle
    -- The wait for work is over.
    wake : Move s id idle s looking
    begin :
        (t : Task) (j : Job) (s' : State p d)
        → begin_task p d s t ≡ (s', some j)
        → Move s id (holding t) s' (running t)
    -- The function of a caller has run.
    done : (t : Task) (f : ℕ) → job_of p d t ≡ user f → Move s id (running t) s (ending t)
    -- The body of a recurring task stops at its first test, or runs the function of the caller.
    stop :
        (t : Task) (key interval : ℕ) (prio : TaskPriority) (f : ℕ)
        → job_of p d t ≡ recurring key interval prio f
        → recurring_stops p d s key ≡ true
        → Move s id (running t) s (ending t)
    ran :
        (t : Task) (key interval : ℕ) (prio : TaskPriority) (f : ℕ) (throws : Bool)
        → job_of p d t ≡ recurring key interval prio f
        → Move s id (running t) (count_run p d s throws) (resubmitting t)
    -- Its second test.
    no_more :
        (t : Task) (key interval : ℕ) (prio : TaskPriority) (f : ℕ)
        → job_of p d t ≡ recurring key interval prio f
        → recurring_stops p d s key ≡ true
        → Move s id (resubmitting t) s (ending t)
    goes_on :
        (t : Task) (key interval : ℕ) (prio : TaskPriority) (f : ℕ)
        → job_of p d t ≡ recurring key interval prio f
        → recurring_stops p d s key ≡ false
        → Move s id (resubmitting t) s (repeating t)
    -- It submits itself again, up to the mutex.
    new_id :
        (t : Task) (now key interval : ℕ) (prio : TaskPriority) (f : ℕ)
        → job_of p d t ≡ recurring key interval prio f
        → s.config.enable_delayed_tasks ≡ true
        → Move s id
            (repeating t)
            (take_id p d s)
            (replacing t (delayed_by p d s (now + interval) prio (recurring key interval prio f)))

  pub data Step (s : System) : System → Type 0 where
    submit :
        (prio : TaskPriority) (f : ℕ) (s' : State p d)
        → enqueue_task p d s.pool prio (regular (user f)) ≡ ok (s', true)
        → Step s (record s {
          pool = s';
          expanding = s.expanding + 1;
          accepted = regular (user f) ∷ s.accepted;
        })
    expand :
        (n : ℕ)
        → s.expanding ≡ suc n
        → Step s (record s {
          expanding = n;
          adding = if try_expand_pool p d s.pool then s.adding + 1 else s.adding;
        })
    -- `Resize` finds fewer threads than it wants.
    grow :
        (n : ℕ)
        → s.pool.threads < max s.pool.config.min_threads (min n s.pool.config.max_threads)
        → Step s (record s { adding = s.adding + 1 })
    add :
        (n : ℕ)
        → s.adding ≡ suc n
        → Step s (record s {
          adding = n;
          pool = add_worker_thread p d s.pool;
          workers = s.workers ++ (s.pool.next_thread_id, looking) ∷ [];
        })
    -- `SubmitDelayedWithPriority` up to its mutex.
    delay :
        (now wait : ℕ) (prio : TaskPriority) (f : ℕ)
        → s.pool.config.enable_delayed_tasks ≡ true
        → Step s (record s {
          pool = take_id p d s.pool;
          calls = placing (delayed_by p d s.pool (now + wait) prio (user f)) ∷ s.calls;
        })
    -- `SubmitRecurringWithPriority`: the id, the token, and the first occurrence up to the mutex.
    repeat :
        (interval : ℕ) (prio : TaskPriority) (f : ℕ)
        → s.pool.config.enable_delayed_tasks ≡ true
        → Step s (record s {
          pool = take_id p d s.pool;
          calls = registering s.pool.next_task_id interval prio f ∷ s.calls;
        })
    token :
        (xs ys : List Pending) (id interval : ℕ) (prio : TaskPriority) (f : ℕ)
        → s.calls ≡ xs ++ registering id interval prio f ∷ ys
        → Step s (record s {
          pool = register p d s.pool id;
          calls = xs ++ kicking id interval prio f ∷ ys;
        })
    kick :
        (xs ys : List Pending) (now id interval : ℕ) (prio : TaskPriority) (f : ℕ)
        → s.calls ≡ xs ++ kicking id interval prio f ∷ ys
        → s.pool.config.enable_delayed_tasks ≡ true
        → Step s (record s {
          pool = take_id p d s.pool;
          calls =
              xs ++ placing (delayed_by p d s.pool now prio (recurring id interval prio f)) ∷ ys;
        })
    -- The stretch of either under the mutex.
    place :
        (xs ys : List Pending) (dt : DelayedTask) (s' : State p d)
        → s.calls ≡ xs ++ placing dt ∷ ys
        → place_delayed p d s.pool dt ≡ ok s'
        → Step s (record s { pool = s'; calls = xs ++ ys; accepted = dt.task ∷ s.accepted })
    cancel : (id : ℕ) → Step s (record s { pool = (cancel_task p d s.pool id).0 })
    -- `TaskHandle::Cancel`
    cancel_handle :
        (id : ℕ)
        → Step s (record s { pool = record s.pool { cancelled = update s.pool.cancelled id true } })
    pauses : Step s (record s { pool = pause p d s.pool })
    resumes : Step s (record s { pool = resume_pool p d s.pool })
    shuts_down : Step s (record s { pool = shut_down p d s.pool })
    shuts_down_now : Step s (record s {
      pool = shut_down_now p d s.pool;
      discarded = queued s.pool ++ waiting (d.contents s.pool.delayed_tasks) ++ s.discarded;
    })
    reset : (now : ℕ) → Step s (record s { pool = reset_stats p d s.pool now })
    limit : (n : ℕ) → Step s (record s { pool = set_max_queue_size p d s.pool n })
    -- The scheduler: its two loops.
    collect :
        (fuel now : ℕ) (b : Batch p d)
        → s.ready ≡ []
        → collect_ready p d fuel now s.pool ≡ ok b
        → Step s (record s {
          pool = b.pool;
          ready = b.ready;
          discarded = waiting b.dropped ++ s.discarded;
        })
    push : Step s (record s { pool = push_ready p d s.pool s.ready; ready = [] })
    -- A worker.
    work :
        (xs ys : List (ℕ × Phase)) (id : ℕ) (from : Phase) (s' : State p d) (to : Phase)
        → s.workers ≡ xs ++ (id, from) ∷ ys
        → Move s.pool id from s' to
        → Step s (at s xs (id, to) ys s')
    -- A worker carries a wrapped task to its end, or drops it as it is cancelled.
    finish :
        (xs ys : List (ℕ × Phase)) (id : ℕ) (t : Task)
        → s.workers ≡ xs ++ (id, ending t) ∷ ys
        → Step s (record (at s xs (id, looking) ys (end_task p d s.pool t)) {
          finished = t ∷ s.finished;
        })
    skip :
        (xs ys : List (ℕ × Phase)) (id : ℕ) (t : Task) (s' : State p d)
        → s.workers ≡ xs ++ (id, holding t) ∷ ys
        → begin_task p d s.pool t ≡ (s', none)
        → Step s (record (at s xs (id, looking) ys s') { discarded = t ∷ s.discarded })
    -- The body of a recurring task puts it into the delayed queue again.
    again :
        (xs ys : List (ℕ × Phase)) (id : ℕ) (t : Task) (dt : DelayedTask) (s' : State p d)
        → s.workers ≡ xs ++ (id, replacing t dt) ∷ ys
        → place_delayed p d s.pool dt ≡ ok s'
        → Step s (record (at s xs (id, ending t) ys s') { accepted = dt.task ∷ s.accepted })
    -- A worker leaves its loop: at a shutdown, or as it has been idle for longer than the timeout.
    leave :
        (xs ys : List (ℕ × Phase)) (id : ℕ)
        → s.workers ≡ xs ++ (id, unpaused) ∷ ys
        → s.pool.shutdown ≡ true
        → s.pool.stats.queue_size ≡ 0
        → Step s (record s { workers = xs ++ ys })
    retire :
        (xs ys : List (ℕ × Phase)) (id : ℕ)
        → s.workers ≡ xs ++ (id, idle) ∷ ys
        → s.pool.config.min_threads < s.pool.threads
        → Step s (record s { workers = xs ++ ys })
    -- The end of `Shutdown` and of `ShutdownNow`: the workers have been joined.
    joined :
        s.pool.shutdown ≡ true
        → s.workers ≡ []
        → Step s (record s { pool = clear_threads p d s.pool })

  abbrev pub start : State p d → System
  start s = record {
    pool = s;
    workers = [];
    expanding = 0;
    adding = s.config.initial_threads;
    calls = [];
    ready = [];
    accepted = [];
    finished = [];
    discarded = [];
  }

  -- What is reached from a new pool.
  pub data Reach (config : ThreadPoolConfig) : System → Type 0 where
    here : (s : State p d) (now : ℕ) → new_pool p d config now ≡ ok s → Reach config (start s)
    next : {s t : System} → Reach config s → Step s t → Reach config t
