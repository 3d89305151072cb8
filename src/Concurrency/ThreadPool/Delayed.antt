-- ===== src/Concurrency/ThreadPool/Delayed.antt =====
-- Delayed and recurring tasks: how they are submitted, how the scheduler moves the due ones to the shared
-- queue, and what a worker does with a task.
use yacul.Common.{
  zero, ltb, ◌&&◌, [], not, leb, check, suc, ◌∷◌, abort, false, some, update, if◌then◌else◌, ◌+◌,
  add64, ok, ◌||◌, Run, List, Bool, none, Option, ℕ, ◌>>=◌, ◌>>◌,
}
use yacul.Concurrency.ThreadPool.{
  has_key, erase_key, sub32, level, put_key, add32, delayed, DelayedTask, regular, TaskPriority,
  Job, with_stats, push_task, State, Task, delayed_less, priority_less, MaxQueue,
}

module _ (p : MaxQueue priority_less) (d : MaxQueue delayed_less) where
  abbrev pub delayed_by : State p d → ℕ → TaskPriority → Job → DelayedTask
  delayed_by s time prio j = record {
    execute_time = time;
    priority = prio;
    task = delayed s.next_task_id j;
    task_id = s.next_task_id;
  }

  -- The fetch_add of next_task_id_, whose old value is the id of the new task, and the flag of that task.
  unfoldable pub take_id : State p d → State p d
  take_id s = record s {
    next_task_id = add64 s.next_task_id 1;
    cancelled = update s.cancelled s.next_task_id false;
  }

  -- The stretch of SubmitDelayedWithPriority under delayed_queue_mutex_, behind its CHECK.
  abbrev pub with_delayed : State p d → DelayedTask → State p d
  with_delayed s dt = record s {
    delayed_tasks = d.emplace s.delayed_tasks dt;
    cancelled_tasks = put_key dt.task_id s.cancelled_tasks;
    stats = record s.stats {
      delayed_tasks_submitted = add64 s.stats.delayed_tasks_submitted 1;
      delayed_queue_size = add32 s.stats.delayed_queue_size 1;
    };
  }

  unfoldable pub place_delayed : State p d → DelayedTask → Run (State p d)
  place_delayed s dt = check (not s.shutdown) >> ok (with_delayed s dt)

  -- `SubmitDelayedWithPriority` at the time `now` without a step of another thread in between: the id of the
  -- handle too.
  unfoldable pub submit_delayed : State p d → ℕ → ℕ → TaskPriority → Job → Run (State p d × ℕ)
  unfolding take_id place_delayed
  submit_delayed s now delay prio j = do
    check s.config.enable_delayed_tasks
    s' ← place_delayed (take_id s) (delayed_by s (now + delay) prio j)
    ok (s', s.next_task_id)

  -- The token of a recurring task under delayed_queue_mutex_.
  unfoldable pub register : State p d → ℕ → State p d
  register s id = record s { cancelled_tasks = put_key id s.cancelled_tasks }

  abbrev is_dropped : State p d → DelayedTask → Bool
  is_dropped s dt = has_key dt.task_id s.cancelled_tasks && s.cancelled dt.task_id

  -- The first loop of `ProcessDelayedTasks` after `delayed_tasks_.pop()` gave `dt` and left `r`.
  unfoldable pub pop_delayed : State p d → DelayedTask → d.Queue → State p d
  pop_delayed s dt r =
      let popped : State p d = record s {
        delayed_tasks = r;
        stats = record s.stats { delayed_queue_size = sub32 s.stats.delayed_queue_size 1 };
      } in
      if is_dropped s dt
      then record popped {
        cancelled_tasks = erase_key dt.task_id s.cancelled_tasks;
        stats = record popped.stats { tasks_cancelled = add64 s.stats.tasks_cancelled 1 };
      }
      else popped

  pub record Batch : Type 0 where
    pub pool : State p d
    pub ready : List DelayedTask
    pub dropped : List DelayedTask

  -- That loop: the due tasks that are not cancelled, in their order, and the cancelled ones. Fuel: one for each
  -- delayed task, and one.
  unfoldable pub collect_ready : ℕ → ℕ → State p d → Run Batch
  unfolding pop_delayed
  collect_ready zero now s = abort
  collect_ready (suc fuel) now s = elim (d.pop s.delayed_tasks) [
    | none ↦ ok (record { pool = s; ready = []; dropped = [] })
    | some (dt, r) ↦
        let rest = collect_ready fuel now (pop_delayed s dt r) in
        if ltb now dt.execute_time then ok (record { pool = s; ready = []; dropped = [] }) else (do
          b ← rest
          ok (
              if is_dropped s dt
              then record b { dropped = dt ∷ b.dropped }
              else record b { ready = dt ∷ b.ready }))
  ]

  -- The second loop of `ProcessDelayedTasks`.
  unfoldable pub push_ready : State p d → List DelayedTask → State p d
  unfolding push_task
  push_ready s [] = s
  push_ready s (dt ∷ dts) =
      push_ready
        (with_stats p d (push_task p d s (level dt.priority) dt.task)
          (λ c. record c { queue_size = add32 c.queue_size 1 }))
        dts

  -- `ProcessDelayedTasks` without a step of another thread between its two loops.
  unfoldable pub process_delayed_tasks : ℕ → ℕ → State p d → Run (State p d)
  unfolding collect_ready push_ready
  process_delayed_tasks fuel now s = do b ← collect_ready fuel now s; ok (push_ready b.pool b.ready)

  -- How long `DelaySchedulerLoop` sleeps at most.
  unfoldable pub next_wake : State p d → ℕ → ℕ
  next_wake s now = elim (d.pop s.delayed_tasks) [
    | none ↦ now + s.config.delay_scheduler_interval
    | some (dt, r) ↦ dt.execute_time
  ]

  -- The wait of `DelaySchedulerLoop` ends at a notification.
  unfoldable pub scheduler_awake : State p d → ℕ → Bool
  scheduler_awake s now =
      s.shutdown
      || elim (d.pop s.delayed_tasks) [ none ↦ false | some (dt, r) ↦ leb dt.execute_time now ]

  abbrev pub is_cancelled : State p d → Task → Bool
  is_cancelled s (regular j) = false
  is_cancelled s (delayed id j) = s.cancelled id

  abbrev pub job_of : Task → Job
  job_of (regular j) = j
  job_of (delayed id j) = j

  -- A wrapped task up to the call of its packaged task: `none` where it returns at once.
  unfoldable pub begin_task : State p d → Task → State p d × Option Job
  begin_task s t =
      if is_cancelled s t
      then (with_stats p d s (λ c. record c { tasks_cancelled = add64 c.tasks_cancelled 1 }), none)
      else (
        with_stats p d s (λ c. record c { active_threads = add32 c.active_threads 1 }),
        some (job_of t),
      )

  -- The first test in the body of the recurring task `id`, and the second one.
  unfoldable pub recurring_stops : State p d → ℕ → Bool
  recurring_stops s id = s.cancelled id || s.shutdown

  -- The function of a caller has run in the body of a recurring task, and has thrown or not.
  unfoldable pub count_run : State p d → Bool → State p d
  count_run s throws = with_stats p d s (λ c.
      if throws
      then record c { tasks_failed = add64 c.tasks_failed 1 }
      else record c { tasks_completed = add64 c.tasks_completed 1 })

  -- The rest of a wrapped task.
  unfoldable pub end_task : State p d → Task → State p d
  end_task s t = with_stats p d s (λ c. record c {
    tasks_completed = add64 c.tasks_completed 1;
    delayed_tasks_executed = elim t [
      | regular j ↦ c.delayed_tasks_executed
      | delayed id j ↦ add64 c.delayed_tasks_executed 1
    ];
    active_threads = sub32 c.active_threads 1;
  })
