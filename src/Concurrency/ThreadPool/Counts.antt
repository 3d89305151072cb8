-- ===== src/Concurrency/ThreadPool/Counts.antt =====
-- Tasks counted by a test, and what each operation of the pool does to the tasks in its queues.
use yacul.Common.{
  tally-perm, tally, tally-append, sym, subst, add64, inr, All, ◌^◌, inl, ok, Bool-cases, ◌%◌, refl,
  [], true, arith, ◌+◌, List, Bool, ℕ, ◌∷◌, ◌≡◌,
}
use yacul.Concurrency.ThreadPool.{
  has_key, cancel_task, shut_down, reset_stats, clear_threads, set_max_queue_size, pause,
  resume_pool, level, is_full, with_stats, add32, ThreadPoolStats, PriorityTask, DelayedTask,
  TaskPriority, Task, enqueue_task, push_task, State, delayed_less, priority_less, MaxQueue,
}

module _ (p : MaxQueue priority_less) (d : MaxQueue delayed_less) where
  -- The tasks in the queues of the pool that pass the test.
  abbrev pub in_shared : (Task → Bool) → State p d → ℕ
  in_shared f s =
      tally f s.tasks + tally (λ (x : PriorityTask). f x.task) (p.contents s.priority_tasks)

  abbrev pub in_delayed : (Task → Bool) → State p d → ℕ
  in_delayed f s = tally (λ (x : DelayedTask). f x.task) (d.contents s.delayed_tasks)

  -- The counters are the sizes of the queues, and the local queues are empty.
  pub record IsCounted (s : State p d) : Type 0 where
    pub shared : s.stats.queue_size ≡ in_shared (λ t. true) s % 2 ^ 32
    pub delayed : s.stats.delayed_queue_size ≡ in_delayed (λ t. true) s % 2 ^ 32
    pub local : All (λ (q : List Task). q ≡ []) s.thread_local_queues

  -- The tasks `ins` come to the queues, and `outs` go.
  pub record Effect (s s' : State p d) (ins outs : List Task) : Type 0 where
    pub keeps : IsCounted s → IsCounted s'
    pub moves :
        (f : Task → Bool)
        → in_shared f s + in_delayed f s + tally f ins
          ≡ in_shared f s' + in_delayed f s' + tally f outs
    pub active : s'.stats.active_threads ≡ s.stats.active_threads

  -- The pool `s'` is `s` but for its shared queues, to which the tasks `ins` came.
  pub record IsPushed (s s' : State p d) (ins : List Task) : Type 0 where
    pub count : (f : Task → Bool) → in_shared f s' ≡ in_shared f s + tally f ins
    pub delayed : s'.delayed_tasks ≡ s.delayed_tasks
    pub stats : s'.stats ≡ s.stats
    pub local : s'.thread_local_queues ≡ s.thread_local_queues

  pub push_task-IsPushed :
      (s : State p d) (l : ℕ) (t : Task) → IsPushed s (push_task p d s l t) (t ∷ [])
  unfolding push_task
  push_task-IsPushed s l t = elim (Bool-cases s.config.enable_priority_queue) [
    | inl on ↦ rw on (record {
      count = λ f. omega (
        arith,
        tally-perm (λ (x : PriorityTask). f x.task)
            (p.emplaced s.priority_tasks (record { priority = l; task = t })),
      );
      delayed = refl;
      stats = refl;
      local = refl;
    })
    | inr off ↦ rw off (record {
      count = λ f. omega (arith, tally-append f s.tasks (t ∷ []));
      delayed = refl;
      stats = refl;
      local = refl;
    })
  ]

  -- A push, and its counter.
  pub pushed-Effect :
      (s s' : State p d) (t : Task) (g : ThreadPoolStats → ThreadPoolStats)
      → IsPushed s s' (t ∷ [])
      → ((g s.stats).queue_size ≡ add32 s.stats.queue_size 1)
      → ((g s.stats).delayed_queue_size ≡ s.stats.delayed_queue_size)
      → ((g s.stats).active_threads ≡ s.stats.active_threads)
      → Effect s (with_stats p d s' g) (t ∷ []) []
  pushed-Effect s s' t g i q e a = record {
    keeps = λ k. record {
      shared = rw i.stats (omega (arith, i.count (λ t. true), k.shared, q));
      delayed = rw (i.stats, i.delayed) (omega (arith, k.delayed, e));
      local = rw i.local k.local;
    };
    moves = λ f. rw i.delayed (omega (arith, i.count f));
    active = rw i.stats a;
  }

  pub enqueue_task-Effect :
      (s : State p d) (prio : TaskPriority) (t : Task) (s' : State p d)
      → enqueue_task p d s prio t ≡ ok (s', true)
      → Effect s s' (t ∷ []) []
  unfolding enqueue_task
  enqueue_task-Effect s prio t s' e = elim (Bool-cases s.shutdown) [
    | inl down ↦ absurd (ground arith)
    | inr up ↦ elim (Bool-cases (is_full p d s)) [
      | inl full ↦ absurd (ground arith)
      | inr space ↦
          let g : ThreadPoolStats → ThreadPoolStats = λ c. record c {
            tasks_submitted = add64 c.tasks_submitted 1;
            queue_size = add32 c.queue_size 1;
          } in
          let same : with_stats p d (push_task p d s (level prio) t) g ≡ s' = ground arith in
          subst (λ s'. Effect s s' (t ∷ []) []) same
            (pushed-Effect s _ t g (push_task-IsPushed s (level prio) t) refl refl refl)
    ]
  ]

  -- The queues and their counters stay as they are.
  pub calm :
      (s s' : State p d)
      → s.tasks ≡ s'.tasks
      → s.priority_tasks ≡ s'.priority_tasks
      → s.delayed_tasks ≡ s'.delayed_tasks
      → s.thread_local_queues ≡ s'.thread_local_queues
      → s.stats.queue_size ≡ s'.stats.queue_size
      → s.stats.delayed_queue_size ≡ s'.stats.delayed_queue_size
      → s.stats.active_threads ≡ s'.stats.active_threads
      → Effect s s' [] []
  calm s s' t q d' l n m a = record {
    keeps = λ k. record {
      shared = rw (sym t, sym q, sym n) k.shared;
      delayed = rw (sym d', sym m) k.delayed;
      local = rw (sym l) k.local;
    };
    moves = λ f. rw (t, q, d') refl;
    active = sym a;
  }

  pub cancel_task-Effect : (s : State p d) (id : ℕ) → Effect s (cancel_task p d s id).0 [] []
  unfolding cancel_task
  cancel_task-Effect s id = elim (Bool-cases (has_key id s.cancelled_tasks)) [
    | inl known ↦ rw known (calm s _ refl refl refl refl refl refl refl)
    | inr unknown ↦ rw unknown (calm s _ refl refl refl refl refl refl refl)
  ]

  pub pause-Effect : (s : State p d) → Effect s (pause p d s) [] []
  unfolding pause
  pause-Effect s = calm s _ refl refl refl refl refl refl refl

  pub resume_pool-Effect : (s : State p d) → Effect s (resume_pool p d s) [] []
  unfolding resume_pool
  resume_pool-Effect s = calm s _ refl refl refl refl refl refl refl

  pub shut_down-Effect : (s : State p d) → Effect s (shut_down p d s) [] []
  unfolding shut_down
  shut_down-Effect s = calm s _ refl refl refl refl refl refl refl

  pub clear_threads-Effect : (s : State p d) → Effect s (clear_threads p d s) [] []
  unfolding clear_threads
  clear_threads-Effect s = calm s _ refl refl refl refl refl refl refl

  pub reset_stats-Effect : (s : State p d) (now : ℕ) → Effect s (reset_stats p d s now) [] []
  unfolding reset_stats
  reset_stats-Effect s now = calm s _ refl refl refl refl refl refl refl

  pub set_max_queue_size-Effect :
      (s : State p d) (n : ℕ) → Effect s (set_max_queue_size p d s n) [] []
  unfolding set_max_queue_size
  set_max_queue_size-Effect s n = calm s _ refl refl refl refl refl refl refl
