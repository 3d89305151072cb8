-- ===== src/Concurrency/ThreadPool/Effects.antt =====
-- What the other operations of the pool do to the tasks in its queues.
use mathlib.Core.List.{Perm}
use yacul.Common.{
  tally-perm, Bool, ap, ◌∙◌, ◌⊎◌, leb, arith, zero, length, subst, sym, true, false, refl, ◌%◌,
  ◌==◌, inr, if◌then◌else◌, suc, inl, Option-cases, Bool-cases, ok, [], none, some, All, List, ℕ,
  ◌∷◌, ◌≡◌,
}
use yacul.Concurrency.ThreadPool.{
  PriorityTask, sub32, DelayedTask, ThreadPoolStats, with_stats, steal_from, pop_slot, Task, State,
  steal_task, take_local, dequeue_task, delayed_less, priority_less, MaxQueue,
}
use yacul.Concurrency.ThreadPool.Delayed.{with_delayed, take_id, place_delayed, register}
use yacul.Concurrency.ThreadPool.Counts.{calm, IsPushed, Effect, IsCounted}

-- The empty slots of the local queues give nothing.
pop_slot-none :
    (p : MaxQueue priority_less) (d : MaxQueue delayed_less) (k : ℕ) (qs : List (List Task))
    → All (λ (q : List Task). q ≡ []) qs
    → pop_slot p d k qs ≡ none
pop_slot-none p d k [] a = refl
pop_slot-none p d zero ([] ∷ qs) a = refl
pop_slot-none p d zero ((t ∷ ts) ∷ qs) a = cc
pop_slot-none p d (suc k) (q ∷ qs) a = rw (pop_slot-none p d k qs a.1) refl

module _ (p : MaxQueue priority_less) (d : MaxQueue delayed_less) where
  steal_from-none :
      (qs : List (List Task)) (own i k : ℕ)
      → All (λ (q : List Task). q ≡ []) qs
      → steal_from p d qs own i k ≡ none
  steal_from-none qs own i zero a = refl
  steal_from-none qs own i (suc k) a = elim (Bool-cases (i == own)) [
    | inl e ↦ rw (e, steal_from-none qs own (suc i) k a) refl
    | inr e ↦ rw (e, pop_slot-none p d i qs a, steal_from-none qs own (suc i) k a) refl
  ]

  -- The local queues of a pool stay empty, so neither a worker's own slot nor a theft yields a task.
  pub local-none :
      (s : State p d) (id : ℕ)
      → IsCounted p d s
      → (take_local p d s id ≡ none) × (steal_task p d s id ≡ none)
  unfolding take_local steal_task
  local-none s id k = (
    elim (Bool-cases s.config.enable_work_stealing) [
      | inl on ↦
          rw
            (
              on,
              pop_slot-none p d (id % length s.thread_local_queues) s.thread_local_queues k.local,
            )
            refl
      | inr off ↦ rw off refl
    ],
    rw
        (
          steal_task,
          steal_from-none s.thread_local_queues (id % length s.thread_local_queues) 0
              (length s.thread_local_queues) k.local,
        )
        refl,
  )

  abbrev pub uncounted : ThreadPoolStats → ThreadPoolStats
  uncounted c = record c { queue_size = sub32 c.queue_size 1 }

  -- `s` is `s'` with the task in its queues.
  pulled-Effect :
      (s s' : State p d) (t : Task)
      → IsPushed p d s' s (t ∷ [])
      → Effect p d s (with_stats p d s' uncounted) [] (t ∷ [])
  pulled-Effect s s' t i = record {
    keeps = λ k. record {
      shared = rw (sym i.stats) (omega (arith, i.count (λ t. true), k.shared));
      delayed = rw (sym i.stats, sym i.delayed) k.delayed;
      local = rw (sym i.local) k.local;
    };
    moves = λ f. rw (sym i.delayed) (omega (arith, i.count f));
    active = rw (sym i.stats) refl;
  }

  -- Where the task `t` stood that left the pool in the state `rest`: in front of the priority queue, or, if that is
  -- off or empty, of the other one.
  abbrev pub IsFirst : State p d → Task → State p d → Type 0
  IsFirst s t rest =
      ((x : PriorityTask) × (x.task ≡ t)
        × (s.config.enable_priority_queue ≡ true)
        × Perm (p.contents s.priority_tasks) (x ∷ p.contents rest.priority_tasks)
        × All (λ y. leb y.priority x.priority ≡ true) (p.contents s.priority_tasks))
      ⊎ (s.tasks ≡ t ∷ rest.tasks)
        × ((s.config.enable_priority_queue ≡ false) ⊎ (p.contents s.priority_tasks ≡ []))

  pub record IsDequeued (s : State p d) (t : Task) (s' : State p d) : Type 0 where
    pub rest : State p d
    pub pulled : IsPushed p d rest s (t ∷ [])
    pub first : IsFirst s t rest
    pub counted : with_stats p d rest uncounted ≡ s'

  not_below :
      (x : PriorityTask) (ys : List PriorityTask)
      → All (λ y. priority_less x y ≡ false) ys
      → All (λ y. leb y.priority x.priority ≡ true) ys
  unfolding priority_less
  not_below x [] a = tt
  not_below x (y ∷ ys) a = (ground arith, not_below x ys a.1)

  from_priority :
      (s : State p d) (x : PriorityTask) (r : p.Queue) (t : Task) (s' : State p d)
      → s.config.enable_priority_queue ≡ true
      → p.pop s.priority_tasks ≡ some (x, r)
      → dequeue_task p d s ≡ some (t, s')
      → IsDequeued s t s'
  unfolding dequeue_task
  from_priority s x r t s' on popped e =
      let rest : State p d = record s { priority_tasks = r } in
      let front : (if s.config.enable_priority_queue then p.pop s.priority_tasks else none)
          ≡ some (x, r) =
        rw on popped in
      let got : dequeue_task p d s ≡ some (x.task, with_stats p d rest uncounted) =
        rw (dequeue_task, front) refl in
      let task : x.task ≡ t = cc in
      let laws = p.popped s.priority_tasks x r popped in
      record {
        rest = rest;
        pulled = record {
          count = λ f.
              rw (sym task) (omega (arith, tally-perm (λ (x : PriorityTask). f x.task) laws.0));
          delayed = refl;
          stats = refl;
          local = refl;
        };
        first = inl (x, task, on, laws.0, not_below x (p.contents s.priority_tasks) laws.1);
        counted = cc;
      }

  from_fifo :
      (s : State p d) (t : Task) (s' : State p d) (ts : List Task)
      → s.tasks ≡ ts
      → (if s.config.enable_priority_queue then p.pop s.priority_tasks else none) ≡ none
      → dequeue_task p d s ≡ some (t, s')
      → IsDequeued s t s'
  unfolding dequeue_task
  from_fifo s t s' [] g nothing e =
      let missed : dequeue_task p d s ≡ none = rw (dequeue_task, nothing, g) refl in absurd (cc)
  from_fifo s t s' (u ∷ us) g nothing e =
      let rest : State p d = record s { tasks = us } in
      let got : dequeue_task p d s ≡ some (u, with_stats p d rest uncounted) =
        rw (dequeue_task, nothing, g) refl in
      let task : u ≡ t = cc in
      record {
        rest = rest;
        pulled = record {
          count = λ f. rw (g, sym task) (omega arith);
          delayed = refl;
          stats = refl;
          local = refl;
        };
        first = inr (
          g ∙ ap (λ t. t ∷ us) task,
          elim (Bool-cases s.config.enable_priority_queue) [
            | inl on ↦ inr (p.drained s.priority_tasks (ground arith))
            | inr off ↦ inl off
          ],
        );
        counted = cc;
      }

  -- DequeueTask takes a task off the queues of the pool, and counts it out. It is a task of the highest
  -- priority in the priority queue; if that is off or empty, it is the first of the other queue.
  pub dequeue_task-IsDequeued :
      (s : State p d) (t : Task) (s' : State p d)
      → dequeue_task p d s ≡ some (t, s')
      → IsDequeued s t s'
  dequeue_task-IsDequeued s t s' e =
      elim (Option-cases
        (if s.config.enable_priority_queue then p.pop s.priority_tasks else none)) [
          | inl nothing ↦ from_fifo s t s' s.tasks refl nothing e
          | inr ((x, r), found) ↦ elim (Bool-cases s.config.enable_priority_queue) [
            | inl on ↦ from_priority s x r t s' on (ground arith) e
            | inr off ↦ absurd (ground arith)
          ]
        ]

  pub dequeue_task-Effect :
      (s : State p d) (t : Task) (s' : State p d)
      → dequeue_task p d s ≡ some (t, s')
      → Effect p d s s' [] (t ∷ [])
  dequeue_task-Effect s t s' e =
      let q = dequeue_task-IsDequeued s t s' e in
      subst (λ s'. Effect p d s s' [] (t ∷ [])) q.counted (pulled-Effect s q.rest t q.pulled)

  pub take_id-Effect : (s : State p d) → Effect p d s (take_id p d s) [] []
  unfolding take_id
  take_id-Effect s = calm p d s _ refl refl refl refl refl refl refl

  pub register-Effect : (s : State p d) (id : ℕ) → Effect p d s (register p d s id) [] []
  unfolding register
  register-Effect s id = calm p d s _ refl refl refl refl refl refl refl

  pub place_delayed-Effect :
      (s : State p d) (dt : DelayedTask) (s' : State p d)
      → place_delayed p d s dt ≡ ok s'
      → Effect p d s s' (dt.task ∷ []) []
  unfolding place_delayed
  place_delayed-Effect s dt s' e = elim (Bool-cases s.shutdown) [
    | inl down ↦ absurd (ground arith)
    | inr up ↦
        let made = with_delayed p d s dt in
        let got : place_delayed p d s dt ≡ ok made = rw up refl in
        let same : made ≡ s' = cc in
        let count = λ (f : Task → Bool).
          tally-perm (λ (x : DelayedTask). f x.task) (d.emplaced s.delayed_tasks dt) in
        subst (λ s'. Effect p d s s' (dt.task ∷ []) []) same
          (record {
            keeps = λ k. record {
              shared = k.shared;
              delayed = omega (arith, count (λ t. true), k.delayed);
              local = k.local;
            };
            moves = λ f. omega (arith, count f);
            active = refl;
          })
  ]
