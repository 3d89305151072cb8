-- ===== src/Concurrency/ThreadPool/Collecting.antt =====
-- Which delayed tasks the scheduler moves, in which order, and which it leaves.
use yacul.Common.{
  tally-perm, tally-le, tally-all, tally, subst, ◌∙◌, sym, ap, if◌then◌else◌, some, zero,
  Option-cases, ◌&&◌, ◌+◌, inr, suc, refl, ok, inl, leb, Bool-cases, [], arith, ◌≤◌, true, length,
  false, not, All, ltb, Bool, List, ℕ, ◌∷◌, ◌≡◌, ◌<◌,
}
use yacul.Concurrency.ThreadPool.{
  has_key, State, priority_less, delayed_less, MaxQueue, DelayedTask,
}
use yacul.Concurrency.ThreadPool.Delayed.{Batch, pop_delayed, collect_ready}

tally-All :
    {A : Type 0} (f : A → Bool) (xs : List A) → tally f xs ≡ length xs → All (λ x. f x ≡ true) xs
tally-All f [] e = tt
tally-All f (x ∷ xs) e = elim (Bool-cases (f x)) [
  | inl y ↦ (y, tally-All f xs (ground (arith, tally-le f xs)))
  | inr n ↦ absurd (ground (arith, tally-le f xs))
]

All-tally :
    {A : Type 0} (f : A → Bool) (xs : List A) → All (λ x. f x ≡ true) xs → tally f xs ≡ length xs
All-tally f [] a = refl
All-tally f (x ∷ xs) a = rw a.0 (omega (arith, All-tally f xs a.1))

-- No task of the list is less than a later one.
abbrev pub Ordered : List DelayedTask → Type 0
Ordered [] = Unit
Ordered (x ∷ xs) = All (λ y. not (delayed_less x y) ≡ true) xs × Ordered xs

not_less_All :
    (x : DelayedTask) (ys : List DelayedTask)
    → All (λ y. delayed_less x y ≡ false) ys
    → All (λ y. not (delayed_less x y) ≡ true) ys
not_less_All x [] a = tt
not_less_All x (y ∷ ys) a = (ground arith, not_less_All x ys a.1)

-- Behind a task that is not due, none is.
early_behind :
    (now : ℕ) (x : DelayedTask) (ys : List DelayedTask)
    → ltb now x.execute_time ≡ true
    → All (λ y. delayed_less x y ≡ false) ys
    → All (λ y. ltb now y.execute_time ≡ true) ys
unfolding delayed_less
early_behind now x [] e a = tt
early_behind now x (y ∷ ys) e a = (ground arith, early_behind now x ys e a.1)

module _ (p : MaxQueue priority_less) (d : MaxQueue delayed_less) where
  -- The batch `b` of the delayed tasks of `s` at the time `now`: those that it takes are due, the ready ones in
  -- the order of execution times and then of falling priorities, the dropped ones with their flags set;
  -- those that it leaves are not due; each task is in one of the three places; and the shared and the
  -- local queues stay as they are.
  pub record IsBatch (s : State p d) (now : ℕ) (b : Batch p d) : Type 0 where
    pub ready_due : All (λ x. leb x.execute_time now ≡ true) b.ready
    pub dropped_due : All (λ x. leb x.execute_time now ≡ true) b.dropped
    pub early : All (λ x. ltb now x.execute_time ≡ true) (d.contents b.pool.delayed_tasks)
    pub ordered : Ordered b.ready
    pub flagged : All (λ x. s.cancelled x.task_id ≡ true) b.dropped
    pub config : b.pool.config ≡ s.config
    pub local : b.pool.thread_local_queues ≡ s.thread_local_queues
    pub tasks : b.pool.tasks ≡ s.tasks
    pub priority_tasks : b.pool.priority_tasks ≡ s.priority_tasks
    pub parts :
        (f : DelayedTask → Bool)
        → tally f (d.contents s.delayed_tasks)
          ≡ tally f b.ready + tally f b.dropped + tally f (d.contents b.pool.delayed_tasks)

  record IsRest (s : State p d) (r : d.Queue) (t : State p d) : Type 0 where
    delayed_tasks : t.delayed_tasks ≡ r
    cancelled : t.cancelled ≡ s.cancelled
    config : t.config ≡ s.config
    local : t.thread_local_queues ≡ s.thread_local_queues
    tasks : t.tasks ≡ s.tasks
    priority_tasks : t.priority_tasks ≡ s.priority_tasks

  pop_delayed-IsRest :
      (s : State p d) (dt : DelayedTask) (r : d.Queue) → IsRest s r (pop_delayed p d s dt r)
  unfolding pop_delayed
  pop_delayed-IsRest s dt r =
      elim (Bool-cases (has_key dt.task_id s.cancelled_tasks && s.cancelled dt.task_id)) [
        | inl e ↦ rw e (record {
          delayed_tasks = refl;
          cancelled = refl;
          config = refl;
          local = refl;
          tasks = refl;
          priority_tasks = refl;
        })
        | inr e ↦ rw e (record {
          delayed_tasks = refl;
          cancelled = refl;
          config = refl;
          local = refl;
          tasks = refl;
          priority_tasks = refl;
        })
      ]

  pub collect_ready-IsBatch :
      (fuel now : ℕ) (s : State p d)
      → length (d.contents s.delayed_tasks) < fuel
      → (b : Batch p d) × (collect_ready p d fuel now s ≡ ok b) × IsBatch s now b
  unfolding collect_ready
  collect_ready-IsBatch zero now s f = absurd (omega arith)
  collect_ready-IsBatch (suc fuel) now s f = elim (Option-cases (d.pop s.delayed_tasks)) [
    | inl nothing ↦ (
      stopped,
      rw (collect_ready, nothing) refl,
      stop (rw (d.drained s.delayed_tasks nothing) tt),
    )
    | inr ((dt, r), found) ↦ elim (Bool-cases (ltb now dt.execute_time)) [
      | inl early ↦ (
        stopped,
        rw (collect_ready, found, early) refl,
        stop (early_behind now dt _ early (d.popped s.delayed_tasks dt r found).1),
      )
      | inr due ↦
          joined dt r found due
            (collect_ready-IsBatch fuel now (pop_delayed p d s dt r) (shorter dt r found))
    ]
  ]
    where
      stopped : Batch p d
      stopped = record { pool = s; ready = []; dropped = [] }

      stop :
          All (λ x. ltb now x.execute_time ≡ true) (d.contents s.delayed_tasks)
          → IsBatch s now stopped
      stop a = record {
        ready_due = tt;
        dropped_due = tt;
        early = a;
        ordered = tt;
        flagged = tt;
        config = refl;
        local = refl;
        tasks = refl;
        priority_tasks = refl;
        parts = λ f. omega arith;
      }

      shorter :
          (dt : DelayedTask) (r : d.Queue)
          → d.pop s.delayed_tasks ≡ some (dt, r)
          → length (d.contents (pop_delayed p d s dt r).delayed_tasks) < fuel
      shorter dt r found =
          let every : DelayedTask → Bool = λ x. true in
          rw (pop_delayed-IsRest s dt r).delayed_tasks (
            omega (
              arith,
              f,
              tally-perm every (d.popped s.delayed_tasks dt r found).0,
              tally-all (d.contents s.delayed_tasks),
              tally-all (d.contents r),
            ))

      -- The ready tasks that come later are not before the first.
      behind :
          (dt : DelayedTask) (r : d.Queue) (b : Batch p d)
          → d.pop s.delayed_tasks ≡ some (dt, r)
          → ((f : DelayedTask → Bool)
              → tally f (d.contents r)
                ≡ tally f b.ready + tally f b.dropped + tally f (d.contents b.pool.delayed_tasks))
          → All (λ y. not (delayed_less dt y) ≡ true) b.ready
      behind dt r b found parts =
          let g : DelayedTask → Bool = λ y. not (delayed_less dt y) in
          let every : DelayedTask → Bool = λ x. true in
          let q = d.contents s.delayed_tasks in
          let laws = d.popped s.delayed_tasks dt r found in
          let all = All-tally g q (not_less_All dt q laws.1) in
          let first : (if g dt then 1 else 0) ≤ 1 = ground arith in
          let left = d.contents b.pool.delayed_tasks in
          tally-All g b.ready (
            omega (
              arith,
              all,
              first,
              tally-perm g laws.0,
              tally-perm every laws.0,
              tally-all q,
              tally-all (d.contents r),
              tally-le g (d.contents r),
              parts g,
              parts every,
              tally-all b.ready,
              tally-all b.dropped,
              tally-all left,
              tally-le g b.ready,
              tally-le g b.dropped,
              tally-le g left,
            ))

      joined :
          (dt : DelayedTask) (r : d.Queue)
          → d.pop s.delayed_tasks ≡ some (dt, r)
          → ltb now dt.execute_time ≡ false
          → (b : Batch p d) × (collect_ready p d fuel now (pop_delayed p d s dt r) ≡ ok b)
            × IsBatch (pop_delayed p d s dt r) now b
          → (b : Batch p d) × (collect_ready p d (suc fuel) now s ≡ ok b) × IsBatch s now b
      joined dt r found due (b, e, i) =
          let rest = pop_delayed-IsRest s dt r in
          let perm = (d.popped s.delayed_tasks dt r found).0 in
          let parts : (f : DelayedTask → Bool)
              → tally f (d.contents r)
                ≡ tally f b.ready + tally f b.dropped + tally f (d.contents b.pool.delayed_tasks) =
            λ f. ap (λ q. tally f (d.contents q)) (sym rest.delayed_tasks) ∙ i.parts f in
          let flagged : All (λ x. s.cancelled x.task_id ≡ true) b.dropped =
            subst (λ c. All (λ x. c x.task_id ≡ true) b.dropped) rest.cancelled i.flagged in
          elim (Bool-cases (has_key dt.task_id s.cancelled_tasks && s.cancelled dt.task_id)) [
            | inl drops ↦ (
              record b { dropped = dt ∷ b.dropped },
              rw (collect_ready, found, due, e, drops) refl,
              record {
                ready_due = i.ready_due;
                dropped_due = (ground arith, i.dropped_due);
                early = i.early;
                ordered = i.ordered;
                flagged = (ground arith, flagged);
                config = i.config ∙ rest.config;
                local = i.local ∙ rest.local;
                tasks = i.tasks ∙ rest.tasks;
                priority_tasks = i.priority_tasks ∙ rest.priority_tasks;
                parts = λ f. omega (arith, parts f, tally-perm f perm);
              },
            )
            | inr keeps ↦ (
              record b { ready = dt ∷ b.ready },
              rw (collect_ready, found, due, e, keeps) refl,
              record {
                ready_due = (ground arith, i.ready_due);
                dropped_due = i.dropped_due;
                early = i.early;
                ordered = (behind dt r b found parts, i.ordered);
                flagged = flagged;
                config = i.config ∙ rest.config;
                local = i.local ∙ rest.local;
                tasks = i.tasks ∙ rest.tasks;
                priority_tasks = i.priority_tasks ∙ rest.priority_tasks;
                parts = λ f. omega (arith, parts f, tally-perm f perm);
              },
            )
          ]
