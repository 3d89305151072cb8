-- ===== src/Concurrency/ThreadPool/Places.antt =====
-- Where the tasks of the pool are, in every state that its threads can reach.
use mathlib.Core.List.{append-nil}
use yacul.Concurrency.ThreadPool.System.{
  waiting, ending, looking, queued, holding, at, Phase, System,
}
use yacul.Common.{
  tally-map, tally, tally-append, true, false, map, if◌then◌else◌, All, subst, inl, inr, ok,
  Bool-cases, none, refl, sym, add64, arith, ap, ◌^◌, ◌∙◌, ◌+◌, ◌%◌, [], Bool, List, ℕ, ◌∷◌, ◌++◌,
  ◌≡◌,
}
use yacul.Concurrency.ThreadPool.{
  DelayedTask, PriorityTask, with_stats, ThreadPoolStats, shut_down_now, add_worker_thread, State,
  Task, delayed_less, priority_less, MaxQueue,
}
use yacul.Concurrency.ThreadPool.Counts.{in_delayed, in_shared, Effect, IsCounted}
use yacul.Concurrency.ThreadPool.Moves.{
  tally-carried, carried, activities-middle, activity, carries, Moved, activities,
}
use yacul.Concurrency.ThreadPool.Batches.{collect_ready-Effect, push_ready-Effect, tasks_of}
use yacul.Concurrency.ThreadPool.Delayed.{
  is_cancelled, collect_ready, begin_task, push_ready, end_task, Batch,
}

module _ (p : MaxQueue priority_less) (d : MaxQueue delayed_less) where
  -- The tasks in all places: the queues, the batch of the scheduler, the workers' hands, the finished and the
  -- discarded ones.
  abbrev pub placed : (Task → Bool) → System p d → ℕ
  placed f s =
      in_shared p d f s.pool
      + in_delayed p d f s.pool
      + tally f (tasks_of p d s.ready)
      + tally f (carried s.workers)
      + tally f s.finished
      + tally f s.discarded

  pub record Inv (s : System p d) : Type 0 where
    pub counted : IsCounted p d s.pool
    pub active : s.pool.stats.active_threads ≡ activities s.workers % 2 ^ 32
    pub once : (f : Task → Bool) → tally f s.accepted ≡ placed f s

  -- A call that only works on the queues.
  pub call-Inv :
      (s : System p d) (s' : State p d) (ins : List Task)
      → Inv s
      → Effect p d s.pool s' ins []
      → Inv (record s { pool = s'; accepted = ins ++ s.accepted })
  call-Inv s s' ins v e = record {
    counted = e.keeps v.counted;
    active = e.active ∙ v.active;
    once = λ f. omega (arith, v.once f, e.moves f, tally-append f ins s.accepted);
  }

  -- A worker makes a move.
  pub work-Inv :
      (s : System p d) (xs ys : List (ℕ × Phase)) (id : ℕ) (from : Phase) (s' : State p d)
      (to : Phase)
      → Inv s
      → s.workers ≡ xs ++ (id, from) ∷ ys
      → Moved p d s.pool from s' to
      → Inv (at p d s xs (id, to) ys s')
  work-Inv s xs ys id from s' to v e m =
      let before = ap (λ ws. activities ws) e ∙ activities-middle xs ys (id, from) in
      record {
        counted = m.keeps v.counted;
        active =
            m.active (activities (xs ++ ys)) (v.active ∙ ap (λ n. n % 2 ^ 32) before)
            ∙ ap (λ n. n % 2 ^ 32) (sym (activities-middle xs ys (id, to)));
        once = λ f.
            let was = ap (λ ws. tally f (carried ws)) e ∙ tally-carried f xs ys (id, from) in
            omega (arith, v.once f, m.moves f, was, tally-carried f xs ys (id, to));
      }

  -- A worker without a task leaves.
  pub exit-Inv :
      (s : System p d) (xs ys : List (ℕ × Phase)) (id : ℕ) (from : Phase)
      → Inv s
      → s.workers ≡ xs ++ (id, from) ∷ ys
      → carries from ≡ []
      → activity from ≡ 0
      → Inv (record s { workers = xs ++ ys })
  exit-Inv s xs ys id from v e c a =
      let before = ap (λ ws. activities ws) e ∙ activities-middle xs ys (id, from) in
      record {
        counted = v.counted;
        active = v.active ∙ omega arith;
        once = λ f.
            let was = ap (λ ws. tally f (carried ws)) e ∙ tally-carried f xs ys (id, from) in
            let none_held = ap (λ ts. tally f ts) c in omega (arith, v.once f, was, none_held);
      }

  -- A call that leaves the queues and their counters as they are.
  pub quiet-Inv :
      (s : System p d) (s' : State p d)
      → Inv s
      → Effect p d s.pool s' [] []
      → Inv (record s { pool = s' })
  quiet-Inv s s' v e =
      let i = call-Inv s s' [] v e in
      record { counted = i.counted; active = i.active; once = i.once }

  pub add-Inv :
      (s : System p d) (n : ℕ)
      → Inv s
      → Inv (record s {
        adding = n;
        pool = add_worker_thread p d s.pool;
        workers = s.workers ++ (s.pool.next_thread_id, looking) ∷ [];
      })
  unfolding add_worker_thread
  add-Inv s n v =
      let w : ℕ × Phase = (s.pool.next_thread_id, looking) in
      let same : s.workers ++ [] ≡ s.workers = append-nil s.workers in
      record {
        counted = record {
          shared = v.counted.shared;
          delayed = v.counted.delayed;
          local = v.counted.local;
        };
        active =
            let all : activities (s.workers ++ w ∷ []) ≡ activities s.workers =
              omega (arith, activities-middle s.workers [] w, ap (λ ws. activities ws) same) in
            v.active ∙ ap (λ n. n % 2 ^ 32) (sym all);
        once = λ f.
            omega (
              arith,
              v.once f,
              tally-carried f s.workers [] w,
              ap (λ ws. tally f (carried ws)) same,
            );
      }

  slots-empty :
      (b : Bool) (qs : List (List Task))
      → All (λ (q : List Task). q ≡ []) qs
      → All (λ (q : List Task). q ≡ []) (if b then map (λ (q : List Task). []) qs else qs)
  slots-empty false qs a = a
  slots-empty true [] a = tt
  slots-empty true (q ∷ qs) a = (refl, slots-empty true qs a.1)

  pub clear-Inv :
      (s : System p d)
      → Inv s
      → Inv (record s {
        pool = shut_down_now p d s.pool;
        discarded =
            queued p d s.pool ++ waiting p d (d.contents s.pool.delayed_tasks) ++ s.discarded;
      })
  unfolding shut_down_now
  clear-Inv s v = record {
    counted = record {
      shared = rw p.contents-nothing refl;
      delayed = rw d.contents-nothing refl;
      local =
          slots-empty s.pool.config.enable_work_stealing s.pool.thread_local_queues v.counted.local;
    };
    active = v.active;
    once = λ f.
        let shared = λ (x : PriorityTask). x.task in
        let late = λ (x : DelayedTask). x.task in
        let ps = p.contents s.pool.priority_tasks in
        let ds = d.contents s.pool.delayed_tasks in
        rw (p.contents-nothing, d.contents-nothing)
          (omega (
            arith,
            v.once f,
            tally-append f (queued p d s.pool ++ waiting p d ds) s.discarded,
            tally-append f s.pool.tasks (map shared ps),
            tally-append f (queued p d s.pool) (waiting p d ds),
            tally-map f shared ps,
            tally-map f late ds,
          ));
  }

  pub collect-Inv :
      (s : System p d) (fuel now : ℕ) (b : Batch p d)
      → Inv s
      → s.ready ≡ []
      → collect_ready p d fuel now s.pool ≡ ok b
      → Inv (record s {
        pool = b.pool;
        ready = b.ready;
        discarded = waiting p d b.dropped ++ s.discarded;
      })
  collect-Inv s fuel now b v none_ready e =
      let f = collect_ready-Effect p d fuel now s.pool b e in
      record {
        counted = f.keeps v.counted;
        active = f.active ∙ v.active;
        once = λ g.
            let nothing = ap (λ xs. tally g (tasks_of p d xs)) none_ready in
            omega (
              arith,
              v.once g,
              f.moves g,
              nothing,
              tally-append g (tasks_of p d b.ready) (tasks_of p d b.dropped),
              tally-append g (tasks_of p d b.dropped) s.discarded,
            );
      }

  pub push-Inv :
      (s : System p d) → Inv s → Inv (record s { pool = push_ready p d s.pool s.ready; ready = [] })
  push-Inv s v =
      let f = push_ready-Effect p d s.ready s.pool in
      record {
        counted = f.keeps v.counted;
        active = f.active ∙ v.active;
        once = λ g. omega (arith, v.once g, f.moves g);
      }

  pub end_task-Moved :
      (s : State p d) (t : Task) → Moved p d s (ending t) (end_task p d s t) (holding t)
  unfolding end_task
  end_task-Moved s t = record {
    keeps = λ k. record { shared = k.shared; delayed = k.delayed; local = k.local };
    moves = λ f. refl;
    active = λ n h. omega arith;
  }

  pub skip-Moved :
      (s : State p d) (t : Task) (s' : State p d)
      → begin_task p d s t ≡ (s', none)
      → Moved p d s (holding t) s' (holding t)
  unfolding begin_task
  skip-Moved s t s' e = elim (Bool-cases (is_cancelled p d s t)) [
    | inr kept ↦ absurd (ground arith)
    | inl dropped ↦
        let g : ThreadPoolStats → ThreadPoolStats =
          λ c. record c { tasks_cancelled = add64 c.tasks_cancelled 1 } in
        let got : begin_task p d s t ≡ (with_stats p d s g, none) = rw (begin_task, dropped) refl in
        let same : with_stats p d s g ≡ s' = cc in
        subst (λ s'. Moved p d s (holding t) s' (holding t)) same
          (record {
            keeps = λ k. record { shared = k.shared; delayed = k.delayed; local = k.local };
            moves = λ f. refl;
            active = λ n h. h;
          })
  ]

  -- A worker puts its task down, as finished or as discarded.
  pub put_down-Inv :
      (s : System p d) (xs ys : List (ℕ × Phase)) (id : ℕ) (t : Task) (s' : State p d)
      → Inv (at p d s xs (id, holding t) ys s')
      → Inv (record (at p d s xs (id, looking) ys s') { finished = t ∷ s.finished })
        × Inv (record (at p d s xs (id, looking) ys s') { discarded = t ∷ s.discarded })
  put_down-Inv s xs ys id t s' v =
      let free =
        v.active
        ∙ ap (λ n. n % 2 ^ 32)
            (activities-middle xs ys (id, holding t)
              ∙ sym (activities-middle xs ys (id, looking))) in
      (
        record {
          counted = v.counted;
          active = free;
          once = λ f. omega (
            arith,
            v.once f,
            tally-carried f xs ys (id, holding t),
            tally-carried f xs ys (id, looking),
          );
        },
        record {
          counted = v.counted;
          active = free;
          once = λ f. omega (
            arith,
            v.once f,
            tally-carried f xs ys (id, holding t),
            tally-carried f xs ys (id, looking),
          );
        },
      )
