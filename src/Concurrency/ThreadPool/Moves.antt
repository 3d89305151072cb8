-- ===== src/Concurrency/ThreadPool/Moves.antt =====
-- What a worker does to the tasks, while it looks for one and runs it.
use yacul.Concurrency.ThreadPool.System.{wake, go, enter, begin, done, stop, ran}
use yacul.Common.{
  tally-append, tally, if◌then◌else◌, subst, inr, inl, ◌^◌, ◌%◌, false, Bool-cases, true, some, ◌∙◌,
  refl, arith, Bool, [], ◌+◌, List, ℕ, ◌∷◌, ◌++◌, ◌≡◌,
}
use yacul.Concurrency.ThreadPool.{
  with_stats, add32, ThreadPoolStats, Job, State, delayed_less, priority_less, Task, MaxQueue,
}
use yacul.Concurrency.ThreadPool.System.{
  no_more, goes_on, new_id, repeating, replacing, ran, stop, done, begin, steal_miss, steal_hit,
  shared_miss, shared_hit, idle, stealing, local_miss, at_shared, local_hit, at_local, enter,
  unpaused, go, looking, Move, ending, resubmitting, running, holding, Phase,
}
use yacul.Concurrency.ThreadPool.Counts.{in_delayed, in_shared, Effect, IsCounted}
use yacul.Concurrency.ThreadPool.Delayed.{job_of, is_cancelled, count_run, begin_task}
use yacul.Concurrency.ThreadPool.Effects.{take_id-Effect, local-none, dequeue_task-Effect}

-- The task in the hands of a worker.
abbrev pub carries : Phase → List Task
carries looking = []
carries unpaused = []
carries at_local = []
carries at_shared = []
carries stealing = []
carries idle = []
carries (holding t) = t ∷ []
carries (running t) = t ∷ []
carries (resubmitting t) = t ∷ []
carries (repeating t) = t ∷ []
carries (replacing t dt) = t ∷ []
carries (ending t) = t ∷ []

-- 1 for a worker between the two updates of active_threads.
abbrev pub activity : Phase → ℕ
activity looking = 0
activity unpaused = 0
activity at_local = 0
activity at_shared = 0
activity stealing = 0
activity idle = 0
activity (holding t) = 0
activity (running t) = 1
activity (resubmitting t) = 1
activity (repeating t) = 1
activity (replacing t dt) = 1
activity (ending t) = 1

abbrev pub carried : List (ℕ × Phase) → List Task
carried [] = []
carried (w ∷ ws) = carries w.1 ++ carried ws

abbrev pub activities : List (ℕ × Phase) → ℕ
activities [] = 0
activities (w ∷ ws) = activity w.1 + activities ws

pub tally-carried :
    (f : Task → Bool) (xs ys : List (ℕ × Phase)) (w : ℕ × Phase)
    → tally f (carried (xs ++ w ∷ ys)) ≡ tally f (carries w.1) + tally f (carried (xs ++ ys))
tally-carried f [] ys w = tally-append f (carries w.1) (carried ys)
tally-carried f (x ∷ xs) ys w = omega (
  arith,
  tally-append f (carries x.1) (carried (xs ++ w ∷ ys)),
  tally-append f (carries x.1) (carried (xs ++ ys)),
  tally-carried f xs ys w,
)

pub activities-middle :
    (xs ys : List (ℕ × Phase)) (w : ℕ × Phase)
    → activities (xs ++ w ∷ ys) ≡ activity w.1 + activities (xs ++ ys)
activities-middle [] ys w = refl
activities-middle (x ∷ xs) ys w = omega (arith, activities-middle xs ys w)

module _ (p : MaxQueue priority_less) (d : MaxQueue delayed_less) where
  -- A move keeps the counters right, the tasks in the queues and in the worker's hands, and the number of
  -- active workers.
  pub record Moved (s : State p d) (from : Phase) (s' : State p d) (to : Phase) : Type 0 where
    pub keeps : IsCounted p d s → IsCounted p d s'
    pub moves :
        (f : Task → Bool)
        → in_shared p d f s + in_delayed p d f s + tally f (carries from)
          ≡ in_shared p d f s' + in_delayed p d f s' + tally f (carries to)
    pub active :
        (n : ℕ)
        → s.stats.active_threads ≡ (activity from + n) % 2 ^ 32
        → s'.stats.active_threads ≡ (activity to + n) % 2 ^ 32

  -- The move of a worker that takes a task from a queue.
  taken-Moved :
      (s s' : State p d) (t : Task) (from : Phase)
      → Effect p d s s' [] (t ∷ [])
      → carries from ≡ []
      → activity from ≡ 0
      → Moved s from s' (holding t)
  taken-Moved s s' t from e c a = record {
    keeps = e.keeps;
    moves = λ f. rw c (omega (arith, e.moves f));
    active = λ n h. e.active ∙ omega arith;
  }

  begin_task-Moved :
      (s : State p d) (t : Task) (j : Job) (s' : State p d)
      → begin_task p d s t ≡ (s', some j)
      → Moved s (holding t) s' (running t)
  unfolding begin_task
  begin_task-Moved s t j s' e = elim (Bool-cases (is_cancelled p d s t)) [
    | inl dropped ↦ absurd (ground arith)
    | inr kept ↦
        let g : ThreadPoolStats → ThreadPoolStats =
          λ c. record c { active_threads = add32 c.active_threads 1 } in
        let got : begin_task p d s t ≡ (with_stats p d s g, some (job_of p d t)) =
          rw (begin_task, kept) refl in
        let same : with_stats p d s g ≡ s' = cc in
        subst (λ s'. Moved s (holding t) s' (running t)) same
          (record {
            keeps = λ k. record { shared = k.shared; delayed = k.delayed; local = k.local };
            moves = λ f. refl;
            active = λ n h. omega arith;
          })
  ]

  pub count_run-Effect :
      (s : State p d) (throws : Bool) → Effect p d s (count_run p d s throws) [] []
  unfolding count_run
  count_run-Effect s true = record {
    keeps = λ k. record { shared = k.shared; delayed = k.delayed; local = k.local };
    moves = λ f. refl;
    active = refl;
  }
  count_run-Effect s false = record {
    keeps = λ k. record { shared = k.shared; delayed = k.delayed; local = k.local };
    moves = λ f. refl;
    active = refl;
  }

  -- The move of a worker that leaves the pool as it is.
  pub idle-Moved :
      (s : State p d) (from to : Phase)
      → carries from ≡ carries to
      → activity from ≡ activity to
      → Moved s from s to
  idle-Moved s from to c a = record {
    keeps = λ k. k;
    moves = λ f. rw c refl;
    active = λ n h. h ∙ omega arith;
  }

  miss-Moved : (s : State p d) (b : Bool) → Moved s at_shared s (if b then stealing else idle)
  miss-Moved s true = idle-Moved s at_shared stealing refl refl
  miss-Moved s false = idle-Moved s at_shared idle refl refl

  quiet-Moved :
      (s s' : State p d) (from to : Phase)
      → Effect p d s s' [] []
      → carries from ≡ carries to
      → activity from ≡ activity to
      → Moved s from s' to
  quiet-Moved s s' from to e c a = record {
    keeps = e.keeps;
    moves = λ f. rw c (omega (arith, e.moves f));
    active = λ n h. e.active ∙ h ∙ omega arith;
  }

  pub Move-Moved :
      {s : State p d} {id : ℕ} {from : Phase} {s' : State p d} {to : Phase}
      → IsCounted p d s
      → Move p d s id from s' to
      → Moved s from s' to
  Move-Moved k (go o) = idle-Moved _ looking unpaused refl refl
  Move-Moved k (enter o) = idle-Moved _ unpaused at_local refl refl
  Move-Moved {s} {id} k (local_hit t r e) = absurd (let n = (local-none p d s id k).0 in cc)
  Move-Moved k (local_miss e) = idle-Moved _ at_local at_shared refl refl
  Move-Moved {s} k (shared_hit t r e) =
      taken-Moved s r t at_shared (dequeue_task-Effect p d s t r e) refl refl
  Move-Moved {s} k (shared_miss e) = miss-Moved s s.config.enable_work_stealing
  Move-Moved {s} {id} k (steal_hit t r e) = absurd (let n = (local-none p d s id k).1 in cc)
  Move-Moved k (steal_miss e) = idle-Moved _ stealing idle refl refl
  Move-Moved k wake = idle-Moved _ idle looking refl refl
  Move-Moved {s} k (begin t j r e) = begin_task-Moved s t j r e
  Move-Moved k (done t f e) = idle-Moved _ (running t) (ending t) refl refl
  Move-Moved k (stop t key interval prio f e stops) = idle-Moved _ (running t) (ending t) refl refl
  Move-Moved {s} k (ran t key interval prio f throws e) =
      quiet-Moved s _ (running t) (resubmitting t) (count_run-Effect s throws) refl refl
  Move-Moved k (no_more t key interval prio f e stops) =
      idle-Moved _ (resubmitting t) (ending t) refl refl
  Move-Moved k (goes_on t key interval prio f e more) =
      idle-Moved _ (resubmitting t) (repeating t) refl refl
  Move-Moved {s} k (new_id t now key interval prio f e on) =
      quiet-Moved s _ (repeating t) (replacing t _) (take_id-Effect p d s) refl refl
