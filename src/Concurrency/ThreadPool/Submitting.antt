-- ===== src/Concurrency/ThreadPool/Submitting.antt =====
-- The calls that submit tasks, each without a step of another thread in between. A future is a Boolean:
-- whether its task is in a queue, or was dropped with its promise. Times are nanoseconds.
use yacul.Common.{
  ◌∙◌, ap, inr, inl, Bool-cases, refl, arith, add64, ◌≤◌, subst, some, ◌*◌, ◌/◌, ◌+◌, none, ◌&&◌,
  leb, ◌^◌, length, zero, ◌<◌, ◌-◌, [], true, if◌then◌else◌, false, ◌∷◌, Option, ok, Run, ◌≡◌, suc,
  Bool, List, ℕ, ◌>>=◌,
}
use yacul.Concurrency.ThreadPool.{
  ThreadPoolConfig, level, with_stats, add32, Task, is_full, push_task, delayed, ThreadPoolStats,
  user, regular, add_worker_thread, TaskPriority, normal, try_expand_pool, enqueue_task, State,
  delayed_less, priority_less, MaxQueue,
}
use yacul.Concurrency.ThreadPool.Delayed.{
  delayed_by, with_delayed, submit_delayed, take_id, place_delayed,
}

module _ (p : MaxQueue priority_less) (d : MaxQueue delayed_less) where
  -- `SubmitWithPriority`, with both parts of EnqueueTask.
  unfoldable pub submit_with_priority : State p d → TaskPriority → ℕ → Run (State p d × Bool)
  unfolding enqueue_task try_expand_pool add_worker_thread
  submit_with_priority s prio f = do
    (s', queued) ← enqueue_task p d s prio (regular (user f))
    ok (if queued && try_expand_pool p d s' then add_worker_thread p d s' else s', queued)

  -- `SubmitBatch`: the future of each function.
  unfoldable pub submit_batch : State p d → List ℕ → Run (State p d × List Bool)
  unfolding submit_with_priority
  submit_batch s [] = ok (s, [])
  submit_batch s (f ∷ fs) = do
    (s', b) ← submit_with_priority s normal f
    (s'', bs) ← submit_batch s' fs
    ok (s'', b ∷ bs)

  abbrev millisecond : ℕ
  millisecond = 1000000

  -- `SubmitAtWithPriority`, where its clock reads `now`, and the clock of SubmitDelayedWithPriority reads `later`:
  -- the handle is that of the delayed task, if there is one.
  unfoldable pub submit_at : State p d → ℕ → ℕ → ℕ → TaskPriority → ℕ → Run (State p d × Option ℕ)
  unfolding submit_with_priority submit_delayed
  submit_at s now later when prio f =
      if leb when now then (do (s', queued) ← submit_with_priority s prio f; ok (s', none)) else (do
        (s', id) ←
            submit_delayed p d s later ((when - now) / millisecond * millisecond) prio (user f)
        ok (s', some id))

  -- Which futures of a batch are served, if there is room for `k` tasks.
  abbrev pub served : ℕ → List ℕ → List Bool
  served k [] = []
  served zero (f ∷ fs) = false ∷ served zero fs
  served (suc k) (f ∷ fs) = true ∷ served k fs

  push_task-same :
      (s : State p d) (l : ℕ) (t : Task)
      → ((push_task p d s l t).shutdown ≡ s.shutdown)
        × ((push_task p d s l t).config ≡ s.config)
        × ((push_task p d s l t).stats ≡ s.stats)
  unfolding push_task
  push_task-same s l t = elim (Bool-cases s.config.enable_priority_queue) [
    | inl on ↦ rw on (refl, refl, refl)
    | inr off ↦ rw off (refl, refl, refl)
  ]

  module _ (m : ℕ) where
    -- A pool that takes tasks, at most `m` of them, and has room for `k`.
    pub record HasRoom (s : State p d) (k : ℕ) : Type 0 where
      pub open_still : s.shutdown ≡ false
      pub limit : s.config.max_queue_size ≡ m
      pub some : 0 < m
      pub small : m < 2 ^ 32
      pub room : s.stats.queue_size + k ≡ m

    expanded : (s : State p d) (k : ℕ) → HasRoom s k → HasRoom (add_worker_thread p d s) k
    unfolding add_worker_thread
    expanded s k r = record {
      open_still = r.open_still;
      limit = r.limit;
      some = r.some;
      small = r.small;
      room = r.room;
    }

    submit_with_priority-suc :
        (s : State p d) (k f : ℕ)
        → HasRoom s (suc k)
        → (s' : State p d) × (submit_with_priority s normal f ≡ ok (s', true)) × HasRoom s' k
    unfolding submit_with_priority enqueue_task
    submit_with_priority-suc s k f r =
        let g : ThreadPoolStats → ThreadPoolStats = λ c. record c {
          tasks_submitted = add64 c.tasks_submitted 1;
          queue_size = add32 c.queue_size 1;
        } in
        let s1 : State p d = with_stats p d (push_task p d s (level normal) (regular (user f))) g in
        let (up, config, stats) = push_task-same s (level normal) (regular (user f)) in
        let space : is_full p d s ≡ false = ground (arith, r.limit, r.room, r.some) in
        let queued : enqueue_task p d s normal (regular (user f)) ≡ ok (s1, true) =
          rw (enqueue_task, r.open_still, space) refl in
        let size : s1.stats.queue_size ≡ s.stats.queue_size + 1 =
          ap (λ c. add32 c.queue_size 1) stats ∙ omega (arith, r.room, r.small) in
        let room : HasRoom s1 k = record {
          open_still = up ∙ r.open_still;
          limit = ap (λ (c : ThreadPoolConfig). c.max_queue_size) config ∙ r.limit;
          some = r.some;
          small = r.small;
          room = omega (arith, size, r.room);
        } in
        elim (Bool-cases (try_expand_pool p d s1)) [
          | inl grows ↦ (
            add_worker_thread p d s1,
            rw (submit_with_priority, queued, grows) refl,
            expanded s1 k room,
          )
          | inr stays ↦ (s1, rw (submit_with_priority, queued, stays) refl, room)
        ]

    submit_with_priority-zero :
        (s : State p d) (f : ℕ) → HasRoom s 0 → submit_with_priority s normal f ≡ ok (s, false)
    unfolding submit_with_priority enqueue_task
    submit_with_priority-zero s f r =
        let full : is_full p d s ≡ true = ground (arith, r.limit, r.room, r.some) in
        let refused : enqueue_task p d s normal (regular (user f)) ≡ ok (s, false) =
          rw (enqueue_task, r.open_still, full) refl in
        rw (submit_with_priority, refused) refl

    -- A batch that meets a pool with a limit and room for `k` tasks: the first `k` functions are queued, and the
    -- tasks of the others are dropped, with no sign to the caller but the broken promises of their futures.
    pub submit_batch-served :
        (s : State p d) (k : ℕ) (fs : List ℕ)
        → HasRoom s k
        → (s' : State p d) × (submit_batch s fs ≡ ok (s', served k fs)) × HasRoom s' (k - length fs)
    unfolding submit_batch
    submit_batch-served s k [] r = (s, refl, subst (HasRoom s) (omega arith) r)
    submit_batch-served s zero (f ∷ fs) r =
        let (s', e, r') = submit_batch-served s zero fs r in
        (
          s',
          rw (submit_batch, submit_with_priority-zero s f r, e) refl,
          subst (HasRoom s') (omega arith) r',
        )
    submit_batch-served s (suc k) (f ∷ fs) r =
        let (s1, e1, r1) = submit_with_priority-suc s k f r in
        let (s', e, r') = submit_batch-served s1 k fs r1 in
        (s', rw (submit_batch, e1, e) refl, subst (HasRoom s') (omega arith) r')

  -- A task of SubmitAt that is not yet due is delayed to within a millisecond of its time, not counting what
  -- passes between two readings of the clock; what the truncation takes off is run too early.
  pub submit_at-bounds :
      (s : State p d) (now later when : ℕ) (prio : TaskPriority) (f : ℕ)
      → s.config.enable_delayed_tasks ≡ true
      → s.shutdown ≡ false
      → now < when
      → (s' : State p d) × (at : ℕ) × (submit_at s now later when prio f
          ≡ ok (s', some s.next_task_id))
        × (s'.delayed_tasks
            ≡ d.emplace s.delayed_tasks (record {
              execute_time = at;
              priority = prio;
              task = delayed s.next_task_id (user f);
              task_id = s.next_task_id;
            }))
        × (at + now ≤ when + later)
        × (when + later < at + now + millisecond)
  unfolding submit_at submit_delayed place_delayed take_id
  submit_at-bounds s now later when prio f on up ahead =
      let wait = (when - now) / millisecond * millisecond in
      let not_due : leb when now ≡ false = ground arith in
      (
        with_delayed p d (take_id p d s) (delayed_by p d s (later + wait) prio (user f)),
        later + wait,
        rw (submit_at, not_due, on, up) refl,
        refl,
        omega arith,
        omega arith,
      )
