-- ===== src/Concurrency/ThreadPool/Pushing.antt =====
-- What the second loop of ProcessDelayedTasks leaves in the shared queues.
use mathlib.Core.List.{append_assoc, append-nil}
use yacul.Common.{
  ap, tally-perm, tally, ◌∙◌, sym, if◌then◌else◌, inr, inl, refl, Bool-cases, [], map, arith, Bool,
  List, ◌+◌, ◌∷◌, ◌++◌, ◌≡◌, true, false,
}
use yacul.Concurrency.ThreadPool.{
  ThreadPoolConfig, level, push_task, PriorityTask, DelayedTask, Task, State, delayed_less,
  priority_less, MaxQueue,
}
use yacul.Concurrency.ThreadPool.Delayed.{push_ready}

-- A delayed task as an entry of the queue with priorities.
abbrev pub entry : DelayedTask → PriorityTask
entry dt = record { priority = level dt.priority; task = dt.task }

-- What comes to the queue without priorities, and to the one with them, if `b` chooses the latter.
abbrev pub behind : Bool → List DelayedTask → List Task
behind b dts = if b then [] else map (λ (x : DelayedTask). x.task) dts

abbrev pub entries : Bool → List DelayedTask → List PriorityTask
entries b dts = if b then map entry dts else []

behind-cons :
    (b : Bool) (dt : DelayedTask) (dts : List DelayedTask)
    → behind b (dt ∷ []) ++ behind b dts ≡ behind b (dt ∷ dts)
behind-cons true dt dts = refl
behind-cons false dt dts = refl

tally-entries-cons :
    (f : PriorityTask → Bool) (b : Bool) (dt : DelayedTask) (dts : List DelayedTask)
    → tally f (entries b (dt ∷ [])) + tally f (entries b dts) ≡ tally f (entries b (dt ∷ dts))
tally-entries-cons f true dt dts = omega arith
tally-entries-cons f false dt dts = omega arith

module _ (p : MaxQueue priority_less) (d : MaxQueue delayed_less) where
  -- The pool `t` has the settings, the local queues and the delayed tasks of `s`. In its shared queue are the
  -- tasks of `s` and those of `dts`: each with its own priority where the configuration has the queue
  -- with priorities on, and behind the others in their order where it is off.
  pub record IsJoined (s : State p d) (dts : List DelayedTask) (t : State p d) : Type 0 where
    pub config : t.config ≡ s.config
    pub local : t.thread_local_queues ≡ s.thread_local_queues
    pub delayed : t.delayed_tasks ≡ s.delayed_tasks
    pub fifo : t.tasks ≡ s.tasks ++ behind s.config.enable_priority_queue dts
    pub heap :
        (f : PriorityTask → Bool)
        → tally f (p.contents t.priority_tasks)
          ≡ tally f (p.contents s.priority_tasks)
            + tally f (entries s.config.enable_priority_queue dts)

  none-IsJoined : (s : State p d) → IsJoined s [] s
  none-IsJoined s = elim (Bool-cases s.config.enable_priority_queue) [
    | inl on ↦ record {
      config = refl;
      local = refl;
      delayed = refl;
      fifo = rw on (sym (append-nil s.tasks));
      heap = λ f. rw on (omega arith);
    }
    | inr off ↦ record {
      config = refl;
      local = refl;
      delayed = refl;
      fifo = rw off (sym (append-nil s.tasks));
      heap = λ f. rw off (omega arith);
    }
  ]

  push_task-IsJoined :
      (s : State p d) (dt : DelayedTask)
      → IsJoined s (dt ∷ []) (push_task p d s (level dt.priority) dt.task)
  unfolding push_task
  push_task-IsJoined s dt = elim (Bool-cases s.config.enable_priority_queue) [
    | inl on ↦ rw on (record {
      config = refl;
      local = refl;
      delayed = refl;
      fifo = sym (append-nil s.tasks);
      heap = λ f. omega (arith, tally-perm f (p.emplaced s.priority_tasks (entry dt)));
    })
    | inr off ↦ rw off (record {
      config = refl;
      local = refl;
      delayed = refl;
      fifo = refl;
      heap = λ f. omega arith;
    })
  ]

  trans-IsJoined :
      (s t u : State p d) (dt : DelayedTask) (dts : List DelayedTask)
      → IsJoined s (dt ∷ []) t
      → IsJoined t dts u
      → IsJoined s (dt ∷ dts) u
  trans-IsJoined s t u dt dts i j =
      let b = s.config.enable_priority_queue in
      let same : t.config.enable_priority_queue ≡ b =
        ap (λ (c : ThreadPoolConfig). c.enable_priority_queue) i.config in
      record {
        config = j.config ∙ i.config;
        local = j.local ∙ i.local;
        delayed = j.delayed ∙ i.delayed;
        fifo =
            j.fifo
            ∙ rw (same, i.fifo)
                (append_assoc s.tasks (behind b (dt ∷ [])) (behind b dts)
                  ∙ ap (λ (ts : List Task). s.tasks ++ ts) (behind-cons b dt dts));
        heap = λ f. omega (
          arith,
          j.heap f,
          ap (λ (b : Bool). tally f (entries b dts)) same,
          i.heap f,
          tally-entries-cons f b dt dts,
        );
      }

  pub push_ready-IsJoined :
      (dts : List DelayedTask) (s : State p d) → IsJoined s dts (push_ready p d s dts)
  unfolding push_ready
  push_ready-IsJoined [] s = none-IsJoined s
  push_ready-IsJoined (dt ∷ dts) s =
      let i = push_task-IsJoined s dt in
      trans-IsJoined s _ _ dt dts
        (record {
          config = i.config;
          local = i.local;
          delayed = i.delayed;
          fifo = i.fifo;
          heap = i.heap;
        })
        (push_ready-IsJoined dts _)
