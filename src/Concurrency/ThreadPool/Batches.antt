-- ===== src/Concurrency/ThreadPool/Batches.antt =====
-- What ProcessDelayedTasks does to the tasks in the queues.
use yacul.Common.{
  tally-perm, tally-append, abort, sym, false, Run, ltb, true, ◌&&◌, zero, inr, inl, Bool-cases,
  ◌∙◌, refl, Option-cases, suc, Bool, subst, arith, [], ok, map, some, List, ℕ, ◌∷◌, ◌++◌, ◌≡◌,
}
use yacul.Concurrency.ThreadPool.{
  level, has_key, add32, ThreadPoolStats, Task, DelayedTask, State, delayed_less, priority_less,
  MaxQueue,
}
use yacul.Concurrency.ThreadPool.Delayed.{Batch, pop_delayed, collect_ready, push_ready}
use yacul.Concurrency.ThreadPool.Counts.{push_task-IsPushed, pushed-Effect, Effect}

module _ (p : MaxQueue priority_less) (d : MaxQueue delayed_less) where
  -- Effects one after the other.
  pub trans-Effect :
      (s s' s'' : State p d) (ins outs ins' outs' : List Task)
      → Effect p d s s' ins outs
      → Effect p d s' s'' ins' outs'
      → Effect p d s s'' (ins ++ ins') (outs ++ outs')
  trans-Effect s s' s'' ins outs ins' outs' e e' = record {
    keeps = λ k. e'.keeps (e.keeps k);
    moves = λ f.
        omega (arith, e.moves f, e'.moves f, tally-append f ins ins', tally-append f outs outs');
    active = e'.active ∙ e.active;
  }

  pub push_ready-Effect :
      (dts : List DelayedTask) (s : State p d)
      → Effect p d s (push_ready p d s dts) (map (λ (x : DelayedTask). x.task) dts) []
  unfolding push_ready
  push_ready-Effect [] s = record { keeps = λ k. k; moves = λ f. refl; active = refl }
  push_ready-Effect (dt ∷ dts) s =
      let g : ThreadPoolStats → ThreadPoolStats =
        λ c. record c { queue_size = add32 c.queue_size 1 } in
      trans-Effect s _ _ (dt.task ∷ []) [] _ []
        (pushed-Effect p d s _ dt.task g (push_task-IsPushed p d s (level dt.priority) dt.task) refl
          refl refl)
        (push_ready-Effect dts _)

  pop_delayed-Effect :
      (s : State p d) (dt : DelayedTask) (r : d.Queue)
      → d.pop s.delayed_tasks ≡ some (dt, r)
      → Effect p d s (pop_delayed p d s dt r) [] (dt.task ∷ [])
  unfolding pop_delayed
  pop_delayed-Effect s dt r e =
      let count = λ (f : Task → Bool).
        tally-perm (λ (x : DelayedTask). f x.task) (d.popped s.delayed_tasks dt r e).0 in
      elim (Bool-cases (has_key dt.task_id s.cancelled_tasks && s.cancelled dt.task_id)) [
        | inl dropped ↦ rw dropped (record {
          keeps = λ k. record {
            shared = k.shared;
            delayed = omega (arith, count (λ t. true), k.delayed);
            local = k.local;
          };
          moves = λ f. omega (arith, count f);
          active = refl;
        })
        | inr kept ↦ rw kept (record {
          keeps = λ k. record {
            shared = k.shared;
            delayed = omega (arith, count (λ t. true), k.delayed);
            local = k.local;
          };
          moves = λ f. omega (arith, count f);
          active = refl;
        })
      ]

  abbrev pub tasks_of : List DelayedTask → List Task
  tasks_of xs = map (λ (x : DelayedTask). x.task) xs

  stopped-Effect :
      (s : State p d) (b : Batch p d)
      → ok (record { pool = s; ready = []; dropped = [] }) ≡ ok b
      → Effect p d s b.pool [] (tasks_of b.ready ++ tasks_of b.dropped)
  stopped-Effect s b e =
      let same : record { pool = s; ready = []; dropped = [] } ≡ b = cc in
      subst (λ (b : Batch p d). Effect p d s b.pool [] (tasks_of b.ready ++ tasks_of b.dropped))
        same (record { keeps = λ k. k; moves = λ f. refl; active = refl })

  pub collect_ready-Effect :
      (fuel now : ℕ) (s : State p d) (b : Batch p d)
      → collect_ready p d fuel now s ≡ ok b
      → Effect p d s b.pool [] (tasks_of b.ready ++ tasks_of b.dropped)
  unfolding collect_ready
  collect_ready-Effect zero now s b e = absurd (cc)
  collect_ready-Effect (suc fuel) now s b e = elim (Option-cases (d.pop s.delayed_tasks)) [
    | inl nothing ↦ stopped-Effect s b (sym (rw (collect_ready, nothing) refl) ∙ e)
    | inr ((dt, r), found) ↦ elim (Bool-cases (ltb now dt.execute_time)) [
      | inl early ↦ stopped-Effect s b (sym (rw (collect_ready, found, early) refl) ∙ e)
      | inr due ↦
          go dt r found due (collect_ready p d fuel now (pop_delayed p d s dt r)) refl
            (collect_ready-Effect fuel now (pop_delayed p d s dt r))
    ]
  ]
    where
      go :
          (dt : DelayedTask) (r : d.Queue)
          → d.pop s.delayed_tasks ≡ some (dt, r)
          → ltb now dt.execute_time ≡ false
          → (m : Run (Batch p d)) → collect_ready p d fuel now (pop_delayed p d s dt r) ≡ m
          → ((b' : Batch p d)
              → collect_ready p d fuel now (pop_delayed p d s dt r) ≡ ok b'
              → Effect p d
                  (pop_delayed p d s dt r)
                  b'.pool
                  []
                  (tasks_of b'.ready ++ tasks_of b'.dropped))
          → Effect p d s b.pool [] (tasks_of b.ready ++ tasks_of b.dropped)
      go dt r found due abort e' ih =
          let fails : collect_ready p d (suc fuel) now s ≡ abort =
            rw (collect_ready, found, due, e') refl in
          absurd (cc)
      go dt r found due (ok b') e' ih =
          let step =
            trans-Effect s _ b'.pool [] (dt.task ∷ []) [] (tasks_of b'.ready ++ tasks_of b'.dropped)
              (pop_delayed-Effect s dt r found) (ih b' e') in
          elim (Bool-cases (has_key dt.task_id s.cancelled_tasks && s.cancelled dt.task_id)) [
            | inl drops ↦
                let got : collect_ready p d (suc fuel) now s
                    ≡ ok (record b' { dropped = dt ∷ b'.dropped }) =
                  rw (collect_ready, found, due, e', drops) refl in
                let same : record b' { dropped = dt ∷ b'.dropped } ≡ b = cc in
                subst
                  (λ (b : Batch p d).
                    Effect p d s b.pool [] (tasks_of b.ready ++ tasks_of b.dropped))
                  same
                  (record {
                    keeps = step.keeps;
                    moves = λ f. omega (
                      arith,
                      step.moves f,
                      tally-append f (tasks_of b'.ready) (tasks_of b'.dropped),
                      tally-append f (tasks_of b'.ready) (dt.task ∷ tasks_of b'.dropped),
                    );
                    active = step.active;
                  })
            | inr keeps ↦
                let got : collect_ready p d (suc fuel) now s
                    ≡ ok (record b' { ready = dt ∷ b'.ready }) =
                  rw (collect_ready, found, due, e', keeps) refl in
                let same : record b' { ready = dt ∷ b'.ready } ≡ b = cc in
                subst
                  (λ (b : Batch p d).
                    Effect p d s b.pool [] (tasks_of b.ready ++ tasks_of b.dropped))
                  same step
          ]
