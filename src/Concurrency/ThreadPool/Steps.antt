-- ===== src/Concurrency/ThreadPool/Steps.antt =====
-- Every step of the pool keeps its tasks in their places.
use yacul.Concurrency.ThreadPool.System.{idle}
use yacul.Concurrency.ThreadPool.System.{
  Pending, token, kick, place, replacing, unpaused, holding, ending, Step, System, submit, expand,
  grow, add, delay, repeat, cancel, cancel_handle, pauses, resumes, shuts_down, shuts_down_now,
  reset, limit, collect, push, work, finish, skip, again, leave, retire, joined,
}
use yacul.Common.{List, refl, [], ◌∷◌}
use yacul.Concurrency.ThreadPool.{user, regular, delayed_less, priority_less, MaxQueue}
use yacul.Concurrency.ThreadPool.Places.{
  exit-Inv, skip-Moved, end_task-Moved, put_down-Inv, work-Inv, push-Inv, collect-Inv, clear-Inv,
  quiet-Inv, add-Inv, call-Inv, Inv,
}
use yacul.Concurrency.ThreadPool.Counts.{
  clear_threads-Effect, set_max_queue_size-Effect, reset_stats-Effect, shut_down-Effect,
  resume_pool-Effect, pause-Effect, calm, cancel_task-Effect, enqueue_task-Effect,
}
use yacul.Concurrency.ThreadPool.Effects.{take_id-Effect, register-Effect, place_delayed-Effect}
use yacul.Concurrency.ThreadPool.Delayed.{take_id}
use yacul.Concurrency.ThreadPool.Moves.{idle-Moved, Move-Moved}

module _ (p : MaxQueue priority_less) (d : MaxQueue delayed_less) where
  -- A caller takes an id.
  taken-Inv :
      (s : System p d) (cs : List Pending)
      → Inv p d s
      → Inv p d (record s { pool = take_id p d s.pool; calls = cs })
  taken-Inv s cs v =
      let i = quiet-Inv p d s _ v (take_id-Effect p d s.pool) in
      record { counted = i.counted; active = i.active; once = i.once }

  pub Step-Inv : {s t : System p d} → Inv p d s → Step p d s t → Inv p d t
  Step-Inv {s} v (submit prio f s' e) =
      let i =
        call-Inv p d s s' (regular (user f) ∷ []) v
          (enqueue_task-Effect p d s.pool prio (regular (user f)) s' e) in
      record { counted = i.counted; active = i.active; once = i.once }
  Step-Inv {s} v (expand n e) = record { counted = v.counted; active = v.active; once = v.once }
  Step-Inv {s} v (grow n e) = record { counted = v.counted; active = v.active; once = v.once }
  Step-Inv {s} v (add n e) = add-Inv p d s n v
  Step-Inv {s} v (delay now wait prio f on) = taken-Inv s _ v
  Step-Inv {s} v (repeat interval prio f on) = taken-Inv s _ v
  Step-Inv {s} v (token xs ys id interval prio f e) =
      let i = quiet-Inv p d s _ v (register-Effect p d s.pool id) in
      record { counted = i.counted; active = i.active; once = i.once }
  Step-Inv {s} v (kick xs ys now id interval prio f e on) = taken-Inv s _ v
  Step-Inv {s} v (place xs ys dt s' e e') =
      let i = call-Inv p d s s' (dt.task ∷ []) v (place_delayed-Effect p d s.pool dt s' e') in
      record { counted = i.counted; active = i.active; once = i.once }
  Step-Inv {s} v (cancel id) = quiet-Inv p d s _ v (cancel_task-Effect p d s.pool id)
  Step-Inv {s} v (cancel_handle id) =
      quiet-Inv p d s _ v (calm p d s.pool _ refl refl refl refl refl refl refl)
  Step-Inv {s} v pauses = quiet-Inv p d s _ v (pause-Effect p d s.pool)
  Step-Inv {s} v resumes = quiet-Inv p d s _ v (resume_pool-Effect p d s.pool)
  Step-Inv {s} v shuts_down = quiet-Inv p d s _ v (shut_down-Effect p d s.pool)
  Step-Inv {s} v shuts_down_now = clear-Inv p d s v
  Step-Inv {s} v (reset now) = quiet-Inv p d s _ v (reset_stats-Effect p d s.pool now)
  Step-Inv {s} v (limit n) = quiet-Inv p d s _ v (set_max_queue_size-Effect p d s.pool n)
  Step-Inv {s} v (collect fuel now b none_ready e) = collect-Inv p d s fuel now b v none_ready e
  Step-Inv {s} v push = push-Inv p d s v
  Step-Inv {s} v (work xs ys id from s' to e m) =
      work-Inv p d s xs ys id from s' to v e (Move-Moved p d v.counted m)
  Step-Inv {s} v (finish xs ys id t e) =
      (put_down-Inv p d s xs ys id t _
        (work-Inv p d s xs ys id (ending t) _ (holding t) v e (end_task-Moved p d s.pool t))).0
  Step-Inv {s} v (skip xs ys id t s' e e') =
      (put_down-Inv p d s xs ys id t s'
        (work-Inv p d s xs ys id (holding t) s' (holding t) v e (skip-Moved p d s.pool t s' e'))).1
  Step-Inv {s} v (again xs ys id t dt s' e e') =
      let i = call-Inv p d s s' (dt.task ∷ []) v (place_delayed-Effect p d s.pool dt s' e') in
      let s1 : System p d = record s { pool = s'; accepted = dt.task ∷ s.accepted } in
      work-Inv p d s1 xs ys id (replacing t dt) s' (ending t) i e
        (idle-Moved p d s' (replacing t dt) (ending t) refl refl)
  Step-Inv {s} v (leave xs ys id e down nothing) = exit-Inv p d s xs ys id unpaused v e refl refl
  Step-Inv {s} v (retire xs ys id e surplus) = exit-Inv p d s xs ys id idle v e refl refl
  Step-Inv {s} v (joined down e) = quiet-Inv p d s _ v (clear_threads-Effect p d s.pool)
