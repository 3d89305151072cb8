-- ===== src/Qos/Queues/Counts.antt =====
-- The depth counters are right after every call.
use yacul.Common.{
  false, true, if◌then◌else◌, Bool, [], ◌∷◌, zero, leb, All, add64, List, arith, ◌≤◌, suc, ◌&&◌,
  ltb, Bool-cases, inr, inl, Option-cases, Option, ◌<◌, ℕ,
}
use yacul.Qos.Queues.Consumers.{
  remove_observer, add_observer, reset_stats, continue_running, pause, all_joined, request_stop,
  consume, executes, run_one, drain, start,
}
use yacul.Qos.Queues.{
  block, enqueue_at, enqueue_internal, stamp, held_back, drop_oldest, drop, OverflowPolicy, count,
  notify, dropped, admit_full, admit_total, admit_global, admit_rate, admit_depth, insert, refused,
  and_then, admitted, Admission, State, Fifo,
}
use yacul.Qos.Buckets.{try_consume, Doubles}
use yacul.Qos.Items.{num_priority_levels, Item}
use yacul.Qos.Queues.Sizes.{stored-IsCounted, set_limiter-IsCounted, taken-IsCounted, IsCounted}
use yacul.Qos.Queues.Dequeue.{
  is_expired, discard, leaves, try_level, dequeue_internal, try_levels, try_dequeue_bulk,
}
use yacul.Qos.Queues.Calls.{
  Call, call, calls, consumes, resets, starts, stops, joins, pauses, resumes, removes, adds, drains,
  dequeues_bulk, dequeues, enqueues, IsLeveled, left_by,
}

module _ (d : Doubles) (f : Fifo) where
  abbrev Counted : State d f → Type 0
  Counted s = IsCounted f s.queues s.total_depth

  -- Whatever becomes of the item, the counters are right; a caller that waits has left no state.
  abbrev Counts : Admission d f → Type 0
  Counts (admitted s) = Counted s
  Counts (refused s) = Counted s
  Counts held_back = Unit

  and_then-Counts :
      (a : Admission d f) (k : State d f → Admission d f)
      → Counts a
      → ((s : State d f) → Counted s → Counts (k s))
      → Counts (and_then d f a k)
  and_then-Counts (admitted s) k h g = g s h
  and_then-Counts (refused s) k h g = h
  and_then-Counts held_back k h g = h

  module _ (s : State d f) (p : ℕ) (i : Item) (low : p < num_priority_levels) (h : Counted s) where
    admit_full-Counts : (o : OverflowPolicy) → Counts (admit_full d f s p i o)
    unfolding admit_full dropped notify count
    admit_full-Counts drop = h
    admit_full-Counts drop_oldest = elim (Option-cases (f.try_dequeue (s.queues p).queue)) [
      | inl empty ↦ rw (empty, admit_full, Counts) h
      | inr (pair, e) ↦ rw (e, admit_full, Counts) (taken-IsCounted d f s p low h pair.0 pair.1 e)
    ]
    admit_full-Counts block = elim (Bool-cases s.stop_requested) [
      | inl stopped ↦ rw stopped h
      | inr on ↦ rw on tt
    ]

    admit_depth-Counts : Counts (admit_depth d f s p i)
    unfolding admit_depth
    admit_depth-Counts =
        elim (Bool-cases
          (ltb 0 s.config.max_queue_depth && leb s.config.max_queue_depth (s.queues p).depth)) [
            | inl full ↦ rw full (admit_full-Counts s.config.overflow_policy)
            | inr free ↦ rw free h
          ]

    admit_total-Counts : Counts (admit_total d f s p i)
    unfolding admit_total dropped notify count
    admit_total-Counts =
        elim (Bool-cases
          (ltb 0 s.config.max_total_depth && leb s.config.max_total_depth s.total_depth)) [
            | inl full ↦ rw full h
            | inr free ↦ rw free h
          ]

    admit_global-Counts : (now : ℕ) → Counts (admit_global d f now s p i)
    unfolding admit_global dropped notify count
    admit_global-Counts now = elim (Option-cases s.global_rate_limiter) [
      | inl off ↦ rw off h
      | inr (b, on) ↦ rw on (elim (Bool-cases (try_consume d now b (d.of_int i.cost)).1) [
        | inl pass ↦ rw pass h
        | inr fail ↦ rw fail h
      ])
    ]

    admit_rate-Counts : (now : ℕ) → Counts (admit_rate d f now s p i)
    unfolding admit_rate dropped notify count
    admit_rate-Counts now = elim (Option-cases (s.queues p).rate_limiter) [
      | inl off ↦ rw (off, admit_rate, Counts) h
      | inr (b, on) ↦
          rw (on, admit_rate, Counts)
            (elim (Bool-cases (try_consume d now b (d.of_int i.cost)).1) [
              | inl pass ↦ rw (pass, admit_rate, Counts) (set_limiter-IsCounted d f s p low h _)
              | inr fail ↦ rw (fail, admit_rate, Counts) (set_limiter-IsCounted d f s p low h _)
            ])
    ]

    insert-Counts : (now : ℕ) (deadline : Option ℕ) → Counts (insert d f now deadline s p i)
    unfolding insert dropped notify count
    insert-Counts now deadline =
        let j = stamp d f s.next_id now deadline i in
        elim (Option-cases (f.enqueue (s.queues p).queue j)) [
          | inl failed ↦ rw (failed, insert, Counts) h
          | inr (q, e) ↦
              rw (e, insert, Counts)
                (stored-IsCounted d f (record s { next_id = add64 s.next_id 1 }) p low h j q e)
        ]

  enqueue_internal-Counts :
      (now : ℕ × ℕ × ℕ) (s : State d f) (i : Item) (p : ℕ) (deadline : Option ℕ)
      → p < num_priority_levels
      → Counted s
      → Counts (enqueue_internal d f now s i p deadline)
  unfolding enqueue_internal
  enqueue_internal-Counts now s i p deadline low h =
      and_then-Counts (admit_depth d f s p i) _ (admit_depth-Counts s p i low h) (λ s1 h1.
        and_then-Counts (admit_total d f s1 p i) _ (admit_total-Counts s1 p i low h1) (λ s2 h2.
          and_then-Counts (admit_global d f now.0 s2 p i) _
            (admit_global-Counts s2 p i low h2 now.0)
            (λ s3 h3.
              and_then-Counts (admit_rate d f now.1 s3 p i) _
                (admit_rate-Counts s3 p i low h3 now.1)
                (λ s4 h4. insert-Counts s4 p i low h4 now.2 deadline))))

  try_level-IsCounted :
      (now : ℕ → ℕ × ℕ) (n : ℕ) (s : State d f) (p : ℕ)
      → p < num_priority_levels
      → Counted s
      → Counted (try_level d f now n s p).0
  unfolding try_level leaves discard notify count
  try_level-IsCounted now zero s p low h = h
  try_level-IsCounted now (suc n) s p low h =
      elim (Option-cases (f.try_dequeue (s.queues p).queue)) [
        | inl empty ↦ rw (empty, try_level) h
        | inr ((i, q), e) ↦
            rw (e, try_level)
              (let out = taken-IsCounted d f s p low h i q e in
                elim (Bool-cases (is_expired s.config (now n) i)) [
                  | inl late ↦ rw late (try_level-IsCounted now n _ p low out)
                  | inr good ↦ rw good out
                ])
      ]

  try_levels-IsCounted :
      (now : ℕ → ℕ → ℕ × ℕ) (n : ℕ) (s : State d f)
      → n ≤ num_priority_levels
      → Counted s
      → Counted (try_levels d f now n s).0
  unfolding try_levels
  try_levels-IsCounted now zero s low h = h
  try_levels-IsCounted now (suc p) s low h =
      let r = try_level d f (now p) (s.queues p).wrr_quota s p in
      let rest = try_level-IsCounted (now p) (s.queues p).wrr_quota s p (omega arith) h in
      elim (Option-cases r.1) [
        | inl nothing ↦ rw (nothing, try_levels) (try_levels-IsCounted now p r.0 (omega arith) rest)
        | inr (i, found) ↦ rw (found, try_levels) rest
      ]

  dequeue_internal-IsCounted :
      (now : ℕ → ℕ → ℕ × ℕ) (s : State d f) → Counted s → Counted (dequeue_internal d f now s).0
  unfolding dequeue_internal
  dequeue_internal-IsCounted now s h =
      try_levels-IsCounted now num_priority_levels s (omega arith) h

  try_dequeue_bulk-IsCounted :
      (now : ℕ → ℕ → ℕ → ℕ × ℕ) (n : ℕ) (s : State d f)
      → Counted s
      → Counted (try_dequeue_bulk d f now n s).0
  unfolding try_dequeue_bulk
  try_dequeue_bulk-IsCounted now zero s h = h
  try_dequeue_bulk-IsCounted now (suc n) s h =
      let r = dequeue_internal d f (now n) s in
      let rest = dequeue_internal-IsCounted (now n) s h in
      elim (Option-cases r.1) [
        | inl nothing ↦ rw (nothing, try_dequeue_bulk) rest
        | inr (i, found) ↦ rw (found, try_dequeue_bulk) (try_dequeue_bulk-IsCounted now n r.0 rest)
      ]

  run_one-IsCounted :
      (now : ℕ → ℕ → ℕ × ℕ) (latency : ℕ) (s : State d f)
      → Counted s
      → Counted (run_one d f now latency s).0
  unfolding run_one executes notify count
  run_one-IsCounted now latency s h =
      let rest = dequeue_internal-IsCounted now s h in
      elim (Option-cases (dequeue_internal d f now s).1) [
        | inl nothing ↦ rw (nothing, run_one) rest
        | inr (i, found) ↦ rw (found, run_one) rest
      ]

  drain-IsCounted :
      (now : ℕ → ℕ → ℕ → ℕ × ℕ) (latency : ℕ → ℕ) (n : ℕ) (s : State d f)
      → Counted s
      → Counted (drain d f now latency n s).0
  unfolding drain
  drain-IsCounted now latency zero s h = h
  drain-IsCounted now latency (suc n) s h =
      let rest = run_one-IsCounted (now n) (latency n) s h in
      elim (Bool-cases (run_one d f (now n) (latency n) s).1) [
        | inl more ↦ rw (more, drain) (drain-IsCounted now latency n _ rest)
        | inr done ↦ rw (done, drain) rest
      ]

  left_by-Counts :
      (s : State d f) (a : Admission d f) → Counted s → Counts a → Counted (left_by d f s a)
  left_by-Counts s (admitted t) h k = k
  left_by-Counts s (refused t) h k = k
  left_by-Counts s held_back h k = h

  either-IsCounted :
      (b : Bool) (s t : State d f) → Counted s → Counted t → Counted (if b then s else t)
  either-IsCounted true s t h k = h
  either-IsCounted false s t h k = k

  call-IsCounted : (s : State d f) (c : Call) → IsLeveled c → Counted s → Counted (call d f s c)
  unfolding call
  call-IsCounted s (enqueues now i p deadline) low h =
      unfold enqueue_at in
      (left_by-Counts s (enqueue_at d f now s i p deadline) h
        (enqueue_internal-Counts now s _ p deadline low h))
  call-IsCounted s (dequeues now) low h = dequeue_internal-IsCounted now s h
  call-IsCounted s (dequeues_bulk now n) low h = try_dequeue_bulk-IsCounted now n s h
  call-IsCounted s (consumes now latency) low h =
      unfold consume in (either-IsCounted s.paused s _ h (run_one-IsCounted now latency s h))
  call-IsCounted s (drains now latency n) low h = drain-IsCounted now latency n s h
  call-IsCounted s starts low h = unfold start in (either-IsCounted s.running s _ h h)
  call-IsCounted s stops low h = unfold request_stop in (either-IsCounted s.running _ s h h)
  call-IsCounted s joins low h = unfold all_joined in h
  call-IsCounted s pauses low h = unfold pause in h
  call-IsCounted s resumes low h = unfold continue_running in h
  call-IsCounted s resets low h = unfold reset_stats in h
  call-IsCounted s (adds o) low h = unfold add_observer in h
  call-IsCounted s (removes o) low h = unfold remove_observer in h

  -- After any public calls and consumer rounds, whose priorities are levels, the depth of each level is
  -- the number of items in its queue and the total depth that of all items, modulo 2 ^ 64, if they were
  -- before.
  pub calls-IsCounted :
      (s : State d f) (cs : List Call)
      → All IsLeveled cs
      → IsCounted f s.queues s.total_depth
      → let t = calls d f s cs in IsCounted f t.queues t.total_depth
  unfolding calls
  calls-IsCounted s [] low h = h
  calls-IsCounted s (c ∷ cs) low h =
      calls-IsCounted (call d f s c) cs low.1 (call-IsCounted s c low.0 h)
