-- ===== src/Concurrency/LockRange/Progress.antt =====
-- Which waits end: a blocking call only ends with the lock, some waiter can go on once nothing is held,
-- and the case in which a waiter that could go on is not woken.
use mathlib.Core.List.{Mem, mem-cons_self, mem-cons_of_mem}
use mathlib.Core.List.Perm
use yacul.Common.{
  sym, subst, ◌++◌, inl, Bool-cases, refl, inr, ◌⊎◌, arith, ◌∷◌, true, [], false, ◌≡◌, none, List,
  ℕ,
}
use yacul.Concurrency.LockRange.{
  timeout, acquired, notified, done, timed_out, blocked, is_exclusive, has_conflict, erase_waiter,
  finish_wait, Waiter, resume, loop_test, can_grant, begin_wait, LockRange, exclusive_waiter_in,
}
use yacul.Concurrency.LockRange.System.{Reach, System}
use yacul.Concurrency.LockRange.Exclusion.{Reach-Inv, Inv}
use yacul.Concurrency.LockRange.Holders.{can_grant-Holds, Holds}

exclusive_waiter_in-erase :
    (offset end a : ℕ) (ws : List Waiter)
    → exclusive_waiter_in offset end ws ≡ false
    → exclusive_waiter_in offset end (erase_waiter a ws) ≡ false
unfolding exclusive_waiter_in erase_waiter
exclusive_waiter_in-erase offset end a [] h = refl
exclusive_waiter_in-erase offset end a (w ∷ ws) h =
    ground (arith, exclusive_waiter_in-erase offset end a ws)

-- A request that can be granted still can once its own descriptor is gone.
can_grant-erase :
    (t : LockRange) (w : Waiter)
    → can_grant t w.offset w.end w.mode none ≡ true
    → can_grant (record t { waiters = erase_waiter w.address t.waiters }) w.offset w.end w.mode none
      ≡ true
unfolding can_grant has_conflict
can_grant-erase t w h = ground (arith, exclusive_waiter_in-erase w.offset w.end w.address t.waiters)

loop_test-acquired :
    (t : LockRange) (w : Waiter)
    → can_grant t w.offset w.end w.mode none ≡ true
    → (loop_test t w).1 ≡ done acquired
unfolding loop_test finish_wait
loop_test-acquired t w h = rw (h, can_grant-erase t w h) refl

loop_test-cases :
    (t : LockRange) (w : Waiter)
    → ((loop_test t w).1 ≡ blocked) ⊎ ((loop_test t w).1 ≡ done acquired)
loop_test-cases t w = elim (Bool-cases (can_grant t w.offset w.end w.mode none)) [
  | inl free ↦ inr (loop_test-acquired t w free)
  | inr busy ↦ inl (unfold loop_test in (rw busy refl))
]

-- WaitLoop without a deadline, whose waits end by a notification or spuriously, returns kAcquired or
-- waits on: neither its first stretch nor a later one ends with kTimeout.
pub wait_forever-acquired :
    (t : LockRange) (w : Waiter)
    → (((begin_wait t w false).1 ≡ blocked) ⊎ ((begin_wait t w false).1 ≡ done acquired))
      × (((resume t w notified).1 ≡ blocked) ⊎ ((resume t w notified).1 ≡ done acquired))
unfolding begin_wait resume
wait_forever-acquired t w = (
  elim (Bool-cases (can_grant t w.offset w.end w.mode none)) [
    | inl free ↦ rw free (inr refl)
    | inr busy ↦ rw busy (loop_test-cases (record t { waiters = t.waiters ++ w ∷ [] }) w)
  ],
  loop_test-cases t w,
)

exclusive_or_none :
    (ws : List Waiter)
    → ((w : Waiter) × Mem w ws × (is_exclusive w.mode ≡ true))
      ⊎ ((offset end : ℕ) → exclusive_waiter_in offset end ws ≡ false)
unfolding exclusive_waiter_in
exclusive_or_none [] = inr (λ o e. refl)
exclusive_or_none (w ∷ ws) = elim (Bool-cases (is_exclusive w.mode)) [
  | inl writer ↦ inl (w, mem-cons_self, writer)
  | inr reader ↦ elim (exclusive_or_none ws) [
    | inl (v, m, writer) ↦ inl (v, mem-cons_of_mem w m, writer)
    | inr free ↦ inr (λ o e. rw reader (free o e))
  ]
]

-- Once every claim has been released while threads are still blocked, there is a blocked thread whose
-- next wake-up gives it the lock.
pub no_deadlock :
    {s : System} (b : Waiter) (bs : List Waiter)
    → Reach s
    → s.held ≡ []
    → s.blocked ≡ b ∷ bs
    → (w : Waiter) × Mem w s.blocked × ((resume s.table w notified).1 ≡ done acquired)
unfolding resume
no_deadlock {s} b bs r idle waits = elim (exclusive_or_none s.table.waiters) [
  | inl (w, m, writer) ↦ (
    w,
    (Perm.mem_iff v.queued.same).0 m,
    loop_test-acquired s.table w (ground (arith, can_grant-Holds w free)),
  )
  | inr readers ↦ (
    b,
    subst (Mem b) (sym waits) mem-cons_self,
    loop_test-acquired s.table b (ground (arith, can_grant-Holds b free, readers b.offset b.end)),
  )
]
  where
    v : Inv s
    v = Reach-Inv r

    free : Holds s.table []
    free = subst (Holds s.table) idle v.holds

-- An exclusive waiter that times out leaves the queue without calling notify_all. If it was the last
-- exclusive waiter that a shared request r yielded to, and r clashes with no entry, then r was blocked
-- before and could be granted afterwards, and no thread has been told.
pub timeout_strands_reader :
    (t : LockRange) (w r : Waiter)
    → is_exclusive w.mode ≡ true
    → can_grant t w.offset w.end w.mode none ≡ false
    → is_exclusive r.mode ≡ false
    → has_conflict t r.offset r.end r.mode none ≡ false
    → exclusive_waiter_in r.offset r.end t.waiters ≡ true
    → exclusive_waiter_in r.offset r.end (erase_waiter w.address t.waiters) ≡ false
    → let after = (resume t w timed_out).0 in
      ((loop_test t r).1 ≡ blocked)
      × ((resume t w timed_out).1 ≡ done timeout)
      × (can_grant after r.offset r.end r.mode none ≡ true)
      × (after.wakeups ≡ t.wakeups)
timeout_strands_reader t w r writer busy reader clear before gone =
    unfold loop_test resume finish_wait in
    (
      rw (yields, loop_test) refl,
      rw (busy, still) refl,
      rw (busy, still) granted,
      rw (busy, still) refl,
    )
  where
    u : LockRange
    u = record t { waiters = erase_waiter w.address t.waiters }

    still : can_grant u w.offset w.end w.mode none ≡ false
    still = unfold can_grant has_conflict in (ground arith)

    yields : can_grant t r.offset r.end r.mode none ≡ false
    yields = unfold can_grant in (ground arith)

    granted : can_grant u r.offset r.end r.mode none ≡ true
    granted = unfold can_grant has_conflict in (ground arith)
