-- ===== src/Concurrency/LockRange/Waits.antt =====
-- What a stretch of WaitLoop does to the holders of the lock.
use yacul.Common.{[], ◌++◌, inr, inl, none, Bool-cases, ◌∷◌, ◌^◌, ◌<◌, Bool, List, ◌+◌}
use yacul.Concurrency.LockRange.{
  timed_out, notified, acquired, erase_waiter, Wakeup, can_grant, done, finish_wait, resume,
  loop_test, begin_wait, Outcome, LockRange, Waiter,
}
use yacul.Concurrency.LockRange.Claims.{Claim}
use yacul.Concurrency.LockRange.Holders.{insert_entry-Holds, request, Holds, IsRequest}

-- The holders after a request has ended, or has been left waiting.
abbrev pub holding : Outcome → Claim → List Claim → List Claim
holding (done acquired) c held = c ∷ held
holding _ c held = held

-- Registering and unregistering waiters changes neither the table nor its holders.
pub Holds-waiters :
    {t : LockRange} {held : List Claim} (ws : List Waiter)
    → Holds t held
    → Holds (record t { waiters = ws }) held
Holds-waiters ws h = record { table = h.table; owned = h.owned; apart = h.apart }

-- Enough ids are left for one more entry.
abbrev pub HasId : LockRange → Type 0
HasId t = t.next_id + 1 < 2 ^ 64

module _ (w : Waiter) (r : IsRequest w) where
  finish_wait-Holds :
      {t : LockRange} {held : List Claim}
      → Holds t held
      → HasId t
      → let res = finish_wait t w in Holds res.0 (holding res.1 (request w) held)
  unfolding finish_wait
  finish_wait-Holds {t} h room =
      let u : LockRange = record t { waiters = erase_waiter w.address t.waiters } in
      let g = Holds-waiters (erase_waiter w.address t.waiters) h in
      elim (Bool-cases (can_grant u w.offset w.end w.mode none)) [
        | inl free ↦ rw free (insert_entry-Holds w g r room free)
        | inr busy ↦ rw busy g
      ]

  loop_test-Holds :
      {t : LockRange} {held : List Claim}
      → Holds t held
      → HasId t
      → let res = loop_test t w in Holds res.0 (holding res.1 (request w) held)
  unfolding loop_test
  loop_test-Holds {t} h room = elim (Bool-cases (can_grant t w.offset w.end w.mode none)) [
    | inl free ↦ rw free (finish_wait-Holds h room)
    | inr busy ↦ rw busy h
  ]

  -- The first stretch of WaitLoop keeps the table and its holders in step.
  pub begin_wait-Holds :
      {t : LockRange} {held : List Claim} (no_wait : Bool)
      → Holds t held
      → HasId t
      → let res = begin_wait t w no_wait in Holds res.0 (holding res.1 (request w) held)
  unfolding begin_wait
  begin_wait-Holds {t} no_wait h room = elim (Bool-cases (can_grant t w.offset w.end w.mode none)) [
    | inl free ↦ rw free (insert_entry-Holds w h r room free)
    | inr busy ↦ rw busy (elim (Bool-cases no_wait) [
      | inl now ↦ rw now h
      | inr later ↦ rw later (loop_test-Holds (Holds-waiters (t.waiters ++ w ∷ []) h) room)
    ])
  ]

  -- So does every later one.
  pub resume-Holds :
      {t : LockRange} {held : List Claim} (k : Wakeup)
      → Holds t held
      → HasId t
      → let res = resume t w k in Holds res.0 (holding res.1 (request w) held)
  unfolding resume
  resume-Holds notified h room = loop_test-Holds h room
  resume-Holds {t} timed_out h room = elim (Bool-cases (can_grant t w.offset w.end w.mode none)) [
    | inl free ↦ rw free (finish_wait-Holds h room)
    | inr busy ↦ rw busy (finish_wait-Holds h room)
  ]
