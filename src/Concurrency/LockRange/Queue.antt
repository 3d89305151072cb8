-- ===== src/Concurrency/LockRange/Queue.antt =====
-- The vector of waiters against the requests that are blocked.
use mathlib.Core.List.{
  append-nil, perm_middle, Perm-prop, Mem, Nodup, Nodup-cons, mem-cons, mem-map_of_mem, not-mem-nil,
  mem-cons_self,
}
use mathlib.Core.List.Perm
use mathlib.Core.Logic.Or
use yacul.Common.{
  ◌++◌, ap, arith, subst, [], sym, inr, none, inl, ◌==◌, Bool, Bool-cases, map, Perm, ◌∷◌, List, ℕ,
}
use yacul.Concurrency.LockRange.{
  timed_out, notified, can_grant, Wakeup, blocked, LockRange, insert_entry, loop_test, begin_wait,
  finish_wait, resume, Waiter, Outcome, erase_waiter,
}

abbrev pub addresses : List Waiter → List ℕ
addresses = map (λ w. w.address)

-- `bs` lists the registered waiters in any order, each at an address of its own.
pub record Queued (ws bs : List Waiter) : Type 0 where
  pub same : Perm ws bs
  pub distinct : Nodup (addresses bs)

-- The blocked requests when `w` has ended, or still waits.
abbrev pub waiting : Outcome → Waiter → List Waiter → List Waiter
waiting blocked w bs = w ∷ bs
waiting _ w bs = bs

erase_waiter-perm :
    (w : Waiter) (ws : List Waiter)
    → Nodup (addresses ws)
    → Mem w ws
    → Perm ws (w ∷ erase_waiter w.address ws)
unfolding erase_waiter
erase_waiter-perm w [] d m = absurd (not-mem-nil m)
erase_waiter-perm w (x ∷ ws) d m = elim (Bool-cases (x.address == w.address)) [
  | inl hit ↦ rw hit (
      Or.elim (Perm-prop) (mem-cons.0 m) (λ e. Perm.cons' (sym e) (Perm.refl ws))
        (λ n. absurd (
          (Nodup-cons.0 d).0 (
            subst (λ a. Mem a (addresses ws)) (ground arith) (mem-map_of_mem (λ v. v.address) n)))))
  | inr miss ↦ rw miss (
      Or.elim (Perm-prop) (mem-cons.0 m) (λ e. ground (arith, ap (λ v. v.address) e))
        (λ n.
          Perm.trans (Perm.cons x (erase_waiter-perm w ws (Nodup-cons.0 d).1 n)) (Perm.swap w x _)))
]

-- Unregistering takes the waiter's own descriptor out, and nothing else.
pub erase_waiter-Queued :
    {ws bs : List Waiter} (w : Waiter) → Queued ws (w ∷ bs) → Queued (erase_waiter w.address ws) bs
erase_waiter-Queued {ws} {bs} w q = record {
  same = Perm.cons_inv (
      Perm.trans
        (Perm.symm (
          erase_waiter-perm w ws (Perm.nodup (Perm.map _ (Perm.symm q.same)) q.distinct)
            ((Perm.mem_iff q.same).1 mem-cons_self)))
        q.same);
  distinct = (Nodup-cons.0 q.distinct).1;
}

module _ (w : Waiter) where
  finish_wait-Queued :
      (t : LockRange) {bs : List Waiter}
      → Queued t.waiters (w ∷ bs)
      → Queued (finish_wait t w).0.waiters (waiting (finish_wait t w).1 w bs)
  unfolding finish_wait insert_entry
  finish_wait-Queued t q =
      let u : LockRange = record t { waiters = erase_waiter w.address t.waiters } in
      elim (Bool-cases (can_grant u w.offset w.end w.mode none)) [
        | inl free ↦ rw free (erase_waiter-Queued w q)
        | inr busy ↦ rw busy (erase_waiter-Queued w q)
      ]

  loop_test-Queued :
      (t : LockRange) {bs : List Waiter}
      → Queued t.waiters (w ∷ bs)
      → Queued (loop_test t w).0.waiters (waiting (loop_test t w).1 w bs)
  unfolding loop_test
  loop_test-Queued t q = elim (Bool-cases (can_grant t w.offset w.end w.mode none)) [
    | inl free ↦ rw free (finish_wait-Queued t q)
    | inr busy ↦ rw busy q
  ]

  pub resume-Queued :
      (t : LockRange) {bs : List Waiter} (k : Wakeup)
      → Queued t.waiters (w ∷ bs)
      → Queued (resume t w k).0.waiters (waiting (resume t w k).1 w bs)
  unfolding resume
  resume-Queued t notified q = loop_test-Queued t q
  resume-Queued t timed_out q = elim (Bool-cases (can_grant t w.offset w.end w.mode none)) [
    | inl free ↦ rw free (finish_wait-Queued t q)
    | inr busy ↦ rw busy (finish_wait-Queued t q)
  ]

  pub begin_wait-Queued :
      (t : LockRange) {bs : List Waiter} (no_wait : Bool)
      → Queued t.waiters bs
      → ¬ Mem w.address (addresses bs)
      → Queued (begin_wait t w no_wait).0.waiters (waiting (begin_wait t w no_wait).1 w bs)
  unfolding begin_wait insert_entry
  begin_wait-Queued t {bs} no_wait q new =
      elim (Bool-cases (can_grant t w.offset w.end w.mode none)) [
        | inl free ↦ rw free q
        | inr busy ↦ rw busy (elim (Bool-cases no_wait) [
          | inl now ↦ rw now q
          | inr later ↦ rw later (
              loop_test-Queued (record t { waiters = t.waiters ++ w ∷ [] })
                (record {
                  same =
                      Perm.trans (perm_middle t.waiters []) (
                        Perm.cons w (subst (λ ws. Perm ws bs) (sym (append-nil t.waiters)) q.same));
                  distinct = Nodup-cons.1 (new, q.distinct);
                }))
        ])
      ]
