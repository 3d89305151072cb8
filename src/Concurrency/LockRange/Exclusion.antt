-- ===== src/Concurrency/LockRange/Exclusion.antt =====
-- The invariant of a range lock that any number of threads use, and mutual exclusion.
use mathlib.Core.List.{Nodup-nil, Pairwise, Mem, perm_middle, mem-cons_self}
use mathlib.Core.List.Perm
use mathlib.Core.List.{not-mem-nil, mem-cons}
use mathlib.Core.Logic.Or
use native.Mathlib.Bridge.{le_prop}
use yacul.Common.{
  true, some, refl, ◌%◌, ◌+◌, false, sym, subst, >>-eq-ok, [], ◌^◌, Bool, ◌∷◌, ◌<◌, ◌++◌, arith,
  All, Perm, ok, ◌≡◌, List, ℕ,
}
use yacul.Concurrency.LockRange.{
  exclusive, shared, resume, Entries, do_release, Wakeup, blocked, begin_wait, done, Outcome,
  Waiter, LockRange, Mode,
}
use yacul.Concurrency.LockRange.Guards.{
  unshare_in, new_guard, upgrade_begin, lock_begin, waiter_for, validate_range,
}
use yacul.Concurrency.LockRange.System.{
  here, upgrade, unlock, next, wake, lock, Step, Reach, settle, range, System,
}
use yacul.Concurrency.LockRange.Holders.{Compatible-sym, Compatible-prop, IsRequest, Holds}
use yacul.Concurrency.LockRange.Claims.{Compatible, claims, IsTable, Claim}
use yacul.Concurrency.LockRange.Release.{Removal-held, do_release-Holds, IsRange}
use yacul.Concurrency.LockRange.Queue.{waiting, resume-Queued, begin_wait-Queued, addresses, Queued}
use yacul.Concurrency.LockRange.Waits.{begin_wait-Holds, resume-Holds, HasId}
use yacul.Concurrency.LockRange.Table.{unshare_in-Removal}

pub record Inv (s : System) : Type 0 where
  pub holds : Holds s.table s.held
  pub queued : Queued s.table.waiters s.blocked
  pub requests : All IsRequest s.blocked

Holds-perm : {t : LockRange} {xs ys : List Claim} → Perm xs ys → Holds t xs → Holds t ys
Holds-perm p h = record {
  table = h.table;
  owned = Perm.trans h.owned p;
  apart = Perm.pairwise Compatible-prop Compatible-sym p h.apart;
}

Queued-perm : {ws xs ys : List Waiter} → Perm xs ys → Queued ws xs → Queued ws ys
Queued-perm p q = record {
  same = Perm.trans q.same p;
  distinct = Perm.nodup (Perm.map (λ w. w.address) p) q.distinct;
}

validate_range-ok :
    (offset length : ℕ)
    → length < 2 ^ 64
    → validate_range offset length ≡ ok tt
    → IsRange offset length
unfolding validate_range
validate_range-ok offset length small h = ground arith

waiter_for-IsRequest :
    (address offset length : ℕ) (mode : Mode)
    → IsRange offset length
    → IsRequest (waiter_for address offset length mode)
waiter_for-IsRequest address offset length mode v = ground arith

lock_begin-ok :
    (t : LockRange) (address offset length : ℕ) (mode : Mode) (no_wait : Bool)
    {r : LockRange × Outcome}
    → lock_begin t address offset length mode no_wait ≡ ok r
    → (validate_range offset length ≡ ok tt)
      × (begin_wait t (waiter_for address offset length mode) no_wait ≡ r)
unfolding lock_begin
lock_begin-ok t address offset length mode no_wait {r} h =
    >>-eq-ok (validate_range offset length) _ r h

claim_range :
    (n : ℕ) (c : Claim) (es : Entries)
    → IsTable n es
    → Mem c (claims es)
    → (c.offset < c.end) × (c.end < 2 ^ 64)
claim_range n c [] t m = absurd (not-mem-nil m)
claim_range n c ((k, e) ∷ es) t m =
    Or.elim (hlevel le_prop) (mem-cons.0 m) (λ p. rw p (t.0.nonempty, t.0.in_range))
      (λ q. claim_range n c es t.2 q)

-- Of a held claim the table knows that its range is not empty and does not wrap.
held-IsRange :
    {t : LockRange} {held : List Claim} (offset length : ℕ) (mode : Mode)
    → Holds t (range offset length mode ∷ held)
    → IsRange offset length
held-IsRange {t} offset length mode h =
    omega
      (arith, claim_range t.next_id _ t.entries h.table ((Perm.mem_iff h.owned).1 mem-cons_self))

All-middle :
    (P : Waiter → Type 0) (xs ys : List Waiter) (w : Waiter)
    → All P (xs ++ w ∷ ys)
    → P w × All P (xs ++ ys)
All-middle P [] ys w a = a
All-middle P (x ∷ xs) ys w a = let (p, rest) = All-middle P xs ys w a.1 in (p, (a.0, rest))

waiting-requests :
    (w : Waiter) (out : Outcome) (bs : List Waiter)
    → IsRequest w
    → All IsRequest bs
    → All IsRequest (waiting out w bs)
waiting-requests w (done st) bs v a = a
waiting-requests w blocked bs v a = (v, a)

lock-Inv :
    {s : System} (address offset length : ℕ) (mode : Mode) (no_wait : Bool)
    {r : LockRange × Outcome}
    → Inv s
    → HasId s.table
    → length < 2 ^ 64
    → ¬ Mem address (addresses s.blocked)
    → lock_begin s.table address offset length mode no_wait ≡ ok r
    → Inv (settle s (waiter_for address offset length mode) r)
lock-Inv {s} address offset length mode no_wait {r} v room small new e =
    let (valid, same) = lock_begin-ok s.table address offset length mode no_wait e in
    let w = waiter_for address offset length mode in
    let q =
      waiter_for-IsRequest address offset length mode
        (validate_range-ok offset length small valid) in
    subst (λ x. Inv (settle s w x)) same
      (record {
        holds = begin_wait-Holds w q no_wait v.holds room;
        queued = begin_wait-Queued w s.table no_wait v.queued new;
        requests = waiting-requests w (begin_wait s.table w no_wait).1 s.blocked q v.requests;
      })

wake-Inv :
    {s : System} (xs ys : List Waiter) (w : Waiter) (k : Wakeup)
    → Inv s
    → HasId s.table
    → s.blocked ≡ xs ++ w ∷ ys
    → Inv (settle (record s { blocked = xs ++ ys }) w (resume s.table w k))
wake-Inv {s} xs ys w k v room e =
    let (q, rest) = All-middle IsRequest xs ys w (subst (All IsRequest) e v.requests) in
    let queue = Queued-perm (perm_middle xs ys) (subst (Queued s.table.waiters) e v.queued) in
    record {
      holds = resume-Holds w q k v.holds room;
      queued = resume-Queued w s.table k queue;
      requests = waiting-requests w (resume s.table w k).1 (xs ++ ys) q rest;
    }

unlock-Inv :
    {s : System} (xs ys : List Claim) (offset length : ℕ) (mode : Mode)
    → Inv s
    → s.held ≡ xs ++ range offset length mode ∷ ys
    → Inv (record s { table = do_release s.table offset length mode; held = xs ++ ys })
unlock-Inv {s} xs ys offset length mode v e =
    let h = Holds-perm (perm_middle xs ys) (subst (Holds s.table) e v.holds) in
    let (g, woken, same) =
      do_release-Holds offset length mode (held-IsRange offset length mode h) h in
    record {
      holds = g;
      queued = subst (λ ws. Queued ws s.blocked) (sym same) v.queued;
      requests = v.requests;
    }

upgrade_begin-found :
    (t : LockRange) (address offset length : ℕ) (rest : Entries)
    → unshare_in offset ((offset + length) % 2 ^ 64) t.entries ≡ some (rest, true)
    → upgrade_begin t address (new_guard offset length shared)
      ≡ ok (
          begin_wait
            (record t { entries = rest; wakeups = t.wakeups + 1 })
            (waiter_for address offset length exclusive)
            false)
unfolding upgrade_begin
upgrade_begin-found t address offset length rest e = rw e refl

-- A shared guard's own entry is found, so an upgrade never reaches LOG(FATAL).
pub upgrade_begin-held :
    {t : LockRange} {held : List Claim} (address offset length : ℕ)
    → Holds t (range offset length shared ∷ held)
    → (u : LockRange) × Holds u held
      × (u.next_id ≡ t.next_id)
      × (u.waiters ≡ t.waiters)
      × (upgrade_begin t address (new_guard offset length shared)
          ≡ ok (begin_wait u (waiter_for address offset length exclusive) false))
upgrade_begin-held {t} address offset length h =
    let v = held-IsRange offset length shared h in
    let whole : (offset + length) % 2 ^ 64 ≡ offset + length = omega arith in
    let (rest, e, g) =
      Removal-held (range offset length shared) _ h
        (unshare_in-Removal t.next_id offset (offset + length) t.entries h.table (omega arith)) in
    (
      record t { entries = rest; wakeups = t.wakeups + 1 },
      g,
      refl,
      refl,
      upgrade_begin-found t address offset length rest
          (subst (λ n. unshare_in offset n t.entries ≡ some (rest, true)) (sym whole) e),
    )

upgrade-Inv :
    {s : System} (xs ys : List Claim) (address offset length : ℕ) {r : LockRange × Outcome}
    → Inv s
    → HasId s.table
    → ¬ Mem address (addresses s.blocked)
    → s.held ≡ xs ++ range offset length shared ∷ ys
    → upgrade_begin s.table address (new_guard offset length shared) ≡ ok r
    → Inv (settle (record s { held = xs ++ ys }) (waiter_for address offset length exclusive) r)
upgrade-Inv {s} xs ys address offset length {r} v room new e run =
    let h = Holds-perm (perm_middle xs ys) (subst (Holds s.table) e v.holds) in
    let (u, g, ids, same, runs) = upgrade_begin-held address offset length h in
    let w = waiter_for address offset length exclusive in
    let q =
      waiter_for-IsRequest address offset length exclusive (held-IsRange offset length shared h) in
    let came : begin_wait u w false ≡ r = cc (runs, run) in
    subst (λ x. Inv (settle (record s { held = xs ++ ys }) w x)) came
      (record {
        holds = begin_wait-Holds w q false g (rw ids room);
        queued =
            begin_wait-Queued w u false (subst (λ ws. Queued ws s.blocked) (sym same) v.queued) new;
        requests = waiting-requests w (begin_wait u w false).1 s.blocked q v.requests;
      })

pub Step-Inv : {s t : System} → Step s t → Inv s → Inv t
Step-Inv (lock address offset length mode no_wait room small new e) v =
    lock-Inv address offset length mode no_wait v room small new e
Step-Inv (wake xs ys w k room e) v = wake-Inv xs ys w k v room e
Step-Inv (unlock xs ys offset length mode e) v = unlock-Inv xs ys offset length mode v e
Step-Inv (upgrade xs ys address offset length room new e run) v =
    upgrade-Inv xs ys address offset length v room new e run

pub Reach-Inv : {s : System} → Reach s → Inv s
Reach-Inv here = record {
  holds = record { table = tt; owned = Perm.nil; apart = Pairwise.nil };
  queued = record { same = Perm.nil; distinct = Nodup-nil };
  requests = tt;
}
Reach-Inv (next r st) = Step-Inv st (Reach-Inv r)

-- However the threads lock, wait, time out, upgrade and release, no two claims that are held at the
-- same time share a byte unless both are shared.
pub mutual_exclusion : {s : System} → Reach s → Pairwise Compatible s.held
mutual_exclusion r = (Reach-Inv r).holds.apart

-- In every reachable state, the entries of the table are the claims that are held, each as often as it
-- is held: no entry outlives its guard, and none is missing.
pub claims-perm-held : {s : System} → Reach s → Perm (claims s.table.entries) s.held
claims-perm-held r = (Reach-Inv r).holds.owned
