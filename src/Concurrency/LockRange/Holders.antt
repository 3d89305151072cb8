-- ===== src/Concurrency/LockRange/Holders.antt =====
-- A range lock seen from its holders: the claims that are held, against the table of entries.
use mathlib.Core.List.{Pairwise, Pairwise-cons, Mem, mem-cons, not-mem-nil, Permᴰ}
use mathlib.Core.List.Perm
use mathlib.Core.Logic.{∥∥₁_elim}
use mathlib.Core.Logic.Or
use yacul.Common.{
  ◌&&◌, ◌%◌, [], ◌∷◌, refl, ◌∙◌, not, true, if◌then◌else◌, false, ◌≡◌, arith, ◌^◌, Perm, none, ◌+◌,
  List, ◌<◌,
}
use yacul.Concurrency.LockRange.{
  exclusive_waiter_in, is_exclusive, overlaps, insert_entry, can_grant, Waiter, LockRange,
}
use yacul.Concurrency.LockRange.Claims.{claims, IsTable, any_clash, Compatible, Claim}
use yacul.Concurrency.LockRange.Table.{map_insert-perm, map_insert-IsTable}
use yacul.Concurrency.LockRange.Conflict.{has_conflict-eq-any_clash}

-- `held` lists the claims that the entries stand for, in any order, and no two of them clash.
pub record Holds (t : LockRange) (held : List Claim) : Type 0 where
  pub table : IsTable t.next_id t.entries
  pub owned : Perm (claims t.entries) held
  pub apart : Pairwise Compatible held

pub Compatible-prop : (a b : Claim) → IsProp (Compatible a b)
Compatible-prop a b = hlevel

pub Compatible-sym : (a b : Claim) → Compatible a b → Compatible b a
unfolding overlaps
Compatible-sym a b h = ground arith

any_clash_mem : (c d : Claim) (ds : List Claim) → any_clash c ds ≡ false → Mem d ds → Compatible c d
any_clash_mem c d [] h m = absurd (not-mem-nil m)
any_clash_mem c d (e ∷ ds) h m =
    Or.elim (Compatible-prop c d) (mem-cons.0 m) (λ p. rw p (ground arith))
      (λ n. any_clash_mem c d ds (ground arith) n)

any_clash-permᴰ : (c : Claim) {xs ys : List Claim} → Permᴰ xs ys → any_clash c xs ≡ any_clash c ys
any_clash-permᴰ c Permᴰ.nil = refl
any_clash-permᴰ c (Permᴰ.cons e p) = rw (e, any_clash-permᴰ c p)
any_clash-permᴰ c (Permᴰ.swap e f) = rw (e, f) (ground arith)
any_clash-permᴰ c (Permᴰ.trans p q) = any_clash-permᴰ c p ∙ any_clash-permᴰ c q

pub any_clash-perm : (c : Claim) {xs ys : List Claim} → Perm xs ys → any_clash c xs ≡ any_clash c ys
any_clash-perm c p = ∥∥₁_elim p (hlevel) (λ q. any_clash-permᴰ c q)

-- What a request stands for, once it is granted.
abbrev pub request : Waiter → Claim
request w = record { offset = w.offset; end = w.end; mode = w.mode }

-- The decision of CanGrant on a lock whose holders are known: a shared request yields to a queued
-- exclusive one that overlaps it, and otherwise a request is granted exactly if it clashes with no held
-- claim.
pub can_grant-Holds :
    {t : LockRange} {held : List Claim} (w : Waiter)
    → Holds t held
    → can_grant t w.offset w.end w.mode none ≡ (
        if not (is_exclusive w.mode) && exclusive_waiter_in w.offset w.end t.waiters
        then false
        else not (any_clash (request w) held))
unfolding can_grant
can_grant-Holds {t} w h =
    rw
      (
        has_conflict-eq-any_clash t t.next_id w.offset w.end w.mode h.table,
        any_clash-perm (request w) h.owned,
      )
      refl

-- The range of a request is not empty and does not wrap, as `ValidateRange` sees to.
pub record IsRequest (w : Waiter) : Type 0 where
  pub nonempty : w.offset < w.end
  pub in_range : w.end < 2 ^ 64

pub insert_entry-Holds :
    {t : LockRange} {held : List Claim} (w : Waiter)
    → Holds t held
    → IsRequest w
    → t.next_id + 1 < 2 ^ 64
    → can_grant t w.offset w.end w.mode none ≡ true
    → Holds (insert_entry t w.offset w.end w.mode) (request w ∷ held)
unfolding insert_entry
insert_entry-Holds {t} {held} w h r room granted =
    let next : (t.next_id + 1) % 2 ^ 64 ≡ t.next_id + 1 = omega arith in
    let clear : any_clash (request w) held ≡ false = ground (arith, can_grant-Holds w h) in
    record {
      table = rw next (map_insert-IsTable t.next_id _ _ t.entries h.table refl (ground arith));
      owned =
          Perm.trans (map_insert-perm t.next_id _ _ t.entries h.table refl)
            (Perm.cons (request w) h.owned);
      apart = Pairwise-cons.1 (λ d m. any_clash_mem (request w) d held clear m, h.apart);
    }
