-- ===== src/Concurrency/LockRange/Release.antt =====
-- What DoRelease and the first step of an upgrade do to the holders of the lock.
use mathlib.Core.List.{Pairwise-cons, Mem, mem-cons, not-mem-nil, mem-cons_self}
use mathlib.Core.List.Perm
use mathlib.Core.Logic.Or
use yacul.Common.{
  inr, inl, refl, some, [], ◌%◌, arith, ◌∷◌, Bool, true, Option, ◌≡◌, ◌^◌, ◌+◌, List, ◌<◌, ℕ,
}
use yacul.Concurrency.LockRange.{Entries, Mode, do_release, LockRange}
use yacul.Concurrency.LockRange.Claims.{claims, has_claim, same_claim, Claim}
use yacul.Concurrency.LockRange.Holders.{Holds}
use yacul.Concurrency.LockRange.Table.{release_in-Removal, Removal}

same_claim_refl : (c : Claim) → same_claim c c ≡ true
same_claim_refl c = ground arith

has_claim-mem : (c : Claim) (ds : List Claim) → Mem c ds → has_claim c ds ≡ true
has_claim-mem c [] m = absurd (not-mem-nil m)
has_claim-mem c (d ∷ ds) m =
    Or.elim (hlevel) (mem-cons.0 m) (λ e. rw (← e) (ground (arith, same_claim_refl c)))
      (λ n. ground (arith, has_claim-mem c ds n))

-- A held claim has an entry, and the scan takes one such entry out.
pub Removal-held :
    {t : LockRange} {held : List Claim} (c : Claim) (r : Option (Entries × Bool))
    → Holds t (c ∷ held)
    → Removal t.next_id c t.entries r
    → (rest : Entries) × (r ≡ some (rest, true))
      × Holds (record t { entries = rest; wakeups = t.wakeups + 1 }) held
Removal-held {t} {held} c r h (inl (e, out)) =
    let m : has_claim c (claims t.entries) ≡ true =
      has_claim-mem c (claims t.entries) ((Perm.mem_iff h.owned).1 mem-cons_self) in
    cc
Removal-held {t} {held} c r h (inr (rest, e, p, v, f)) = (
  rest,
  e,
  record {
    table = v;
    owned = Perm.cons_inv (Perm.trans (Perm.symm p) h.owned);
    apart = (Pairwise-cons.0 h.apart).1;
  },
)

-- A claim of a range that does not wrap, as a guard records it.
pub record IsRange (offset length : ℕ) : Type 0 where
  pub nonempty : 0 < length
  pub in_range : offset + length < 2 ^ 64

-- DoRelease of a held claim never falls through its scan: it erases one entry of that claim, leaves the
-- other holders in place, and calls notify_all once.
pub do_release-Holds :
    {t : LockRange} {held : List Claim} (offset length : ℕ) (mode : Mode)
    → IsRange offset length
    → Holds t (record { offset = offset; end = offset + length; mode = mode } ∷ held)
    → Holds (do_release t offset length mode) held
      × ((do_release t offset length mode).wakeups ≡ t.wakeups + 1)
      × ((do_release t offset length mode).waiters ≡ t.waiters)
unfolding do_release
do_release-Holds {t} {held} offset length mode v h =
    let whole : (offset + length) % 2 ^ 64 ≡ offset + length = omega arith in
    let c : Claim = record { offset = offset; end = offset + length; mode = mode } in
    let (rest, e, g) =
      Removal-held c _ h (release_in-Removal t.next_id c t.entries h.table (omega arith)) in
    rw (whole, e) (g, refl, refl)
