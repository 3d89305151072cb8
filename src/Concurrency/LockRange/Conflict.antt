-- ===== src/Concurrency/LockRange/Conflict.antt =====
-- The scans over the ordered table that stop early, against scans of the whole table.
use yacul.Common.{
  ℕ, ◌+◌, ◌%◌, ◌^◌, ◌≤◌, ◌<◌, ◌≡◌, refl, false, none, [], ◌∷◌, arith, ◌==◌, if◌then◌else◌,
}
use yacul.Concurrency.LockRange.{
  Mode, exclusive, Entries, LockRange, overlaps, conflict_in, has_conflict, locked_in,
  is_locked_any,
}
use yacul.Concurrency.LockRange.Claims.{Claim, claims, any_clash, IsTable, From}

-- Entries that begin at or behind the end of a range do not clash with it.
any_clash-From :
    (n : ℕ) (c : Claim) (es : Entries)
    → IsTable n es
    → From c.end es
    → any_clash c (claims es) ≡ false
unfolding overlaps
any_clash-From n c [] t f = refl
any_clash-From n c ((k, e) ∷ es) t f = ground (arith, any_clash-From n c es t.2 f.1)

From-mono : (o p : ℕ) (es : Entries) → o ≤ p → From p es → From o es
From-mono o p [] h f = tt
From-mono o p ((k, e) ∷ es) h f = (omega arith, From-mono o p es h f.1)

pub conflict_in-eq-any_clash :
    (n offset end : ℕ) (mode : Mode) (es : Entries)
    → IsTable n es
    → conflict_in offset end mode none es
      ≡ any_clash (record { offset = offset; end = end; mode = mode }) (claims es)
unfolding conflict_in overlaps
conflict_in-eq-any_clash n offset end mode [] t = refl
conflict_in-eq-any_clash n offset end mode ((k, e) ∷ es) t = ground (
  arith,
  conflict_in-eq-any_clash n offset end mode es t.2,
  any_clash-From n (record { offset = offset; end = end; mode = mode }) es t.2,
  From-mono end k.offset es,
)

-- The scan of HasConflict, which stops at the first key that lies at or behind the requested end, finds
-- a conflict in a well-formed table exactly if some entry of the whole table clashes with the request.
pub has_conflict-eq-any_clash :
    (t : LockRange) (n offset end : ℕ) (mode : Mode)
    → IsTable n t.entries
    → has_conflict t offset end mode none
      ≡ any_clash (record { offset = offset; end = end; mode = mode }) (claims t.entries)
unfolding has_conflict
has_conflict-eq-any_clash t n offset end mode h =
    conflict_in-eq-any_clash n offset end mode t.entries h

locked_in-eq-any_clash :
    (n offset end : ℕ) (es : Entries)
    → IsTable n es
    → locked_in offset end es
      ≡ any_clash (record { offset = offset; end = end; mode = exclusive }) (claims es)
unfolding locked_in overlaps
locked_in-eq-any_clash n offset end [] t = refl
locked_in-eq-any_clash n offset end ((k, e) ∷ es) t = ground (
  arith,
  locked_in-eq-any_clash n offset end es t.2,
  any_clash-From n (record { offset = offset; end = end; mode = exclusive }) es t.2,
  From-mono end k.offset es,
)

-- On a well-formed table, and where offset + length stays below 2 ^ 64, IsLockedAny says of a range
-- that is not empty whether an exclusive claim on it would clash with some entry; of an empty range it
-- says no.
pub is_locked_any-eq-any_clash :
    (t : LockRange) (n offset length : ℕ)
    → IsTable n t.entries
    → offset + length < 2 ^ 64
    → is_locked_any t offset length ≡ (
        if length == 0
        then false
        else any_clash
            (record { offset = offset; end = offset + length; mode = exclusive })
            (claims t.entries))
unfolding is_locked_any
is_locked_any-eq-any_clash t n offset length h small =
    let whole : (offset + length) % 2 ^ 64 ≡ offset + length = omega arith in
    rw (locked_in-eq-any_clash n offset ((offset + length) % 2 ^ 64) t.entries h, whole) refl
