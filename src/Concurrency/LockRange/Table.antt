-- ===== src/Concurrency/LockRange/Table.antt =====
-- `InsertEntry` and the two scans that take an entry out, on well-formed tables.
use mathlib.Core.List.Perm
use yacul.Common.{
  subst, not, if◌then◌else◌, refl, ◌⊎◌, ltb, inr, false, some, Bool-cases, true, Bool, inl, none,
  ◌<◌, Option, suc, ℕ, ◌+◌, ◌≤◌, ◌≡◌, [], ◌∷◌, arith, Perm,
}
use yacul.Concurrency.LockRange.{shared, release_in, Entries, LockEntry, EntryKey, map_insert}
use yacul.Concurrency.LockRange.Claims.{
  has_claim, same_claim, Claim, claim, claims, IsEntry, IsTable, From,
}
use yacul.Concurrency.LockRange.Guards.{unshare_in}

pub IsTable-mono : (n : ℕ) (es : Entries) → IsTable n es → IsTable (n + 1) es
IsTable-mono n [] t = tt
IsTable-mono n ((k, e) ∷ es) t = (ground arith, t.1, IsTable-mono n es t.2)

-- A key with the next id goes behind the keys of its offset and overwrites none.
pub map_insert-perm :
    (n : ℕ) (k : EntryKey) (e : LockEntry) (es : Entries)
    → IsTable n es
    → k.id ≡ n
    → Perm (claims (map_insert k e es)) (claim e ∷ claims es)
unfolding map_insert
map_insert-perm n k e [] t new = Perm.refl _
map_insert-perm n k e ((j, f) ∷ es) t new =
    let rest =
      Perm.trans (Perm.cons (claim f) (map_insert-perm n k e es t.2 new)) (Perm.swap _ _ _) in
    ground (arith, rest, Perm.refl (claim e ∷ claim f ∷ claims es))

From-map_insert :
    (o : ℕ) (k : EntryKey) (e : LockEntry) (es : Entries)
    → From o es
    → o ≤ k.offset
    → From o (map_insert k e es)
unfolding map_insert
From-map_insert o k e [] f h = (h, tt)
From-map_insert o k e ((j, g) ∷ es) f h = ground (arith, From-map_insert o k e es f.1 h)

From-mono : (o p : ℕ) (es : Entries) → o ≤ p → From p es → From o es
From-mono o p [] h f = tt
From-mono o p ((k, e) ∷ es) h f = (omega arith, From-mono o p es h f.1)

pub map_insert-IsTable :
    (n : ℕ) (k : EntryKey) (e : LockEntry) (es : Entries)
    → IsTable n es
    → k.id ≡ n
    → IsEntry (n + 1) k e
    → IsTable (n + 1) (map_insert k e es)
unfolding map_insert
map_insert-IsTable n k e [] t new v = (v, tt, tt)
map_insert-IsTable n k e ((j, f) ∷ es) t new v = ground (
  arith,
  map_insert-IsTable n k e es t.2 new v,
  From-map_insert j.offset k e es t.1,
  From-mono k.offset j.offset es,
  IsTable-mono n es t.2,
)

-- What a scan that takes out the first entry with the claim `c` leaves: nothing to take, or the rest of
-- a well-formed table.
abbrev pub Removal : ℕ → Claim → Entries → Option (Entries × Bool) → Type 0
Removal n c es r =
    ((r ≡ none) × (has_claim c (claims es) ≡ false))
    ⊎ ((rest : Entries) × (r ≡ some (rest, true))
        × Perm (claims es) (c ∷ claims rest)
        × IsTable n rest
        × ((o : ℕ) → From o es → From o rest))

has_claim-From :
    (n : ℕ) (c : Claim) (es : Entries)
    → IsTable n es
    → From (suc c.offset) es
    → has_claim c (claims es) ≡ false
has_claim-From n c [] t f = refl
has_claim-From n c ((k, e) ∷ es) t f = ground (arith, has_claim-From n c es t.2 f.1)

claim-eq : (e : LockEntry) (c : Claim) → same_claim (claim e) c ≡ true → claim e ≡ c
claim-eq e c h = ground arith

module _ (n : ℕ) (c : Claim) (k : EntryKey) (e : LockEntry) (es : Entries)
    (t : IsTable n ((k, e) ∷ es)) where
  Removal-here : same_claim (claim e) c ≡ true → Removal n c ((k, e) ∷ es) (some (es, true))
  Removal-here h = inr (es, refl, Perm.cons' (claim-eq e c h) (Perm.refl _), t.2, λ o f. f.1)

  Removal-later :
      (r : Option (Entries × Bool))
      → same_claim (claim e) c ≡ false
      → Removal n c es r
      → Removal n c
          ((k, e) ∷ es)
          (elim r [ none ↦ none | some (rest, gone) ↦ some ((k, e) ∷ rest, gone) ])
  Removal-later r h (inl (m, out)) = rw m (inl (refl, rw (h, out)))
  Removal-later r h (inr (rest, m, p, v, f)) = rw m (
      inr (
        (k, e) ∷ rest,
        refl,
        Perm.trans (Perm.cons (claim e) p) (Perm.swap c (claim e) (claims rest)),
        (t.0, f k.offset t.1, v),
        λ o g. (g.0, f o g.1),
      ))

  Removal-beyond : c.offset < k.offset → Removal n c ((k, e) ∷ es) none
  Removal-beyond h =
      inl (refl, ground (arith, has_claim-From n c es t.2, From-mono (suc c.offset) k.offset es))

  -- The shape of both scans: too far, no match, or a match whose count is 1.
  Removal-scan :
      (far down : Bool) (fewer : Entries) (r : Option (Entries × Bool))
      → (far ≡ true → c.offset < k.offset)
      → (ltb 1 e.share_count ≡ false → down ≡ false)
      → Removal n c es r
      → Removal n c ((k, e) ∷ es) (
          if far
          then none
          else if not (same_claim (claim e) c)
          then (elim r [ none ↦ none | some (rest, gone) ↦ some ((k, e) ∷ rest, gone) ])
          else if down
          then some (fewer, false)
          else some (es, true))
  Removal-scan true down fewer r lt one rest = Removal-beyond (lt refl)
  Removal-scan false down fewer r lt one rest = elim (Bool-cases (same_claim (claim e) c)) [
    | inl here ↦
        subst (Removal n c ((k, e) ∷ es)) (rw (here, one (ground (arith, t.0.alone))) refl)
          (Removal-here here)
    | inr miss ↦ subst (Removal n c ((k, e) ∷ es)) (rw miss refl) (Removal-later r miss rest)
  ]

-- The scan of DoRelease on a well-formed table.
pub release_in-Removal :
    (n : ℕ) (c : Claim) (es : Entries)
    → IsTable n es
    → c.offset < c.end
    → Removal n c es (release_in c.offset c.end c.mode es)
unfolding release_in
release_in-Removal n c [] t lt = inl (refl, refl)
release_in-Removal n c ((k, e) ∷ es) t lt =
    Removal-scan n c k e es t _ _ _ _ (λ h. ground arith) (λ h. ground arith)
      (release_in-Removal n c es t.2 lt)

-- The scan of UpgradeUntil, which looks for a shared claim.
pub unshare_in-Removal :
    (n offset end : ℕ) (es : Entries)
    → IsTable n es
    → offset < end
    → Removal n (record { offset = offset; end = end; mode = shared }) es (unshare_in offset end es)
unfolding unshare_in
unshare_in-Removal n offset end [] t lt = inl (refl, refl)
unshare_in-Removal n offset end ((k, e) ∷ es) t lt =
    Removal-scan n (record { offset = offset; end = end; mode = shared }) k e es t _ _ _ _
      (λ h. ground arith) (λ h. ground arith) (unshare_in-Removal n offset end es t.2 lt)
