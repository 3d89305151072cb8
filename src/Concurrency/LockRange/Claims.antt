-- ===== src/Concurrency/LockRange/Claims.antt =====
-- What the entries of a range lock stand for: claims on ranges of bytes, and which of them clash; and
-- what a well-formed table of entries is.
use yacul.Common.{ℕ, ◌^◌, ◌≤◌, ◌<◌, ◌≡◌, Bool, false, ◌&&◌, ◌||◌, List, [], ◌∷◌, ◌==◌, All}
use yacul.Concurrency.LockRange.{
  Mode, is_exclusive, same_mode, LockEntry, EntryKey, Entries, overlaps,
}

-- The bytes from `offset` up to `end`, read or written.
pub record Claim : Type 0 where
  pub offset : ℕ
  pub end : ℕ
  pub mode : Mode

abbrev pub claim : LockEntry → Claim
claim e = record { offset = e.offset; end = e.end; mode = e.mode }

abbrev pub claims : Entries → List Claim
claims [] = []
claims ((k, e) ∷ es) = claim e ∷ claims es

-- Two claims clash if they share a byte and one of them is exclusive.
abbrev pub clash : Claim → Claim → Bool
unfolding overlaps
clash a b = overlaps a.offset a.end b.offset b.end && (is_exclusive a.mode || is_exclusive b.mode)

abbrev pub any_clash : Claim → List Claim → Bool
any_clash c [] = false
any_clash c (d ∷ ds) = clash c d || any_clash c ds

abbrev pub Compatible : Claim → Claim → Type 0
Compatible a b = clash a b ≡ false

abbrev pub same_claim : Claim → Claim → Bool
same_claim a b = a.offset == b.offset && a.end == b.end && same_mode a.mode b.mode

abbrev pub has_claim : Claim → List Claim → Bool
has_claim c [] = false
has_claim c (d ∷ ds) = same_claim d c || has_claim c ds

-- An entry made by `InsertEntry` while the counter was below `n`.
pub record IsEntry (n : ℕ) (k : EntryKey) (e : LockEntry) : Type 0 where
  pub keyed : k.offset ≡ e.offset
  pub fresh : k.id < n
  pub nonempty : e.offset < e.end
  pub in_range : e.end < 2 ^ 64
  pub alone : e.share_count ≡ 1

-- The keys' offsets do not fall along the list.
abbrev pub From : ℕ → Entries → Type 0
From o = All (λ p. o ≤ p.0.offset)

abbrev pub IsTable : ℕ → Entries → Type 0
IsTable n [] = Unit
IsTable n ((k, e) ∷ es) = IsEntry n k e × From k.offset es × IsTable n es
