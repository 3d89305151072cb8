-- ===== src/Memory/Arena/Bump.antt =====
-- TryAlloc against the bytes of its block.
use native.Mathlib.Nat.{div-add-mod, mod-lt, mul_comm}
use yacul.Common.{
  ap, none, refl, sym, add64, true, if◌then◌else◌, false, Option, ltb, ◌/◌, sub64, Bool, ◌-◌, u64,
  some, ◌^◌, ◌≤◌, ◌+◌, ◌<◌, ◌*◌, ◌≡◌, ℕ, arith,
}
use yacul.Memory.Arena.{align_up, try_alloc, Block}

-- The `size` bytes from `p` on are what the block `b'` has given away more than `b`, but for padding in
-- front of them; they end within the capacity.
pub record IsCarved (b b' : Block) (size align p : ℕ) : Type 0 where
  pub aligned : (k : ℕ) × (p ≡ k * align)
  pub behind : b.data_at + b.used ≤ p
  pub padded : p < b.data_at + b.used + align
  pub ends : p + size ≡ b.data_at + b'.used
  pub inside : b'.used ≤ b.capacity
  pub same_place : b'.data_at ≡ b.data_at
  pub same_capacity : b'.capacity ≡ b.capacity

pub align_up-least :
    (v a : ℕ) → 0 < a → v + a ≤ 2 ^ 64 → (v ≤ align_up v a) × (align_up v a < v + a)
unfolding align_up
align_up-least v a pos small =
    let whole : u64 (v + a - 1) ≡ v + a - 1 = omega arith in
    let parts = div-add-mod (v + a - 1) a in
    let rest = mod-lt (v + a - 1) pos in
    let swap = mul_comm ((v + a - 1) / a) a in rw whole (omega arith, omega arith)

-- The choice that TryAlloc makes.
unfoldable pub chosen : Bool → ℕ × Block → Option (ℕ × Block)
chosen full r = if full then none else some r

chosen-some : (full : Bool) (r r' : ℕ × Block) → chosen full r ≡ some r' → (full ≡ false) × (r ≡ r')
unfolding chosen
chosen-some true r r' e = cc
chosen-some false r r' e = (refl, cc)

pub chosen-none : (full : Bool) (r : ℕ × Block) → chosen full r ≡ none → full ≡ true
unfolding chosen
chosen-none true r e = refl
chosen-none false r e = cc

-- Where no sum wraps, an allocation that TryAlloc makes is aligned, begins behind all earlier ones of the
-- block, ends where the block's used bytes now end, and lies within the block.
pub try_alloc-IsCarved :
    (b b' : Block) (size align p : ℕ)
    → 0 < align
    → b.used ≤ b.capacity
    → b.data_at + b.capacity + align ≤ 2 ^ 64
    → size + align ≤ 2 ^ 64
    → try_alloc b size align ≡ some (p, b')
    → IsCarved b b' size align p
unfolding try_alloc chosen align_up
try_alloc-IsCarved b b' size align p pos fill room small e = record {
  aligned = (u64 (base + align - 1) / align, ground arith);
  behind = omega (arith, at, least, pad);
  padded = omega (arith, at, least, pad);
  ends = omega (arith, at, least, pad, uses);
  inside = ground (arith, made.0, uses, least, pad);
  same_place = sym (ap (λ (r : ℕ × Block). r.1.data_at) made.1);
  same_capacity = sym (ap (λ (r : ℕ × Block). r.1.capacity) made.1);
}
  where
    base : ℕ
    base = b.data_at + b.used

    padding : ℕ
    padding = sub64 (align_up base align) base

    result : ℕ × Block
    result = (base + padding, record b { used = b.used + add64 padding size })

    made : (ltb (sub64 b.capacity b.used) (add64 padding size) ≡ false) × (result ≡ (p, b'))
    made = chosen-some _ _ _ e

    least : (base ≤ align_up base align) × (align_up base align < base + align)
    least = align_up-least base align pos (omega arith)

    pad : padding + base ≡ align_up base align
    pad = omega arith

    at : p ≡ base + padding
    at = sym (ap (λ (r : ℕ × Block). r.0) made.1)

    uses : b'.used ≡ b.used + add64 padding size
    uses = sym (ap (λ (r : ℕ × Block). r.1.used) made.1)
