-- ===== src/Memory/Arena/Growth.antt =====
-- AllocBytes: the block that it adds always satisfies the request.
use yacul.Common.{
  abort, Run, ap, none, Option, refl, false, add64, ◌==◌, ◌⊎◌, ◌∷◌, List, Option-cases, u64, sub64,
  zero, inr, inl, leb, Bool-cases, ◌*◌, suc, some, ok, ◌+◌, ◌^◌, ◌≤◌, ◌≡◌, ◌<◌, ℕ, arith,
}
use yacul.Memory.Arena.{
  alloc_bytes, align_up, try_alloc, new_capacity, make_block, check_alignment, Arena, Block,
}
use yacul.Memory.Arena.Bump.{try_alloc-IsCarved, IsCarved, chosen-none, chosen, align_up-least}

alignment_bounds : (align : ℕ) → check_alignment align ≡ ok tt → (0 < align) × (align ≤ 4096)
unfolding check_alignment
alignment_bounds zero h = cc
alignment_bounds (suc n) h = elim (Bool-cases (leb (suc n) 4096)) [
  | inl low ↦ (omega arith, ground arith)
  | inr high ↦ ground arith
]

make_block_lem :
    (raw n : ℕ)
    → n < 2 ^ 63
    → make_block (some raw) n ≡ ok (record { data_at = raw + 48; capacity = n; used = 0 })
unfolding make_block align_up
make_block_lem raw n small =
    let place : raw + 16 + 32 ≡ raw + 48 = omega arith in
    let bytes : sub64 (u64 (48 + n)) 48 ≡ n = omega arith in
    λ i. ok (record { data_at = place i; capacity = bytes i; used = 0 })

new_capacity-fits :
    (a : Arena) (b : Block) (size align : ℕ)
    → 0 < align
    → align ≤ 4096
    → size < 2 ^ 62
    → b.capacity * a.block_growth_factor < 2 ^ 63
    → (size + align ≤ new_capacity a b size align) × (new_capacity a b size align < 2 ^ 63)
unfolding new_capacity
new_capacity-fits a b size align pos low small grows =
    let up = align_up-least (size + 32) align pos (omega arith) in
    let whole : u64 (size + 32) ≡ size + 32 = omega arith in
    rw (whole, new_capacity) (omega (arith, up), omega (arith, up))

try_alloc-fits :
    (b : Block) (size align : ℕ)
    → 0 < align
    → b.used ≡ 0
    → b.data_at + b.capacity + align ≤ 2 ^ 64
    → size + align ≤ b.capacity
    → (p : ℕ) × (b' : Block) × (try_alloc b size align ≡ some (p, b'))
unfolding try_alloc chosen
try_alloc-fits b size align pos fresh room small =
    let up = align_up-least (b.data_at + b.used) align pos (omega arith) in
    elim (Option-cases (try_alloc b size align)) [
      | inl nothing ↦ absurd (ground (arith, chosen-none _ _ nothing, up))
      | inr ((p, b'), e) ↦ (p, b', e)
    ]

-- What a request that AllocBytes serves has become: the pointer is carved out of the current block, or out
-- of a new and empty block in front of the others.
pub record IsServed (a a' : Arena) (b : Block) (rest : List Block) (size align p : ℕ) : Type 0 where
  pub source : Block
  pub carved_block : Block
  pub carved : IsCarved source carved_block size align p
  pub placed :
      (source ≡ b) × (a'.blocks ≡ carved_block ∷ rest)
      ⊎ (source.used ≡ 0) × (a'.blocks ≡ carved_block ∷ b ∷ rest)
  pub counted : a'.total_allocated ≡ add64 a.total_allocated size

-- The way over a new block.
alloc_bytes-grown :
    (a : Arena) (b : Block) (rest : List Block) (m : Option ℕ) (size align : ℕ) (new b' : Block)
    (p : ℕ)
    → a.blocks ≡ b ∷ rest
    → (size == 0) ≡ false
    → check_alignment align ≡ ok tt
    → try_alloc b size align ≡ none
    → make_block m (new_capacity a b size align) ≡ ok new
    → try_alloc new size align ≡ some (p, b')
    → alloc_bytes a m size align
      ≡ ok (
        record a { blocks = b' ∷ b ∷ rest; total_allocated = add64 a.total_allocated size },
        some p,
      )
unfolding alloc_bytes
alloc_bytes-grown a b rest m size align new b' p e asked aligned miss made hit =
    rw (asked, aligned, e, alloc_bytes, miss, made)
      (ap
        (λ (o : Option (ℕ × Block)). elim o as (λ o. Run (Arena × Option ℕ)) [
          | none ↦ abort
          | some x ↦ ok (
            record a { blocks = x.1 ∷ b ∷ rest; total_allocated = add64 a.total_allocated size },
            some x.0,
          )
        ])
        hit)

-- AllocBytes of a request that is not empty, with an alignment that passes the CHECK and sizes that do not
-- wrap, returns a pointer if malloc does: the CHECK on the new block never fails. The pointer is carved
-- out of the current block, or out of a new block in front of it.
pub alloc_bytes-IsServed :
    (a : Arena) (b : Block) (rest : List Block) (raw size align : ℕ)
    → a.blocks ≡ b ∷ rest
    → 0 < size
    → size < 2 ^ 62
    → check_alignment align ≡ ok tt
    → b.used ≤ b.capacity
    → b.data_at + b.capacity + align ≤ 2 ^ 64
    → b.capacity * a.block_growth_factor < 2 ^ 63
    → raw + 48 + new_capacity a b size align + align ≤ 2 ^ 64
    → (a' : Arena) × (p : ℕ) × (alloc_bytes a (some raw) size align ≡ ok (a', some p))
      × IsServed a a' b rest size align p
unfolding alloc_bytes
alloc_bytes-IsServed a b rest raw size align e more small aligned fill room grows space =
    let (pos, low) = alignment_bounds align aligned in
    let asked : (size == 0) ≡ false = ground arith in
    elim (Option-cases (try_alloc b size align)) [
      | inr ((p, b'), hit) ↦ (
        record a { blocks = b' ∷ rest; total_allocated = add64 a.total_allocated size },
        p,
        rw (asked, aligned, e, alloc_bytes, hit) refl,
        record {
          source = b;
          carved_block = b';
          carved = try_alloc-IsCarved b b' size align p pos fill room (omega arith) hit;
          placed = inl (refl, refl);
          counted = refl;
        },
      )
      | inl miss ↦
          let n = new_capacity a b size align in
          let fits = new_capacity-fits a b size align pos low small grows in
          let new : Block = record { data_at = raw + 48; capacity = n; used = 0 } in
          let made = make_block_lem raw n fits.1 in
          let (p, b', hit) = try_alloc-fits new size align pos refl (omega arith) fits.0 in
          (
            record a { blocks = b' ∷ b ∷ rest; total_allocated = add64 a.total_allocated size },
            p,
            alloc_bytes-grown a b rest (some raw) size align new b' p e asked aligned miss made hit,
            record {
              source = new;
              carved_block = b';
              carved =
                  try_alloc-IsCarved new b' size align p pos (omega arith) (omega arith)
                    (omega arith) hit;
              placed = inr (refl, refl);
              counted = refl;
            },
          )
    ]
