-- ===== src/Memory/Arena.antt =====
-- The arena of yacul/memory/arena.h and yacul/memory/arena.cc: blocks from malloc, the newest first, and
-- allocation by bumping an offset. Addresses are numbers below 2 ^ 64; the sizes are those of a 64-bit
-- platform, where max_align_t has the alignment 16. What malloc returns is an argument.
pub mod Adapter
pub mod Bump
pub mod Growth
pub mod Marks
mod Tests
use yacul.Common.{
  ◌>>=◌, ◌>>◌, zero, ◌||◌, sub64, [], none, ltb, leb, ◌/◌, add64, ok, ◌^◌, ◌∷◌, suc, some, ◌-◌,
  ◌==◌, ◌&&◌, false, if◌then◌else◌, ◌*◌, ◌+◌, check, abort, u64, max, Bool, Option, Run, List, ℕ,
  arith,
}

-- `data_at` is the address of `data()`, the first usable byte, which tells blocks apart.
pub record Block : Type 0 where
  pub data_at : ℕ
  pub capacity : ℕ
  pub used : ℕ

-- `blocks` follows `next` from `current_`; it is empty where `current_` is null.
pub record Arena : Type 0 where
  pub blocks : List Block
  pub initial_block_size : ℕ
  pub block_growth_factor : ℕ
  pub total_allocated : ℕ
  pub total_wasted : ℕ

-- alignof(max_align_t), sizeof(Block) and sizeof(AllocHeader)
abbrev pub max_align : ℕ
max_align = 16

abbrev pub size_of_block : ℕ
size_of_block = 24

abbrev pub size_of_header : ℕ
size_of_header = 8

-- `IsPowerOfTwo`, among the powers below 2 ^ n.
abbrev pub is_power_below : ℕ → ℕ → Bool
is_power_below zero a = false
is_power_below (suc n) a = a == 2 ^ n || is_power_below n a

-- `AlignUp` of a power of two: `(value + align - 1) & ~(align - 1)`
unfoldable pub align_up : ℕ → ℕ → ℕ
align_up value align = u64 (value + align - 1) / align * align

unfoldable pub check_alignment : ℕ → Run (Unit {0})
check_alignment align = check (is_power_below 64 align && leb align 4096)

-- `TryAlloc`: the pointer, if the block has room. The sums are in size_t.
unfoldable pub try_alloc : Block → ℕ → ℕ → Option (ℕ × Block)
unfolding align_up
try_alloc b size align =
    let base = b.data_at + b.used in
    let padding = sub64 (align_up base align) base in
    let total = add64 padding size in
    if ltb (sub64 b.capacity b.used) total
    then none
    else some (base + padding, record b { used = b.used + total })

-- `MakeBlock`, with the address that malloc returns, if it does.
unfoldable pub make_block : Option ℕ → ℕ → Run Block
unfolding align_up
make_block none minimum_capacity = abort
make_block (some raw) minimum_capacity =
    let overhead = align_up size_of_header max_align in
    let blk_header = align_up size_of_block max_align in
    let total = u64 (overhead + blk_header + minimum_capacity) in
    ok (record {
      data_at = raw + overhead + blk_header;
      capacity = sub64 total (overhead + blk_header);
      used = 0;
    })

-- The capacity that `AllocBytes` asks for.
unfoldable pub new_capacity : Arena → Block → ℕ → ℕ → ℕ
unfolding align_up
new_capacity a b size align =
    max (u64 (b.capacity * a.block_growth_factor))
      (u64 (align_up (u64 (size + align_up size_of_block max_align)) align + align))

-- `AllocBytes`: `none` is nullptr. An arena that was moved from has no block to look at.
unfoldable pub alloc_bytes : Arena → Option ℕ → ℕ → ℕ → Run (Arena × Option ℕ)
unfolding check_alignment try_alloc make_block new_capacity
alloc_bytes a m size align = if size == 0 then ok (a, none) else (do
  check_alignment align
  elim a.blocks [
    | [] ↦ abort
    | b ∷ rest ↦ elim (try_alloc b size align) [
      | some (p, b') ↦
          ok (
            record a { blocks = b' ∷ rest; total_allocated = add64 a.total_allocated size },
            some p,
          )
      | none ↦ do
        fresh ← make_block m (new_capacity a b size align)
        elim (try_alloc fresh size align) [
          | none ↦ abort
          | some (p, b') ↦ ok (
            record a { blocks = b' ∷ b ∷ rest; total_allocated = add64 a.total_allocated size },
            some p,
          )
        ]
    ]
  ])

-- `RewindTo`; a mark of a block that is gone would run off the end of the list.
unfoldable pub rewind_in : List Block → ℕ → ℕ → Run (List Block)
rewind_in [] block used = abort
rewind_in (b ∷ rest) block used =
    let older = rewind_in rest block used in
    if b.data_at == block then ok (record b { used = used } ∷ rest) else older

unfoldable pub rewind_to : Arena → ℕ → ℕ → Run Arena
unfolding rewind_in
rewind_to a block used = do bs ← rewind_in a.blocks block used; ok (record a { blocks = bs })
