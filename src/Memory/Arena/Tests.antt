-- ===== src/Memory/Arena/Tests.antt =====
-- The theorems on the arena at concrete blocks.
use yacul.Common.{false, ok, ◌≡◌, some, refl, [], ◌∷◌, List, ℕ, arith}
use yacul.Memory.Arena.{
  new_capacity, check_alignment, align_up, try_alloc, alloc_bytes, Arena, Block,
}
use yacul.Memory.Arena.Bump.{try_alloc-IsCarved, IsCarved}
use yacul.Memory.Arena.Marks.{mark-rewind, rewind, mark, ArenaMark}
use yacul.Memory.Arena.Growth.{alloc_bytes-IsServed, IsServed}

abbrev block_at : ℕ → ℕ → Block
block_at p used = record { data_at = p; capacity = 64; used = used }

abbrev arena_of : List Block → Arena
arena_of bs = record {
  blocks = bs;
  initial_block_size = 64;
  block_growth_factor = 2;
  total_allocated = 0;
  total_wasted = 0;
}

try_alloc-IsCarved_example : IsCarved (block_at 1000 3) (block_at 1000 32) 24 16 1008
try_alloc-IsCarved_example =
    try_alloc-IsCarved (block_at 1000 3) (block_at 1000 32) 24 16 1008 (omega arith) (omega arith)
      (omega arith) (omega arith) (unfold try_alloc in unfold align_up in refl)

alloc_bytes-IsServed_example :
    (a' : Arena) × (p : ℕ) × (alloc_bytes (arena_of (block_at 1000 60 ∷ [])) (some 4000) 24 16
      ≡ ok (a', some p))
    × IsServed (arena_of (block_at 1000 60 ∷ [])) a' (block_at 1000 60) [] 24 16 p
alloc_bytes-IsServed_example =
    alloc_bytes-IsServed (arena_of (block_at 1000 60 ∷ [])) (block_at 1000 60) [] 4000 24 16 refl
      (omega arith) (omega arith) (unfold check_alignment in refl) (omega arith) (omega arith)
      (omega arith) (unfold new_capacity in unfold align_up in (omega arith))

mark-rewind_example :
    (k : ArenaMark) × (mark (arena_of (block_at 1000 5 ∷ [])) ≡ ok k)
    × (rewind (arena_of (block_at 2000 9 ∷ block_at 1000 50 ∷ [])) k
        ≡ ok (arena_of (block_at 1000 5 ∷ []), record k { valid = false }))
mark-rewind_example =
    mark-rewind (arena_of (block_at 1000 5 ∷ []))
      (arena_of (block_at 2000 9 ∷ block_at 1000 50 ∷ [])) (block_at 1000 5) []
      (block_at 2000 9 ∷ []) 50 refl refl (refl, tt)
