-- ===== src/Memory/Arena/Marks.antt =====
-- The rest of the arena: construction, moves, Reset, the observers, and the marks.
use yacul.Common.{
  ◌*◌, refl, max, true, add64, ◌++◌, false, check, ◌∷◌, ltb, Option, ◌≡◌, ok, abort, ◌==◌, length,
  [], List, Bool, Run, if◌then◌else◌, ℕ, arith, ◌>>=◌, ◌>>◌, All,
}
use yacul.Memory.Arena.{size_of_block, make_block, rewind_to, rewind_in, Arena, Block}

unfoldable pub new_arena : Option ℕ → ℕ → Run Arena
unfolding make_block
new_arena m initial_size = do
  check (ltb 0 initial_size)
  let n = max initial_size (size_of_block * 2)
  b ← make_block m n
  ok (record {
    blocks = b ∷ [];
    initial_block_size = n;
    block_growth_factor = 2;
    total_allocated = 0;
    total_wasted = 0;
  })

-- `Arena(Arena &&other)`: the new arena and what is left of `other`.
unfoldable pub move_arena : Arena → Arena × Arena
move_arena other = (other, record other { blocks = [] })

-- `operator=(Arena &&other)` between two different arenas: the blocks of the left one are freed.
unfoldable pub move_assign_arena : Arena → Arena → Arena × Arena
move_assign_arena this other = (other, record other { blocks = [] })

-- `Reset`: all blocks are freed.
unfoldable pub reset_arena : Arena → Option ℕ → Run Arena
unfolding make_block
reset_arena a m = do
  b ← make_block m a.initial_block_size
  ok (record a { blocks = b ∷ []; total_allocated = 0; total_wasted = 0 })

unfoldable pub reserved_in : List Block → ℕ
reserved_in [] = 0
reserved_in (b ∷ bs) = add64 b.capacity (reserved_in bs)

unfoldable pub reserved_bytes : Arena → ℕ
unfolding reserved_in
reserved_bytes a = reserved_in a.blocks

unfoldable pub block_count : Arena → ℕ
block_count a = length a.blocks

unfoldable pub set_growth_factor : Arena → ℕ → Arena
set_growth_factor a factor = record a { block_growth_factor = if ltb factor 1 then 1 else factor }

-- `block` is the address of the current block when the mark was set.
pub record ArenaMark : Type 0 where
  pub block : ℕ
  pub used : ℕ
  pub valid : Bool

-- `Mark()` reads the current block, which a moved-from arena does not have.
unfoldable pub mark : Arena → Run ArenaMark
mark a = elim a.blocks [
  | [] ↦ abort
  | b ∷ bs ↦ ok (record { block = b.data_at; used = b.used; valid = true })
]

-- `ArenaMark::Rewind`, and what the destructor does.
unfoldable pub rewind : Arena → ArenaMark → Run (Arena × ArenaMark)
unfolding rewind_to
rewind a k =
    if k.valid
    then (do a' ← rewind_to a k.block k.used; ok (a', record k { valid = false }))
    else ok (a, k)

-- `ArenaMark(ArenaMark &&o)`: the new mark and what is left of `o`.
unfoldable pub move_mark : ArenaMark → ArenaMark × ArenaMark
move_mark o = (o, record o { valid = false })

-- `operator=(ArenaMark &&o)` between two different marks of one arena: a valid mark rewinds first.
unfoldable pub move_assign_mark :
    Arena → ArenaMark → ArenaMark → Run (Arena × ArenaMark × ArenaMark)
unfolding rewind
move_assign_mark a k o = do (a', k') ← rewind a k; ok (a', o, record o { valid = false })

rewind_in-append :
    (b : Block) (rest newer : List Block) (used : ℕ)
    → All (λ c. (c.data_at == b.data_at) ≡ false) newer
    → rewind_in (newer ++ record b { used = used } ∷ rest) b.data_at b.used ≡ ok (b ∷ rest)
unfolding rewind_in
rewind_in-append b rest [] used h = ground arith
rewind_in-append b rest (c ∷ cs) used h = rw (h.0, rewind_in-append b rest cs used h.1) refl

-- A mark of an arena with the current block b is valid. If since then blocks at other addresses have come
-- in front of b, and b has other used bytes, Rewind brings back exactly the blocks of the time of the
-- mark and leaves the mark invalid; the counters of the arena stay as they are.
pub mark-rewind :
    (a a' : Arena) (b : Block) (rest newer : List Block) (used : ℕ)
    → a.blocks ≡ b ∷ rest
    → a'.blocks ≡ newer ++ record b { used = used } ∷ rest
    → All (λ c. (c.data_at == b.data_at) ≡ false) newer
    → (k : ArenaMark) × (mark a ≡ ok k)
      × (rewind a' k ≡ ok (record a' { blocks = a.blocks }, record k { valid = false }))
unfolding mark rewind rewind_to
mark-rewind a a' b rest newer used e e' apart = (
  record { block = b.data_at; used = b.used; valid = true },
  rw (e, mark) refl,
  rw (e', e, rewind_in-append b rest newer used apart) refl,
)
