-- ===== src/Memory/Arena/Adapter.antt =====
-- The allocator adapter of yacul/memory/allocator.h: deallocate does nothing.
use yacul.Common.{refl, arith, true, ◌==◌, ap, none, u64, ok, Run, Option, ℕ, ◌*◌, ◌≡◌, ◌^◌}
use yacul.Memory.Arena.{Arena, alloc_bytes}

-- `allocate(n)` for a type of a size and an alignment, where malloc answers `m`. The product is in size_t.
unfoldable pub allocate : Arena → Option ℕ → ℕ → ℕ → ℕ → Run (Arena × Option ℕ)
unfolding alloc_bytes
allocate a m size_of align_of n = alloc_bytes a m (u64 (size_of * n)) align_of

-- Where the product wraps to 0, allocate returns a null pointer for n objects, and leaves the arena as it is.
pub allocate-wrapped :
    (a : Arena) (m : Option ℕ) (size_of align_of n : ℕ)
    → size_of * n ≡ 2 ^ 64
    → allocate a m size_of align_of n ≡ ok (a, none)
unfolding allocate alloc_bytes
allocate-wrapped a m size_of align_of n e =
    let zero_size : u64 (size_of * n) ≡ 0 = ap (λ k. u64 k) e in
    let none_asked : (u64 (size_of * n) == 0) ≡ true = ground arith in
    rw (allocate, alloc_bytes, none_asked) refl
