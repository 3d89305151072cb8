-- ===== src/Memory/Buffer.antt =====
-- The heap under yacul/memory/buffer.h and yacul/memory/buffer.cc. A PhysicalBuffer stands at an address
-- of `phys`, a Buffer at an address of `nodes`. `data` is the offset of `data_` from the first byte of
-- the physical buffer; a Buffer with no physical buffer has no bytes. What malloc returns is an argument:
-- the address of the new header, and the bytes that it finds there.
pub mod Ring
pub mod Splice
pub mod Cut
pub mod Bytes
pub mod Views
pub mod Objects
pub mod Live
pub mod Chain
pub mod Limits
pub mod Cursor
mod Tests
use yacul.Common.{
  ℕ, ◌+◌, ◌-◌, ◌%◌, ◌^◌, Bool, true, false, not, ◌&&◌, Option, none, some, ltb, leb, ◌==◌,
  if◌then◌else◌, Run, ok, abort, update,
}

-- `bytes i` is byte `i` of the data, for `i` below `capacity`; `external` is kFlagExternal.
pub record Physical : Type 0 where
  pub ref_count : ℕ
  pub capacity : ℕ
  pub external : Bool
  pub bytes : ℕ → ℕ

pub record Buffer : Type 0 where
  pub physical : Option ℕ
  pub data_at : ℕ
  pub length : ℕ
  pub next : ℕ
  pub prev : ℕ

pub record Heap : Type 0 where
  pub phys : ℕ → Option Physical
  pub nodes : ℕ → Buffer

unfoldable pub set_next : Heap → ℕ → ℕ → Heap
set_next h p q = record h { nodes = update h.nodes p (record (h.nodes p) { next = q }) }

unfoldable pub set_prev : Heap → ℕ → ℕ → Heap
set_prev h p q = record h { nodes = update h.nodes p (record (h.nodes p) { prev = q }) }

unfoldable pub make_self_ring : Heap → ℕ → Heap
make_self_ring h p = set_next (set_prev h p p) p p

unfoldable pub is_chained : Heap → ℕ → Bool
is_chained h p = not ((h.nodes p).next == p)

-- `prev_->next_ = next_`, then `next_->prev_ = prev_`.
unfoldable pub unlink_from_ring : Heap → ℕ → Heap
unlink_from_ring h p =
    let g = set_next h (h.nodes p).prev (h.nodes p).next in
    set_prev g (g.nodes p).next (g.nodes p).prev

-- CHECK_NE(other, this), then the splice.
unfoldable pub append_chain : Heap → ℕ → ℕ → Run Heap
append_chain h this other =
    let this_tail = (h.nodes this).prev in
    let other_tail = (h.nodes other).prev in
    if other == this
    then abort
    else ok (
        set_prev (set_next (set_prev (set_next h this_tail other) other this_tail) other_tail this)
          this other_tail)

unfoldable pub prepend_chain : Heap → ℕ → ℕ → Run Heap
prepend_chain h this other =
    let other_tail = (h.nodes other).prev in
    let g = set_next h other_tail this in
    let this_prev = (g.nodes this).prev in
    if other == this
    then abort
    else ok (set_prev (set_prev (set_next g this_prev other) other this_prev) this other_tail)

-- `none` is nullptr.
unfoldable pub unlink : Heap → ℕ → Heap × Option ℕ
unfolding is_chained make_self_ring unlink_from_ring
unlink h p =
    if not (is_chained h p)
    then (h, none)
    else (make_self_ring (unlink_from_ring h p) p, some (h.nodes p).next)

unfoldable pub split_chain_after : Heap → ℕ → Heap × Option ℕ
unfolding is_chained
split_chain_after h this =
    let rh = (h.nodes this).next in
    let lh = (h.nodes this).prev in
    let rt = (h.nodes lh).prev in
    if not (is_chained h this)
    then (h, none)
    else (set_prev (set_next (set_prev (set_next h this lh) lh this) rt rh) rh rt, some rh)

-- `StealRingPosition(rhs)` of the node `this`.
unfoldable pub steal_ring_position : Heap → ℕ → ℕ → Heap
unfolding is_chained make_self_ring
steal_ring_position h this rhs =
    if not (is_chained h rhs)
    then make_self_ring h this
    else (let g = set_prev (set_next h this (h.nodes rhs).next) this (h.nodes rhs).prev in
        let g' = set_prev g (g.nodes this).next this in set_next g' (g'.nodes this).prev this)
