-- ===== src/Memory/Buffer/Cursor.antt =====
-- The cursors over a chain: BufferCursor and BufferRWCursor of yacul/memory/buffer.h and
-- yacul/memory/buffer.cc. A loop takes fuel and ends the run when that is used up.
pub mod Nodes
pub mod Reading
pub mod Peeking
use yacul.Common.{
  drop, take, zero, leb, ◌++◌, some, ◌-◌, ◌||◌, check, min, ◌+◌, length, not, none, [], u64, ◌&&◌,
  suc, List, ok, ◌==◌, abort, if◌then◌else◌, sub64, Run, Bool, ℕ, ◌>>=◌, ◌>>◌,
}
use yacul.Memory.Buffer.{Heap}
use yacul.Memory.Buffer.Views.{physical_of, or_abort, Malloc, cow_detach, memcpy_to}
use yacul.Memory.Buffer.Objects.{sum_lengths, walk}
use yacul.Memory.Buffer.Bytes.{read}

pub record Cursor : Type 0 where
  pub head : ℕ
  pub current : ℕ
  pub offset : ℕ

-- `BufferCursor(head)`, and what `Reset` makes of a cursor.
abbrev pub cursor_at : ℕ → Cursor
cursor_at head = record { head = head; current = head; offset = 0 }

unfoldable pub reset_cursor : Cursor → Cursor
reset_cursor c = record c { current = c.head; offset = 0 }

-- `current_->size() - offset_`
abbrev pub available_at : Heap → ℕ → ℕ → ℕ
available_at h b offset = sub64 (h.nodes b).length offset

unfoldable pub at_end : Heap → Cursor → Bool
at_end h c = c.offset == (h.nodes c.current).length && (h.nodes c.current).next == c.head

unfoldable pub advance_if_exhausted : Heap → Cursor → Cursor
advance_if_exhausted h c =
    if c.offset == (h.nodes c.current).length && not ((h.nodes c.current).next == c.head)
    then record c { current = (h.nodes c.current).next; offset = 0 }
    else c

-- memcpy out of the view of `b`: nothing is touched where `n` is 0.
unfoldable pub copy_out : Heap → ℕ → ℕ → ℕ → Run (List ℕ)
copy_out h b offset n = if n == 0 then ok [] else (do
  q ← or_abort (physical_of h b)
  check (leb ((h.nodes b).data_at + offset + n) q.capacity)
  ok (read n ((h.nodes b).data_at + offset) q.bytes))

-- `Read`: the cursor afterwards, and the bytes that `dest` received.
unfoldable pub read_chain : ℕ → Heap → Cursor → ℕ → Run (Cursor × List ℕ)
unfolding at_end copy_out advance_if_exhausted
read_chain zero h c len = abort
read_chain (suc fuel) h c len =
    let chunk = min (available_at h c.current c.offset) len in
    let next = advance_if_exhausted h (record c { offset = c.offset + chunk }) in
    let rest = read_chain fuel h next (len - chunk) in
    if len == 0 || at_end h c
    then ok (c, [])
    else (do out ← copy_out h c.current c.offset chunk; (c', more) ← rest; ok (c', out ++ more))

-- `Skip`
unfoldable pub skip_chain : ℕ → Heap → Cursor → ℕ → Run Cursor
unfolding at_end advance_if_exhausted
skip_chain zero h c len = abort
skip_chain (suc fuel) h c len =
    let chunk = min (available_at h c.current c.offset) len in
    let next = advance_if_exhausted h (record c { offset = c.offset + chunk }) in
    let rest = skip_chain fuel h next (len - chunk) in if len == 0 || at_end h c then ok c else rest

-- The loop of `Peek` at the node `cur`. Where nothing is available it goes to the next node, and copies
-- nothing in that round.
unfoldable pub peek_from : ℕ → Heap → ℕ → ℕ → ℕ → ℕ → Run (List ℕ)
unfolding copy_out
peek_from zero h head cur off len = abort
peek_from (suc fuel) h head cur off len =
    let next = (h.nodes cur).next in
    let chunk = min (available_at h cur off) len in
    let moved = peek_from fuel h head next 0 len in
    let rest = peek_from fuel h head cur (off + chunk) (len - chunk) in
    if len == 0
    then ok []
    else if available_at h cur off == 0
    then (if next == head then ok [] else moved)
    else (do out ← copy_out h cur off chunk; more ← rest; ok (out ++ more))

-- `Peek`
unfoldable pub peek_chain : ℕ → Heap → Cursor → ℕ → Run (List ℕ)
unfolding peek_from
peek_chain fuel h c len = peek_from fuel h c.head c.current c.offset len

-- `TotalLength`
unfoldable pub total_length : ℕ → Heap → Cursor → Run ℕ
unfolding walk
total_length fuel h c = do
  bs ← walk fuel h c.head (h.nodes c.current).next
  ok (u64 (available_at h c.current c.offset + sum_lengths h bs))

-- memcpy into the view of `b`.
unfoldable pub write_node : Heap → ℕ → ℕ → List ℕ → Run Heap
unfolding memcpy_to
write_node h b offset src = elim (h.nodes b).physical [
  | none ↦ check (length src == 0) >> ok h
  | some p ↦ memcpy_to h p ((h.nodes b).data_at + offset) src
]

-- `BufferRWCursor::Write`: each round detaches the node before it writes; `mallocs` gives what malloc
-- returns in each round. The number of bytes written is the second part.
unfoldable pub write_chain : (ℕ → Malloc) → ℕ → Heap → Cursor → List ℕ → Run (Heap × Cursor × ℕ)
unfolding at_end cow_detach write_node advance_if_exhausted
write_chain mallocs zero h c src = abort
write_chain mallocs (suc fuel) h c src = if length src == 0 || at_end h c then ok (h, c, 0) else (do
  g ← cow_detach h c.current (mallocs fuel)
  let chunk = min (available_at g c.current c.offset) (length src)
  g' ← write_node g c.current c.offset (take chunk src)
  let next = advance_if_exhausted g' (record c { offset = c.offset + chunk })
  (g'', c', written) ← write_chain mallocs fuel g' next (drop chunk src)
  ok (g'', c', chunk + written))
