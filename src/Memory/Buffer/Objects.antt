-- ===== src/Memory/Buffer/Objects.antt =====
-- The life of Buffer objects: the factories, the copy and move members, the destructor, slices, clones,
-- and the walks over a whole chain. The address of the object that a call makes is an argument. A walk
-- takes fuel, a bound on the nodes of the ring, and ends the run when that is used up.
use yacul.Common.{
  not, u64, sub64, false, ◌&&◌, true, zero, suc, [], leb, ◌+◌, ◌==◌, some, if◌then◌else◌, check,
  ◌++◌, ok, abort, length, Option, Run, Bool, ◌∷◌, none, List, ◌>>=◌, ◌>>◌, ℕ,
}
use yacul.Memory.Buffer.{Buffer, steal_ring_position, make_self_ring, Heap, unlink_from_ring}
use yacul.Memory.Buffer.Views.{
  cow_detach, or_abort, Malloc, retain, release_physical, create_physical, view, set_view,
  memcpy_to, create_external,
}

-- `Buffer()`
unfoldable pub construct : Heap → ℕ → Heap
unfolding make_self_ring set_view
construct h b = make_self_ring (set_view h b none 0 0) b

-- `~Buffer`
unfoldable pub destruct : Heap → ℕ → Run Heap
unfolding unlink_from_ring release_physical
destruct h b = release_physical (unlink_from_ring h b) b

-- `Create`
unfoldable pub create : Heap → ℕ → Malloc → ℕ → Run Heap
unfolding construct create_physical set_view
create h b m capacity = do
  (g, p) ← create_physical (construct h b) m capacity
  ok (set_view g b (some p) 0 0)

-- `CopyFrom`
unfoldable pub copy_from : Heap → ℕ → Malloc → List ℕ → Run Heap
unfolding create memcpy_to set_view
copy_from h b m src = do
  g ← create h b m (length src)
  if length src == 0 then ok g else (do
    p ← or_abort (g.nodes b).physical
    g' ← memcpy_to g p 0 src
    ok (set_view g' b (some p) (g'.nodes b).data_at (length src)))

-- `WrapExternal`
unfoldable pub wrap_external : Heap → ℕ → Option ℕ → (ℕ → ℕ) → ℕ → Run Heap
unfolding construct create_external set_view
wrap_external h b m bytes len = do
  (g, p) ← create_external (construct h b) m bytes len
  ok (set_view g b (some p) 0 len)

abbrev pub retain_if : Heap → Option ℕ → Run Heap
retain_if h none = ok h
retain_if h (some p) = retain h p

-- `Buffer(const Buffer &rhs)`
unfoldable pub copy_construct : Heap → ℕ → ℕ → Run Heap
unfolding set_view make_self_ring retain
copy_construct h b rhs = do
  let v = h.nodes rhs
  g ← retain_if (set_view h b v.physical v.data_at v.length) v.physical
  ok (make_self_ring g b)

-- `operator=(const Buffer &rhs)`
unfoldable pub copy_assign : Heap → ℕ → ℕ → Run Heap
unfolding copy_construct unlink_from_ring release_physical
copy_assign h b rhs =
    if b == rhs
    then ok h
    else do g ← release_physical (unlink_from_ring h b) b; copy_construct g b rhs

-- The move members take the view over, then the place in the ring.
unfoldable pub take_over : Heap → ℕ → ℕ → Heap
unfolding set_view steal_ring_position make_self_ring
take_over h b rhs =
    let v = h.nodes rhs in
    let g = steal_ring_position (set_view h b v.physical v.data_at v.length) b rhs in
    make_self_ring (set_view g rhs none 0 0) rhs

-- `Buffer(Buffer &&rhs)`
unfoldable pub move_construct : Heap → ℕ → ℕ → Heap
unfolding take_over
move_construct h b rhs = take_over h b rhs

-- `operator=(Buffer &&rhs)`
unfoldable pub move_assign_buffer : Heap → ℕ → ℕ → Run Heap
unfolding take_over unlink_from_ring release_physical
move_assign_buffer h b rhs =
    if b == rhs
    then ok h
    else do g ← release_physical (unlink_from_ring h b) b; ok (take_over g b rhs)

-- `Slice(offset, len)` into a new object `b`: the sum is a size_t.
unfoldable pub slice : Heap → ℕ → ℕ → ℕ → ℕ → Run Heap
unfolding construct set_view retain
slice h b this offset len = do
  let v = h.nodes this
  check (leb (u64 (offset + len)) v.length)
  retain_if (set_view (construct h b) b v.physical (v.data_at + offset) len) v.physical

-- `Slice(offset)`: the difference is a size_t.
unfoldable pub slice_from : Heap → ℕ → ℕ → ℕ → Run Heap
unfolding slice
slice_from h b this offset = slice h b this offset (sub64 (h.nodes this).length offset)

-- `Clone`
unfoldable pub clone : Heap → ℕ → ℕ → Malloc → Run Heap
unfolding construct copy_from view
clone h b this m = elim (h.nodes this).physical [
  | none ↦ ok (construct h b)
  | some p ↦
      if (h.nodes this).length == 0
      then ok (construct h b)
      else do xs ← view h this; copy_from h b m xs
]

-- `cur = cur->next_` until `stop` comes round again: the nodes that a walk from `cur` meets.
unfoldable pub walk : ℕ → Heap → ℕ → ℕ → Run (List ℕ)
walk zero h stop cur = abort
walk (suc fuel) h stop cur =
    let rest = walk fuel h stop (h.nodes cur).next in
    if cur == stop then ok [] else do ns ← rest; ok (cur ∷ ns)

-- The nodes of the ring of `b`, `b` first.
unfoldable pub ring_of : ℕ → Heap → ℕ → Run (List ℕ)
unfolding walk
ring_of fuel h b = do ns ← walk fuel h b (h.nodes b).next; ok (b ∷ ns)

abbrev pub sum_lengths : Heap → List ℕ → ℕ
sum_lengths h [] = 0
sum_lengths h (b ∷ bs) = u64 ((h.nodes b).length + sum_lengths h bs)

-- `ComputeChainDataLength`
unfoldable pub chain_data_length : ℕ → Heap → ℕ → Run ℕ
unfolding ring_of
chain_data_length fuel h b = do bs ← ring_of fuel h b; ok (sum_lengths h bs)

-- `CountChainElements`
unfoldable pub count_chain_elements : ℕ → Heap → ℕ → Run ℕ
unfolding ring_of
count_chain_elements fuel h b = do bs ← ring_of fuel h b; ok (length bs)

-- The loop of `ToVector`.
unfoldable pub views : Heap → List ℕ → Run (List ℕ)
unfolding view
views h [] = ok []
views h (b ∷ bs) = do xs ← view h b; ys ← views h bs; ok (xs ++ ys)

-- `ToVector`
unfoldable pub to_vector : ℕ → Heap → ℕ → Run (List ℕ)
unfolding ring_of views
to_vector fuel h b = do bs ← ring_of fuel h b; views h bs

-- The loop of `CoalesceChain`, which copies each view behind the last.
unfoldable pub gather : Heap → ℕ → ℕ → List ℕ → Run Heap
unfolding memcpy_to view
gather h p dst [] = ok h
gather h p dst (b ∷ bs) = do
  xs ← view h b
  g ← memcpy_to h p dst xs
  gather g p (dst + (h.nodes b).length) bs

-- `CoalesceChain` into a new object `out`.
unfoldable pub coalesce_chain : ℕ → Heap → ℕ → ℕ → Malloc → Run Heap
unfolding construct create gather set_view chain_data_length ring_of
coalesce_chain fuel h out b m = do
  total ← chain_data_length fuel h b
  bs ← ring_of fuel h b
  if total == 0 then ok (construct h out) else (do
    g ← create h out m total
    p ← or_abort (g.nodes out).physical
    g' ← gather g p 0 bs
    ok (set_view g' out (some p) 0 total))

-- The loop of `DestroyChain`: each node is made a ring of its own, then deleted.
unfoldable pub destroy_all : Heap → List ℕ → Run Heap
unfolding make_self_ring destruct
destroy_all h [] = ok h
destroy_all h (b ∷ bs) = do g ← destruct (make_self_ring h b) b; destroy_all g bs

-- `DestroyChain`; the ring is walked while its nodes go, which read only their own `next_`.
unfoldable pub destroy_chain : ℕ → Heap → ℕ → Run Heap
unfolding destroy_all ring_of
destroy_chain fuel h b = do bs ← ring_of fuel h b; destroy_all h bs

-- memcmp
unfoldable pub equal_bytes : List ℕ → List ℕ → Bool
equal_bytes [] [] = true
equal_bytes (x ∷ xs) (y ∷ ys) = x == y && equal_bytes xs ys
equal_bytes _ _ = false

abbrev same_pointer : Buffer → Buffer → Bool
same_pointer v w = elim v.physical [
  | none ↦ elim w.physical [ none ↦ v.data_at == w.data_at | some q ↦ false ]
  | some p ↦ elim w.physical [ none ↦ false | some q ↦ p == q && v.data_at == w.data_at ]
]

-- `operator==`: the lengths, the pointers, then the bytes.
unfoldable pub equals : Heap → ℕ → ℕ → Run Bool
unfolding equal_bytes view
equals h b rhs =
    let v = h.nodes b in
    let w = h.nodes rhs in
    if not (v.length == w.length)
    then ok false
    else if same_pointer v w
    then ok true
    else do xs ← view h b; ys ← view h rhs; ok (equal_bytes xs ys)

-- `writable_data`, whose pointer is the view's after the copy.
unfoldable pub writable_data : Heap → ℕ → Malloc → Run (Heap × ℕ)
unfolding cow_detach
writable_data h b m = do g ← cow_detach h b m; ok (g, (g.nodes b).data_at)
