-- ===== src/Memory/Buffer/Views.antt =====
-- The member functions of Buffer that deal with its bytes: observers, allocation and reference counts,
-- copy on write, growth, slices and copies. A CHECK that fails, and an access through a dangling
-- pointer to bytes or outside of an allocation, end the run. headroom, tailroom, capacity_of and is_shared
-- answer for a dangling physical_ as for a null one.
use yacul.Common.{
  u64, sub64, update, ◌==◌, check, length, ◌>>=◌, ◌>>◌, [], ltb, true, none, false, ok, ◌&&◌, leb,
  some, not, abort, if◌then◌else◌, ◌/◌, ◌-◌, Bool, ◌*◌, ◌^◌, Run, List, Option, ◌%◌, ◌+◌, max, ℕ,
}
use yacul.Memory.Buffer.{Physical, Heap}
use yacul.Memory.Buffer.Bytes.{write, read}

-- What malloc returns for a new PhysicalBuffer: nullptr, or a header address and the bytes found there.
abbrev pub Malloc : Type 0
Malloc = Option (ℕ × (ℕ → ℕ))

unfoldable pub set_phys : Heap → ℕ → Option Physical → Heap
set_phys h p c = record h { phys = update h.phys p c }

-- The three members that make up a view.
unfoldable pub set_view : Heap → ℕ → Option ℕ → ℕ → ℕ → Heap
set_view h b p d n = record h {
  nodes = update h.nodes b (record (h.nodes b) { physical = p; data_at = d; length = n });
}

abbrev pub or_abort {ℓ} : {A : Type ℓ} → Option A → Run A
or_abort none = abort
or_abort (some a) = ok a

-- `PhysicalBuffer::Create`
unfoldable pub create_physical : Heap → Malloc → ℕ → Run (Heap × ℕ)
create_physical h none capacity = abort
create_physical h (some (p, fill)) capacity = ok (
  set_phys h p
      (some (record { ref_count = 1; capacity = capacity; external = false; bytes = fill })),
  p,
)

-- `PhysicalBuffer::CreateExternal`: only the header is allocated, the bytes are the caller's.
unfoldable pub create_external : Heap → Option ℕ → (ℕ → ℕ) → ℕ → Run (Heap × ℕ)
create_external h none bytes capacity = abort
create_external h (some p) bytes capacity = ok (
  set_phys h p
      (some (record { ref_count = 1; capacity = capacity; external = true; bytes = bytes })),
  p,
)

-- `Retain`, on a uint32_t.
unfoldable pub retain : Heap → ℕ → Run Heap
retain h p = do
  q ← or_abort (h.phys p)
  ok (set_phys h p (some (record q { ref_count = (q.ref_count + 1) % 2 ^ 32 })))

-- `Release`: fetch_sub returns the old count, and the last reference destroys the buffer.
unfoldable pub release : Heap → ℕ → Run Heap
release h p = do
  q ← or_abort (h.phys p)
  ok (
      if q.ref_count == 1
      then set_phys h p none
      else set_phys h p (some (record q { ref_count = (q.ref_count + 2 ^ 32 - 1) % 2 ^ 32 })))

-- `ReleasePhysical`; `data_` and `length_` stay.
unfoldable pub release_physical : Heap → ℕ → Run Heap
unfolding release set_view
release_physical h b = elim (h.nodes b).physical [
  | none ↦ ok h
  | some p ↦ do g ← release h p; ok (set_view g b none (g.nodes b).data_at (g.nodes b).length)
]

abbrev pub physical_of : Heap → ℕ → Option Physical
physical_of h b = elim (h.nodes b).physical [ none ↦ none | some p ↦ h.phys p ]

unfoldable pub headroom : Heap → ℕ → ℕ
headroom h b = elim (physical_of h b) [ none ↦ 0 | some q ↦ (h.nodes b).data_at ]

unfoldable pub tailroom : Heap → ℕ → ℕ
tailroom h b = elim (physical_of h b) [
  | none ↦ 0
  | some q ↦ sub64 (sub64 q.capacity (h.nodes b).data_at) (h.nodes b).length
]

unfoldable pub capacity_of : Heap → ℕ → ℕ
capacity_of h b = elim (physical_of h b) [ none ↦ 0 | some q ↦ q.capacity ]

unfoldable pub is_shared : Heap → ℕ → Bool
is_shared h b = elim (physical_of h b) [ none ↦ false | some q ↦ ltb 1 q.ref_count ]

-- A read of the logical view, as `ToString` copies it: a run without bytes reads nothing, any other one is
-- to lie within a physical buffer that is there.
unfoldable pub view : Heap → ℕ → Run (List ℕ)
view h b =
    let v = h.nodes b in
    if v.length == 0 then ok [] else (do
      q ← or_abort (physical_of h b)
      check (leb (v.data_at + v.length) q.capacity)
      ok (read v.length v.data_at q.bytes))

-- memcpy of `xs` to offset `o` of the physical buffer `p`.
unfoldable pub memcpy_to : Heap → ℕ → ℕ → List ℕ → Run Heap
memcpy_to h p o xs = do
  q ← or_abort (h.phys p)
  check (leb (o + length xs) q.capacity)
  ok (set_phys h p (some (record q { bytes = write q.bytes o xs })))

-- The new block of `EnsureTailroom` and `CowDetach`: the view moves to offset `head` of it.
unfoldable pub move_view : Heap → ℕ → Malloc → ℕ → ℕ → Run Heap
unfolding create_physical memcpy_to release_physical set_view
move_view h b m head capacity = do
  (h1, p) ← create_physical h m capacity
  h2 ← if (h.nodes b).length == 0 then ok h1 else (do xs ← view h1 b; memcpy_to h1 p head xs)
  h3 ← release_physical h2 b
  ok (set_view h3 b (some p) head (h3.nodes b).length)

-- `max(length_ + n, (length_ + n) * 3 / 2 + 64)` in size_t
unfoldable pub grown : ℕ → ℕ → ℕ
grown length n = max (u64 (length + n)) (u64 (u64 (u64 (length + n) * 3) / 2 + 64))

unfoldable pub ensure_tailroom : Heap → ℕ → Malloc → ℕ → Run Heap
unfolding is_shared tailroom headroom move_view grown
ensure_tailroom h b m n =
    if not (is_shared h b) && leb n (tailroom h b)
    then ok h
    else move_view h b m (headroom h b) (grown (h.nodes b).length n)

unfoldable pub reserve : Heap → ℕ → Malloc → ℕ → Run Heap
unfolding is_shared capacity_of ensure_tailroom
reserve h b m new_capacity =
    if leb new_capacity (capacity_of h b) && not (is_shared h b)
    then ok h
    else ensure_tailroom h b m
        (if ltb (h.nodes b).length new_capacity then new_capacity - (h.nodes b).length else 0)

unfoldable pub cow_detach : Heap → ℕ → Malloc → Run Heap
unfolding is_shared headroom capacity_of move_view
cow_detach h b m =
    if not (is_shared h b) then ok h else move_view h b m (headroom h b) (capacity_of h b)

unfoldable pub append_data : Heap → ℕ → Malloc → List ℕ → Run Heap
unfolding ensure_tailroom memcpy_to set_view
append_data h b m src = do
  g ← ensure_tailroom h b m (length src)
  g' ← elim (g.nodes b).physical [
    | none ↦ check (length src == 0) >> ok g
    | some p ↦ memcpy_to g p ((g.nodes b).data_at + (g.nodes b).length) src
  ]
  ok (
      set_view g' b (g'.nodes b).physical (g'.nodes b).data_at
        (u64 ((g'.nodes b).length + length src)))

unfoldable pub trim_start : Heap → ℕ → ℕ → Run Heap
unfolding set_view
trim_start h b n = do
  let v = h.nodes b
  check (leb n v.length)
  ok (set_view h b v.physical (v.data_at + n) (v.length - n))

unfoldable pub trim_end : Heap → ℕ → ℕ → Run Heap
unfolding set_view
trim_end h b n = do
  let v = h.nodes b
  check (leb n v.length)
  ok (set_view h b v.physical v.data_at (v.length - n))

unfoldable pub prepend : Heap → ℕ → ℕ → Run Heap
unfolding set_view headroom
prepend h b n = do
  let v = h.nodes b
  check (leb n (headroom h b))
  ok (set_view h b v.physical (v.data_at - n) (u64 (v.length + n)))

unfoldable pub append : Heap → ℕ → ℕ → Run Heap
unfolding set_view tailroom
append h b n = do
  let v = h.nodes b
  check (leb n (tailroom h b))
  ok (set_view h b v.physical v.data_at (u64 (v.length + n)))
