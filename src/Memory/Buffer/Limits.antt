-- ===== src/Memory/Buffer/Limits.antt =====
-- Where the size_t arithmetic of Slice and the growth of EnsureTailroom go wrong.
use yacul.Common.{
  Option-cases, ◌⊎◌, u64, sub64, inr, inl, ◌&&◌, ◌==◌, Bool-cases, if◌then◌else◌, length, not, refl,
  List, ◌%◌, Option, false, true, leb, ◌-◌, none, ok, arith, some, ◌≡◌, ◌+◌, abort, ◌^◌, ◌<◌, ℕ,
}
use yacul.Memory.Buffer.Objects.{construct, slice, slice_from}
use yacul.Memory.Buffer.{set_prev, set_next, make_self_ring, Physical, Heap}
use yacul.Memory.Buffer.Views.{
  physical_of, headroom, is_shared, memcpy_to, view, move_view, grown, tailroom, set_phys, set_view,
  Malloc, retain, ensure_tailroom,
}
use yacul.Memory.Buffer.Bytes.{read, length-read}

wrapped_sum : (n offset : ℕ) → n < 2 ^ 64 → offset < 2 ^ 64 → u64 (offset + sub64 n offset) ≡ n
wrapped_sum n offset h k = omega arith

-- Slice(offset) of a live buffer with an offset behind the end of its view: the length that it passes on
-- wraps round, the CHECK_LE of Slice compares the wrapped sum and passes, and the new object begins
-- behind the view that it was cut from and is 2 ^ 64 + length - offset bytes long.
pub slice_from_past_end :
    (h : Heap) (b this offset p : ℕ) (q : Physical)
    → (h.nodes this).physical ≡ some p
    → h.phys p ≡ some q
    → (h.nodes this).length < offset
    → offset < 2 ^ 64
    → (g : Heap) × (slice_from h b this offset ≡ ok g)
      × ((g.nodes b).data_at ≡ (h.nodes this).data_at + offset)
      × ((g.nodes b).length ≡ 2 ^ 64 + (h.nodes this).length - offset)
unfolding slice_from slice retain construct set_view set_phys make_self_ring set_next set_prev
slice_from_past_end h b this offset p q owns live past small =
    let n = (h.nodes this).length in
    let fits : leb (u64 (offset + sub64 n offset)) n ≡ true =
      ground (arith, wrapped_sum n offset) in
    (
      set_phys
          (set_view (construct h b) b (some p) ((h.nodes this).data_at + offset) (sub64 n offset)) p
          (some (record q { ref_count = (q.ref_count + 1) % 2 ^ 32 })),
      rw (fits, owns, live) refl,
      ground arith,
      ground arith,
    )

phys-set_phys :
    (h : Heap) (p : ℕ) (c : Option Physical) (a : ℕ)
    → (set_phys h p c).phys a ≡ (if a == p then c else h.phys a)
unfolding set_phys
phys-set_phys h p c a = refl

-- A read of a view that is not empty ends the run, or gives as many bytes as the view has.
view-cases :
    (h : Heap) (b : ℕ)
    → 0 < (h.nodes b).length
    → (view h b ≡ abort) ⊎ (xs : List ℕ) × (view h b ≡ ok xs) × (length xs ≡ (h.nodes b).length)
unfolding view
view-cases h b more =
    let v = h.nodes b in
    let some_bytes : (v.length == 0) ≡ false = ground arith in
    elim (Option-cases (physical_of h b)) [
      | inl nothing ↦ inl (rw (some_bytes, nothing) refl)
      | inr (q, there) ↦ elim (Bool-cases (leb (v.data_at + v.length) q.capacity)) [
        | inl fits ↦ inr (
          read v.length v.data_at q.bytes,
          rw (some_bytes, there, fits) refl,
          length-read v.length v.data_at q.bytes,
        )
        | inr over ↦ inl (rw (some_bytes, there, over) refl)
      ]
    ]

memcpy_to-overrun :
    (h : Heap) (p o : ℕ) (xs : List ℕ) (q : Physical)
    → h.phys p ≡ some q
    → q.capacity < o + length xs
    → memcpy_to h p o xs ≡ abort
unfolding memcpy_to
memcpy_to-overrun h p o xs q live over =
    let miss : leb (o + length xs) q.capacity ≡ false = ground arith in rw (live, miss) refl

move_view-overrun :
    (h : Heap) (b : ℕ) (m : Malloc) (head capacity : ℕ)
    → 0 < (h.nodes b).length
    → capacity < head + (h.nodes b).length
    → move_view h b m head capacity ≡ abort
unfolding move_view set_phys
move_view-overrun h b none head capacity more over = refl
move_view-overrun h b (some (a, fill)) head capacity more over = elim (view-cases h1 b more) [
  | inl ends ↦ rw (some_bytes, ends) refl
  | inr (xs, e, size) ↦
      rw
        (
          some_bytes,
          e,
          memcpy_to-overrun h1 a head xs new (ground (arith, phys-set_phys h a (some new) a))
              (omega (arith, size)),
        )
        refl
]
  where
    new : Physical
    new = record { ref_count = 1; capacity = capacity; external = false; bytes = fill }

    h1 : Heap
    h1 = set_phys h a (some new)

    some_bytes : ((h.nodes b).length == 0) ≡ false
    some_bytes = ground arith

-- The copying branch of EnsureTailroom keeps the headroom but sizes the new block without it. Where the
-- headroom and the view together exceed the new capacity, the copy of a non-empty view runs past the end
-- of the new block, whatever malloc returns for it.
pub ensure_tailroom_overruns :
    (h : Heap) (b : ℕ) (m : Malloc) (n p : ℕ) (q : Physical)
    → (h.nodes b).physical ≡ some p
    → h.phys p ≡ some q
    → tailroom h b < n
    → 0 < (h.nodes b).length
    → grown (h.nodes b).length n < (h.nodes b).data_at + (h.nodes b).length
    → ensure_tailroom h b m n ≡ abort
unfolding ensure_tailroom
ensure_tailroom_overruns h b m n p q owns live short more over =
    let full : leb n (tailroom h b) ≡ false = ground arith in
    let copies : (not (is_shared h b) && leb n (tailroom h b)) ≡ false = ground arith in
    rw copies (
      move_view-overrun h b m (headroom h b) (grown (h.nodes b).length n) more
        (rw (owns, live, headroom) over))
