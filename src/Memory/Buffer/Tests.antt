-- ===== src/Memory/Buffer/Tests.antt =====
-- The theorems on buffers at concrete heaps.
use yacul.Common.{
  All, inr, List, refl, arith, abort, ok, [], none, ◌+◌, ◌==◌, ◌∷◌, ◌≡◌, if◌then◌else◌, false, some,
  ℕ,
}
use yacul.Memory.Buffer.{append_chain, unlink, Heap, Buffer, Physical}
use yacul.Memory.Buffer.Objects.{count_chain_elements, to_vector}
use yacul.Memory.Buffer.Views.{grown, tailroom, ensure_tailroom}
use yacul.Memory.Buffer.Ring.{Relinked, Apart, IsRing}
use yacul.Memory.Buffer.Splice.{append_chain-IsRing}
use yacul.Memory.Buffer.Limits.{ensure_tailroom_overruns}
use yacul.Memory.Buffer.Cut.{unlink-IsRing}
use yacul.Memory.Buffer.Chain.{to_vector-IsRing}
use yacul.Memory.Buffer.Cursor.{skip_chain, read_chain, Cursor}
use yacul.Memory.Buffer.Cursor.Nodes.{IsOn}
use yacul.Memory.Buffer.Live.{IsLive, contents}
use yacul.Memory.Buffer.Cursor.Reading.{read_chain-IsRead, IsRead}

-- A view of 3 bytes at offset `d` of the physical buffer 7.
abbrev node : ℕ → ℕ → ℕ → Buffer
node d n p = record { physical = some 7; data_at = d; length = 3; next = n; prev = p }

-- A physical buffer of 8 bytes: 10, 11 and so on.
abbrev eight_bytes : Physical
eight_bytes = record { ref_count = 6; capacity = 8; external = false; bytes = λ i. i + 10 }

-- The rings 1, 2 and 3, 4, 5.
abbrev two_rings : Heap
two_rings = record {
  phys = λ a. if a == 7 then some eight_bytes else none;
  nodes = λ a.
      if a == 1
      then node 0 2 2
      else if a == 2
      then node 3 1 1
      else if a == 3
      then node 1 4 5
      else if a == 4
      then node 2 5 3
      else if a == 5
      then node 5 3 4
      else node 0 a a;
}

IsRing-pair : IsRing two_rings 1 (2 ∷ [])
IsRing-pair = record { links = (refl, refl, (refl, refl)); distinct = (refl, (refl, tt)) }

IsRing-triple : IsRing two_rings 3 (4 ∷ 5 ∷ [])
IsRing-triple = record {
  links = (refl, refl, (refl, refl, (refl, refl)));
  distinct = (refl, (refl, (refl, tt)));
}

Apart-rings : Apart (1 ∷ 2 ∷ []) (3 ∷ 4 ∷ 5 ∷ [])
Apart-rings a m = ground arith

append_chain-IsRing_example :
    (g : Heap) × (append_chain two_rings 1 3 ≡ ok g)
    × IsRing g 1 (2 ∷ 3 ∷ 4 ∷ 5 ∷ [])
    × Relinked (1 ∷ 2 ∷ 3 ∷ 4 ∷ 5 ∷ []) two_rings g
append_chain-IsRing_example =
    append_chain-IsRing two_rings 1 (2 ∷ []) 3 (4 ∷ 5 ∷ []) IsRing-pair IsRing-triple Apart-rings

unlink-IsRing_example :
    (g : Heap) × (unlink two_rings 3 ≡ (g, some 4))
    × IsRing g 3 []
    × IsRing g 4 (5 ∷ [])
    × Relinked (3 ∷ 4 ∷ 5 ∷ []) two_rings g
unlink-IsRing_example = unlink-IsRing two_rings 3 4 (5 ∷ []) IsRing-triple

IsLive-three : IsLive two_rings 3
IsLive-three = record { small = omega arith; owned = inr (eight_bytes, refl, omega arith) }

IsLive-four : IsLive two_rings 4
IsLive-four = record { small = omega arith; owned = inr (eight_bytes, refl, omega arith) }

IsLive-five : IsLive two_rings 5
IsLive-five = record { small = omega arith; owned = inr (eight_bytes, refl, omega arith) }

IsLive-triple : All (IsLive two_rings) (3 ∷ 4 ∷ 5 ∷ [])
IsLive-triple = (IsLive-three, (IsLive-four, (IsLive-five, tt)))

to_vector-IsRing_example :
    (to_vector 3 two_rings 3 ≡ ok (contents two_rings (3 ∷ 4 ∷ 5 ∷ [])))
    × (count_chain_elements 3 two_rings 3 ≡ ok 3)
to_vector-IsRing_example =
    to_vector-IsRing 3 two_rings 3 (4 ∷ 5 ∷ []) IsRing-triple IsLive-triple (omega arith)

-- A view of 3 bytes behind 300 bytes of headroom, to the end of its physical buffer.
abbrev far_view : Heap
far_view = record {
  phys = λ a.
      if a == 7
      then some (record { ref_count = 1; capacity = 303; external = false; bytes = λ i. 0 })
      else none;
  nodes = λ a. node 300 a a;
}

ensure_tailroom_overruns_example : ensure_tailroom far_view 1 (some (8, λ i. 0)) 1 ≡ abort
ensure_tailroom_overruns_example =
    ensure_tailroom_overruns far_view 1 (some (8, λ i. 0)) 1 7
      (record { ref_count = 1; capacity = 303; external = false; bytes = λ i. 0 }) refl refl
      (unfold tailroom in (omega arith)) (omega arith) (unfold grown in (omega arith))

-- A cursor at the second byte of node 3.
abbrev in_triple : Cursor
in_triple = record { head = 3; current = 3; offset = 1 }

IsOn-triple : IsOn two_rings in_triple (4 ∷ 5 ∷ [])
IsOn-triple = record {
  links = IsRing-triple.links;
  apart = refl;
  live = IsLive-triple;
  within = omega arith;
}

read_chain-IsRead_example :
    (c' : Cursor) × (out : List ℕ) × (read_chain 4 two_rings in_triple 6 ≡ ok (c', out))
    × (skip_chain 4 two_rings in_triple 6 ≡ ok c')
    × IsRead two_rings in_triple (4 ∷ 5 ∷ []) 6 c' out
read_chain-IsRead_example =
    read_chain-IsRead 4 two_rings in_triple (4 ∷ 5 ∷ []) 6 IsOn-triple (omega arith)
