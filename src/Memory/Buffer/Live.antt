-- ===== src/Memory/Buffer/Live.antt =====
-- The bytes that the views of a chain name, where they lie within physical buffers that are there.
use yacul.Common.{
  ok, true, leb, Bool-cases, inl, inr, refl, arith, ◌==◌, Option, none, some, ◌⊎◌, ◌≡◌, ◌≤◌, ◌<◌,
  ◌+◌, ◌^◌, [], ◌∷◌, ◌++◌, All, List, ℕ,
}
use yacul.Memory.Buffer.{Heap, Physical}
use yacul.Memory.Buffer.Bytes.{read}
use yacul.Memory.Buffer.Views.{physical_of, view}
use yacul.Memory.Buffer.Objects.{views}

-- The view of `b` lies within a physical buffer that is there, or is empty.
pub record IsLive (h : Heap) (b : ℕ) : Type 0 where
  pub small : (h.nodes b).length < 2 ^ 64
  pub owned :
      ((h.nodes b).length ≡ 0)
      ⊎ (q : Physical) × (physical_of h b ≡ some q)
        × ((h.nodes b).data_at + (h.nodes b).length ≤ q.capacity)

-- `n` bytes of the physical buffer, from `o` on.
abbrev pub bytes_in : Option Physical → ℕ → ℕ → List ℕ
bytes_in own o n = elim own [ none ↦ [] | some q ↦ read n o q.bytes ]

pub bytes_in-zero : (own : Option Physical) (o : ℕ) → bytes_in own o 0 ≡ []
bytes_in-zero none o = refl
bytes_in-zero (some q) o = refl

-- The bytes of one view, and those of the views of a chain one behind the other.
abbrev pub content : Heap → ℕ → List ℕ
content h b = bytes_in (physical_of h b) (h.nodes b).data_at (h.nodes b).length

abbrev pub contents : Heap → List ℕ → List ℕ
contents h [] = []
contents h (b ∷ bs) = content h b ++ contents h bs

pub view-content : (h : Heap) (b : ℕ) → IsLive h b → view h b ≡ ok (content h b)
unfolding view
view-content h b v = elim v.owned [
  | inl bare ↦ rw bare (rw (bytes_in-zero (physical_of h b) (h.nodes b).data_at) refl)
  | inr (q, there, inside) ↦
      let passes : leb ((h.nodes b).data_at + (h.nodes b).length) q.capacity ≡ true =
        ground arith in
      elim (Bool-cases ((h.nodes b).length == 0)) [
        | inl bare ↦
            let size : (h.nodes b).length ≡ 0 = ground arith in
            rw size (rw (bytes_in-zero (physical_of h b) (h.nodes b).data_at) refl)
        | inr some_bytes ↦ rw (some_bytes, there, passes) refl
      ]
]

pub views-contents : (h : Heap) (bs : List ℕ) → All (IsLive h) bs → views h bs ≡ ok (contents h bs)
unfolding views
views-contents h [] live = refl
views-contents h (b ∷ bs) live = rw (view-content h b live.0, views-contents h bs live.1) refl
