-- ===== src/Memory/Buffer/Chain.antt =====
-- Whole chains: what the walks over a ring compute, and what joining two rings does to their bytes.
use mathlib.Core.List.{append_assoc}
use yacul.Common.{
  ◌>>◌, check, leb, All, if◌then◌else◌, Run, none, some, Option, zero, true, length-append, ◌==◌,
  ◌>>=◌, suc, arith, ap, refl, ◌+◌, ok, [], sym, ◌∷◌, ◌<◌, false, ◌++◌, length, ◌≡◌, List, ℕ,
}
use yacul.Memory.Buffer.{Physical, append_chain, Heap}
use yacul.Memory.Buffer.Views.{or_abort, view}
use yacul.Memory.Buffer.Objects.{views, count_chain_elements, walk, to_vector, ring_of}
use yacul.Memory.Buffer.Ring.{has, Apart, Relinked, IsRing, Links}
use yacul.Memory.Buffer.Splice.{append_chain-IsRing}
use yacul.Memory.Buffer.Bytes.{read}
use yacul.Memory.Buffer.Live.{IsLive, views-contents, contents, content}

-- A walk from `u` to `stop` along the links meets the nodes on the way.
walk-Links :
    (fuel : ℕ) (h : Heap) (u : ℕ) (xs : List ℕ) (stop : ℕ)
    → Links h u xs stop
    → has stop xs ≡ false
    → length xs < fuel
    → walk fuel h stop (h.nodes u).next ≡ ok xs
unfolding walk
walk-Links zero h u xs stop l out lt = absurd (omega arith)
walk-Links (suc fuel) h u [] stop l out lt =
    let here : ((h.nodes u).next == stop) ≡ true = ground arith in rw here refl
walk-Links (suc fuel) h u (x ∷ xs) stop l out lt =
    let there : (x == stop) ≡ false = ground arith in
    let rest = walk-Links fuel h x xs stop l.2 (ground arith) (omega arith) in
    rw (l.0, there, rest) refl

pub ring_of-IsRing :
    (fuel : ℕ) (h : Heap) (x : ℕ) (xs : List ℕ)
    → IsRing h x xs
    → length xs < fuel
    → ring_of fuel h x ≡ ok (x ∷ xs)
unfolding ring_of
ring_of-IsRing fuel h x xs r lt = rw (walk-Links fuel h x xs x r.links r.distinct.0 lt) refl

contents-append :
    (h : Heap) (xs ys : List ℕ) → contents h (xs ++ ys) ≡ contents h xs ++ contents h ys
contents-append h [] ys = refl
contents-append h (x ∷ xs) ys =
    rw (contents-append h xs ys) (sym (append_assoc (content h x) (contents h xs) (contents h ys)))

-- Relinking moves no bytes.
view_at : (ℕ → Option Physical) → Option ℕ → ℕ → ℕ → Run (List ℕ)
view_at phys p n d = if n == 0 then ok [] else (do
  q ← or_abort (elim p [ none ↦ none | some a ↦ phys a ])
  check (leb (d + n) q.capacity)
  ok (read n d q.bytes))

view-Relinked : {xs : List ℕ} {h g : Heap} → Relinked xs h g → (b : ℕ) → view g b ≡ view h b
unfolding view view_at
view-Relinked r b = λ i. view_at (r.phys i) (r.physical b i) (r.length b i) (r.data_at b i)

views-Relinked :
    {xs : List ℕ} {h g : Heap} → Relinked xs h g → (bs : List ℕ) → views g bs ≡ views h bs
unfolding views
views-Relinked r [] = refl
views-Relinked r (b ∷ bs) = rw (view-Relinked r b, views-Relinked r bs) refl

-- ToVector and CountChainElements of the head x of a ring x, xs, each of whose views is empty or lies
-- within a physical buffer that is there, return, with fuel for the nodes of the ring, the bytes of its
-- views in the order of the ring, and the number of its nodes.
pub to_vector-IsRing :
    (fuel : ℕ) (h : Heap) (x : ℕ) (xs : List ℕ)
    → IsRing h x xs
    → All (IsLive h) (x ∷ xs)
    → length xs < fuel
    → (to_vector fuel h x ≡ ok (contents h (x ∷ xs)))
      × (count_chain_elements fuel h x ≡ ok (length xs + 1))
unfolding to_vector count_chain_elements
to_vector-IsRing fuel h x xs r live lt =
    rw (ring_of-IsRing fuel h x xs r lt)
      (views-contents h (x ∷ xs) live, ap (λ (n : ℕ). ok n) (omega arith))

-- After AppendChain of a disjoint ring, ToVector of the head gives the bytes of its own ring and then
-- those of the appended one.
pub to_vector-append_chain :
    (fuel : ℕ) (h : Heap) (x : ℕ) (xs : List ℕ) (y : ℕ) (ys : List ℕ)
    → IsRing h x xs
    → IsRing h y ys
    → Apart (x ∷ xs) (y ∷ ys)
    → All (IsLive h) ((x ∷ xs) ++ y ∷ ys)
    → length xs + length ys + 1 < fuel
    → (append_chain h x y >>= λ g. to_vector fuel g x)
      ≡ ok (contents h (x ∷ xs) ++ contents h (y ∷ ys))
unfolding to_vector
to_vector-append_chain fuel h x xs y ys r q apart live lt =
    let (g, same, ring, moved) = append_chain-IsRing h x xs y ys r q apart in
    rw
      (
        same,
        ring_of-IsRing fuel g x (xs ++ y ∷ ys) ring (omega (arith, length-append xs (y ∷ ys))),
        views-Relinked moved (x ∷ (xs ++ y ∷ ys)),
        views-contents h (x ∷ (xs ++ y ∷ ys)) live,
      )
      (ap (λ (bs : List ℕ). ok bs) (contents-append h (x ∷ xs) (y ∷ ys)))
