-- ===== src/Memory/Buffer/Splice.antt =====
-- AppendChain and PrependChain join two rings.
use yacul.Common.{
  refl, fun_ext, abort, true, arith, false, ok, ap, ◌++◌, ◌∷◌, ◌==◌, if◌then◌else◌, List, ◌≡◌, ℕ,
}
use yacul.Memory.Buffer.{Buffer, append_chain, prepend_chain, set_next, set_prev, Heap}
use yacul.Memory.Buffer.Ring.{
  Relinked-refl, Relinked-set_next, Relinked-set_prev, Distinct-append, Links-append, has-append,
  has-last, Links-last, has, retarget, Links, Relinked, last, link_writes, Apart, IsRing,
}

module _ (h : Heap) (x y : ℕ) where
  -- The four writes of the splice, with the tails `l` and `m`.
  spliced : ℕ → ℕ → Heap
  spliced l m = set_prev (set_next (set_prev (set_next h l y) y l) m x) x m

  next-spliced :
      (l m a : ℕ)
      → ((spliced l m).nodes a).next
        ≡ (if a == m then x else if a == l then y else (h.nodes a).next)
  unfolding spliced
  next-spliced l m a = simp link_writes

  prev-spliced :
      (l m a : ℕ)
      → ((spliced l m).nodes a).prev
        ≡ (if a == x then m else if a == y then l else (h.nodes a).prev)
  unfolding spliced
  prev-spliced l m a = simp link_writes

module _ (h : Heap) (x : ℕ) (xs : List ℕ) (y : ℕ) (ys : List ℕ) (r : IsRing h x xs)
    (q : IsRing h y ys) (apart : Apart (x ∷ xs) (y ∷ ys)) where
  abbrev joined : Heap
  joined = spliced h x y (last x xs) (last y ys)

  joined-left : Links joined x xs y
  joined-left =
      retarget h joined x xs x y r.links r.distinct
        (λ a m ne.
          ground (arith, next-spliced h x y (last x xs) (last y ys) a, apart a, has-last y ys))
        (λ a m. ground (arith, prev-spliced h x y (last x xs) (last y ys) a, apart a))
        (ground (
          arith,
          next-spliced h x y (last x xs) (last y ys) (last x xs),
          apart (last x xs),
          has-last x xs,
          has-last y ys,
        ))
        (ground (arith, prev-spliced h x y (last x xs) (last y ys) y, apart x))

  joined-right : Links joined y ys x
  joined-right =
      retarget h joined y ys y x q.links q.distinct
        (λ a m ne. ground (
          arith,
          next-spliced h x y (last x xs) (last y ys) a,
          apart a,
          has-last x xs,
          apart (last x xs),
        ))
        (λ a m. ground (arith, prev-spliced h x y (last x xs) (last y ys) a, apart a, apart x))
        (ground (arith, next-spliced h x y (last x xs) (last y ys) (last y ys)))
        (ground (arith, prev-spliced h x y (last x xs) (last y ys) x, apart x))

  joined-Relinked : Relinked ((x ∷ xs) ++ y ∷ ys) h joined
  unfolding spliced
  joined-Relinked = Relinked-set_prev x _ (left x (ground arith)) (
      Relinked-set_next _ x (right (last y ys) (has-last y ys)) (
        Relinked-set_prev y _ (right y (ground arith))
          (Relinked-set_next _ y (left (last x xs) (has-last x xs)) (Relinked-refl _ h))))
    where
      left : (a : ℕ) → has a (x ∷ xs) ≡ true → has a ((x ∷ xs) ++ y ∷ ys) ≡ true
      left a m = rw (has-append a (x ∷ xs) (y ∷ ys), m) refl

      right : (a : ℕ) → has a (y ∷ ys) ≡ true → has a ((x ∷ xs) ++ y ∷ ys) ≡ true
      right a m = ground (arith, has-append a (x ∷ xs) (y ∷ ys))

  -- AppendChain of a ring y, ys to a ring x, xs with no node in common makes the ring x, xs, y, ys; it
  -- writes to no other node, and moves no bytes.
  pub append_chain-IsRing :
      (g : Heap) × (append_chain h x y ≡ ok g)
      × IsRing g x (xs ++ y ∷ ys)
      × Relinked ((x ∷ xs) ++ y ∷ ys) h g
  unfolding append_chain spliced
  append_chain-IsRing = (
    joined,
    rw ((Links-last h x xs x r.links).0, (Links-last h y ys y q.links).0, other) refl,
    record {
      links = Links-append joined x xs y ys x joined-left joined-right;
      distinct = Distinct-append (x ∷ xs) (y ∷ ys) r.distinct q.distinct apart;
    },
    joined-Relinked,
  )
    where
      other : (y == x) ≡ false
      other = ground (arith, apart x)

  -- PrependChain of such a ring is the same relinking: in both cases y, ys goes between the tail of the
  -- ring and x.
  pub prepend_chain-append_chain : prepend_chain h x y ≡ append_chain h x y
  unfolding prepend_chain append_chain set_next set_prev
  prepend_chain-append_chain =
      ap (λ (f : ℕ → Buffer). if y == x then abort else ok (record h { nodes = f }))
        (fun_ext λ a. ground (
          arith,
          Links-last h x xs x r.links,
          Links-last h y ys y q.links,
          apart (last x xs),
          apart x,
          has-last x xs,
          has-last y ys,
        ))
