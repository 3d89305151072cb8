-- ===== src/Memory/Buffer/Cut.antt =====
-- Unlink and SplitChainAfter take a ring apart.
use yacul.Common.{
  refl, ◌≢◌, true, false, ◌++◌, arith, [], some, ◌∷◌, ◌==◌, if◌then◌else◌, ◌≡◌, List, ℕ,
}
use yacul.Memory.Buffer.{
  split_chain_after, unlink_from_ring, is_chained, unlink, set_next, set_prev, make_self_ring, Heap,
}
use yacul.Memory.Buffer.Ring.{
  Relinked-refl, prev-set_next, has-append, Relinked-set_next, next-set_next, Relinked-set_prev,
  has, Links, Distinct, has-last, retarget, Links-last, last, Relinked, link_writes, IsRing,
}

module _ (h : Heap) (x y : ℕ) where
  -- The writes of Unlink, with the tail `l` of the ring.
  unlinked : ℕ → Heap
  unfolding make_self_ring
  unlinked l = make_self_ring (set_prev (set_next h l y) y l) x

  next-unlinked :
      (l a : ℕ)
      → ((unlinked l).nodes a).next ≡ (if a == x then x else if a == l then y else (h.nodes a).next)
  unfolding unlinked
  next-unlinked l a = simp link_writes

  prev-unlinked :
      (l a : ℕ)
      → ((unlinked l).nodes a).prev ≡ (if a == x then x else if a == y then l else (h.nodes a).prev)
  unfolding unlinked
  prev-unlinked l a = simp link_writes

  -- The writes of SplitChainAfter, with the predecessor `l` of `x` and the one before it.
  cut : ℕ → ℕ → Heap
  cut l m = set_prev (set_next (set_prev (set_next h x l) l x) m y) y m

  next-cut :
      (l m a : ℕ)
      → ((cut l m).nodes a).next ≡ (if a == m then y else if a == x then l else (h.nodes a).next)
  unfolding cut
  next-cut l m a = simp link_writes

  prev-cut :
      (l m a : ℕ)
      → ((cut l m).nodes a).prev ≡ (if a == y then m else if a == l then x else (h.nodes a).prev)
  unfolding cut
  prev-cut l m a = simp link_writes

unlinked-Relinked :
    (h : Heap) (x y l : ℕ) (xs : List ℕ)
    → has x xs ≡ true
    → has y xs ≡ true
    → has l xs ≡ true
    → Relinked xs h (unlinked h x y l)
unfolding unlinked make_self_ring
unlinked-Relinked h x y l xs mx my ml = Relinked-set_next x x mx (
    Relinked-set_prev x x mx
      (Relinked-set_prev y l my (Relinked-set_next l y ml (Relinked-refl xs h))))

cut-Relinked :
    (h : Heap) (x y l m : ℕ) (xs : List ℕ)
    → has x xs ≡ true
    → has y xs ≡ true
    → has l xs ≡ true
    → has m xs ≡ true
    → Relinked xs h (cut h x y l m)
unfolding cut
cut-Relinked h x y l m xs mx my ml mm = Relinked-set_prev y m my (
    Relinked-set_next m y mm
      (Relinked-set_prev l x ml (Relinked-set_next x l mx (Relinked-refl xs h))))

unlink_from_ring_lem :
    (h : Heap) (x y l : ℕ)
    → (h.nodes x).prev ≡ l
    → (h.nodes x).next ≡ y
    → x ≢ l
    → unlink_from_ring h x ≡ set_prev (set_next h l y) y l
unfolding unlink_from_ring
unlink_from_ring_lem h x y l p n ne =
    let miss : (x == l) ≡ false = ground arith in simp (p, n, next-set_next, prev-set_next, miss)

unlink_chained :
    (h : Heap) (x y l : ℕ)
    → (h.nodes x).prev ≡ l
    → (h.nodes x).next ≡ y
    → x ≢ l
    → x ≢ y
    → unlink h x ≡ (unlinked h x y l, some y)
unfolding unlink is_chained unlinked
unlink_chained h x y l p n ne away =
    let more : (y == x) ≡ false = ground arith in
    rw (unlink_from_ring_lem h x y l p n ne, n, more) refl

-- Unlink of a node x from the ring x, y, ys leaves x a ring of its own and y, ys a ring, returns y, and
-- writes to no other node.
pub unlink-IsRing :
    (h : Heap) (x y : ℕ) (ys : List ℕ)
    → IsRing h x (y ∷ ys)
    → (g : Heap) × (unlink h x ≡ (g, some y))
      × IsRing g x []
      × IsRing g y ys
      × Relinked (x ∷ y ∷ ys) h g
unlink-IsRing h x y ys r = (
  g,
  same,
  record {
    links = (
      ground (arith, next-unlinked h x y (last y ys) x),
      ground (arith, prev-unlinked h x y (last y ys) x),
    );
    distinct = ground arith;
  },
  record {
    links =
        retarget h g y ys x y r.links.2 r.distinct.1
          (λ a m ne. ground (arith, next-unlinked h x y (last y ys) a))
          (λ a m. ground (arith, prev-unlinked h x y (last y ys) a))
          (ground (arith, next-unlinked h x y (last y ys) (last y ys), has-last y ys))
          (ground (arith, prev-unlinked h x y (last y ys) y));
    distinct = r.distinct.1;
  },
  unlinked-Relinked h x y (last y ys) (x ∷ y ∷ ys) (ground arith) (ground arith)
      (ground (arith, has-last y ys)),
)
  where
    g : Heap
    g = unlinked h x y (last y ys)

    tail : ((h.nodes x).prev ≡ last y ys) × ((h.nodes (last y ys)).next ≡ x)
    tail = Links-last h y ys x r.links.2

    same : unlink h x ≡ (unlinked h x y (last y ys), some y)
    same =
        unlink_chained h x y (last y ys) tail.0 r.links.0 (λ e. ground (arith, has-last y ys))
          (λ e. ground arith)

Links-split :
    (h : Heap) (u : ℕ) (xs : List ℕ) (v : ℕ) (ys : List ℕ) (w : ℕ)
    → Links h u (xs ++ v ∷ ys) w
    → Links h u xs v × Links h v ys w
Links-split h u [] v ys w l = ((l.0, l.1), l.2)
Links-split h u (x ∷ xs) v ys w l = let (a, b) = Links-split h x xs v ys w l.2 in ((l.0, l.1, a), b)

Distinct-split : (xs : List ℕ) (l : ℕ) → Distinct (xs ++ l ∷ []) → Distinct xs × (has l xs ≡ false)
Distinct-split [] l d = (tt, refl)
Distinct-split (x ∷ xs) l d =
    let (a, b) = Distinct-split xs l d.1 in
    ((ground (arith, has-append x xs (l ∷ [])), a), ground (arith, has-append x xs (l ∷ [])))

-- SplitChainAfter of a node x of a ring x, y, ys, l of at least three nodes leaves two rings: x with its
-- predecessor l, and y, ys. It returns y and writes to no other node.
pub split_chain_after-IsRing :
    (h : Heap) (x y l : ℕ) (ys : List ℕ)
    → IsRing h x ((y ∷ ys) ++ l ∷ [])
    → (g : Heap) × (split_chain_after h x ≡ (g, some y))
      × IsRing g x (l ∷ [])
      × IsRing g y ys
      × Relinked (x ∷ l ∷ y ∷ ys) h g
unfolding split_chain_after is_chained cut
split_chain_after-IsRing h x y l ys r = (
  g,
  rw (r.links.0, at_l.1, inner.0, chained) refl,
  record {
    links = (
      ground (arith, next-cut h x y l m x, x_m),
      ground (arith, prev-cut h x y l m l, l_out),
      (
        ground (arith, next-cut h x y l m l, at_l, l_out, has-last y ys, x_l),
        ground (arith, prev-cut h x y l m x, at_l, x_l, x_out),
      ),
    );
    distinct = ground (arith, x_l);
  },
  record {
    links =
        retarget h g y ys l y parts.0 split.0
          (λ a k ne. ground (arith, next-cut h x y l m a, x_out_all a))
          (λ a k. ground (arith, prev-cut h x y l m a, ne_l a k, ne_y a k))
          (ground (arith, next-cut h x y l m m)) (ground (arith, prev-cut h x y l m y));
    distinct = split.0;
  },
  cut-Relinked h x y l m (x ∷ l ∷ y ∷ ys) (ground arith) (ground arith) (ground arith)
      (ground (arith, has-last y ys)),
)
  where
    m : ℕ
    m = last y ys

    g : Heap
    g = cut h x y l m

    parts : Links h y ys l × Links h l [] x
    parts = Links-split h y ys l [] x r.links.2

    at_l : ((h.nodes l).next ≡ x) × ((h.nodes x).prev ≡ l)
    at_l = parts.1

    inner : ((h.nodes l).prev ≡ m) × ((h.nodes m).next ≡ l)
    inner = Links-last h y ys l parts.0

    split : Distinct (y ∷ ys) × (has l (y ∷ ys) ≡ false)
    split = Distinct-split (y ∷ ys) l r.distinct.1

    l_out : has l (y ∷ ys) ≡ false
    l_out = split.1

    x_out : has x (y ∷ ys) ≡ false
    x_out = ground (arith, r.distinct.0, has-append x (y ∷ ys) (l ∷ []))

    x_l : x ≢ l
    x_l = λ e. ground (arith, r.distinct.0, has-append x (y ∷ ys) (l ∷ []))

    x_m : x ≢ m
    x_m = λ e. ground (arith, x_out, has-last y ys)

    x_out_all : (a : ℕ) → has a (y ∷ ys) ≡ true → a ≢ x
    x_out_all a k = λ e. ground (arith, x_out)

    chained : (y == x) ≡ false
    chained = ground (arith, x_out)

    ne_l : (a : ℕ) → has a ys ≡ true → a ≢ l
    ne_l a k = λ e. ground (arith, l_out)

    ne_y : (a : ℕ) → has a ys ≡ true → a ≢ y
    ne_y a k = λ e. ground (arith, split)

-- In a ring of two nodes SplitChainAfter of either changes nothing: x, y stays one ring, and y is
-- returned all the same.
pub split_chain_after-pair :
    (h : Heap) (x y : ℕ)
    → IsRing h x (y ∷ [])
    → (g : Heap) × (split_chain_after h x ≡ (g, some y)) × IsRing g x (y ∷ [])
unfolding split_chain_after is_chained cut
split_chain_after-pair h x y r = (
  cut h x y y x,
  rw (r.links.0, r.links.2.1, r.links.1, chained) refl,
  record {
    links = (
      ground (arith, next-cut h x y y x x),
      ground (arith, prev-cut h x y y x y),
      (
        ground (arith, next-cut h x y y x y, r.links.2),
        ground (arith, prev-cut h x y y x x, r.links.2),
      ),
    );
    distinct = r.distinct;
  },
)
  where
    chained : (y == x) ≡ false
    chained = ground (arith, r.distinct)
