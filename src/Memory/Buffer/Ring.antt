-- ===== src/Memory/Buffer/Ring.antt =====
-- Rings of buffers: the member functions that relink them, against the lists of their nodes.
use yacul.Common.{
  if◌then◌else◌, refl, ◌∙◌, ◌||◌, ◌==◌, arith, ◌≢◌, false, true, [], ◌∷◌, ◌≡◌, Bool, ◌++◌, List, ℕ,
}
use yacul.Memory.Buffer.{set_next, set_prev, Heap}

abbrev pub has : ℕ → List ℕ → Bool
has a [] = false
has a (x ∷ xs) = a == x || has a xs

-- No address stands twice in the list.
abbrev pub Distinct : List ℕ → Type 0
Distinct [] = Unit
Distinct (x ∷ xs) = (has x xs ≡ false) × Distinct xs

-- The last of a non-empty list of nodes.
abbrev pub last : ℕ → List ℕ → ℕ
last x [] = x
last x (y ∷ ys) = last y ys

-- From `u` the nodes `xs` follow one another, and `w` follows the last; both links of each step agree.
abbrev pub Links : Heap → ℕ → List ℕ → ℕ → Type 0
Links h u [] w = ((h.nodes u).next ≡ w) × ((h.nodes w).prev ≡ u)
Links h u (v ∷ vs) w = ((h.nodes u).next ≡ v) × ((h.nodes v).prev ≡ u) × Links h v vs w

-- The ring of `x` is `x`, then `xs`.
pub record IsRing (h : Heap) (x : ℕ) (xs : List ℕ) : Type 0 where
  pub links : Links h x xs x
  pub distinct : Distinct (x ∷ xs)

pub next-set_next :
    (h : Heap) (p q a : ℕ)
    → ((set_next h p q).nodes a).next ≡ (if a == p then q else (h.nodes a).next)
unfolding set_next
next-set_next h p q a = ground arith

pub prev-set_next : (h : Heap) (p q a : ℕ) → ((set_next h p q).nodes a).prev ≡ (h.nodes a).prev
unfolding set_next
prev-set_next h p q a = ground arith

pub next-set_prev : (h : Heap) (p q a : ℕ) → ((set_prev h p q).nodes a).next ≡ (h.nodes a).next
unfolding set_prev
next-set_prev h p q a = ground arith

pub prev-set_prev :
    (h : Heap) (p q a : ℕ)
    → ((set_prev h p q).nodes a).prev ≡ (if a == p then q else (h.nodes a).prev)
unfolding set_prev
prev-set_prev h p q a = ground arith

pub ruleset link_writes = (next-set_next, prev-set_next, next-set_prev, prev-set_prev)

pub Links-last :
    (h : Heap) (u : ℕ) (xs : List ℕ) (w : ℕ)
    → Links h u xs w
    → ((h.nodes w).prev ≡ last u xs) × ((h.nodes (last u xs)).next ≡ w)
Links-last h u [] w l = (l.1, l.0)
Links-last h u (x ∷ xs) w l = Links-last h x xs w l.2

pub has-last : (u : ℕ) (xs : List ℕ) → has (last u xs) (u ∷ xs) ≡ true
has-last u [] = ground arith
has-last u (x ∷ xs) = ground (arith, has-last x xs)

-- A path of links that is led to another end: all links before the last step are kept.
pub retarget :
    (h g : Heap) (u : ℕ) (xs : List ℕ) (w v : ℕ)
    → Links h u xs w
    → Distinct (u ∷ xs)
    → ((a : ℕ) → has a (u ∷ xs) ≡ true → a ≢ last u xs → (g.nodes a).next ≡ (h.nodes a).next)
    → ((a : ℕ) → has a xs ≡ true → (g.nodes a).prev ≡ (h.nodes a).prev)
    → (g.nodes (last u xs)).next ≡ v
    → (g.nodes v).prev ≡ last u xs
    → Links g u xs v
retarget h g u [] w v l d nexts prevs to back = (to, back)
retarget h g u (x ∷ xs) w v l d nexts prevs to back =
    let ne : u ≢ last x xs = λ e. ground (arith, has-last x xs) in
    (
      nexts u (ground arith) ne ∙ l.0,
      prevs x (ground arith) ∙ l.1,
      retarget h g x xs w v l.2 d.1 (λ a m ne. nexts a (ground arith) ne)
          (λ a m. prevs a (ground arith)) to back,
    )

pub Links-append :
    (h : Heap) (u : ℕ) (xs : List ℕ) (v : ℕ) (ys : List ℕ) (w : ℕ)
    → Links h u xs v
    → Links h v ys w
    → Links h u (xs ++ v ∷ ys) w
Links-append h u [] v ys w l m = (l.0, l.1, m)
Links-append h u (x ∷ xs) v ys w l m = (l.0, l.1, Links-append h x xs v ys w l.2 m)

pub has-append : (a : ℕ) (xs ys : List ℕ) → has a (xs ++ ys) ≡ (has a xs || has a ys)
has-append a [] ys = refl
has-append a (x ∷ xs) ys = ground (arith, has-append a xs ys)

abbrev pub Apart : List ℕ → List ℕ → Type 0
Apart xs ys = (a : ℕ) → has a xs ≡ true → has a ys ≡ false

pub Distinct-append :
    (xs ys : List ℕ) → Distinct xs → Distinct ys → Apart xs ys → Distinct (xs ++ ys)
Distinct-append [] ys d e apart = e
Distinct-append (x ∷ xs) ys d e apart = (
  ground (arith, has-append x xs ys, apart x),
  Distinct-append xs ys d.1 e (λ a m. apart a (ground arith)),
)

-- What a relinking leaves alone: every node outside of the list, and the bytes that each node views.
pub record Relinked (xs : List ℕ) (h g : Heap) : Type 0 where
  pub phys : g.phys ≡ h.phys
  pub outside : (a : ℕ) → has a xs ≡ false → g.nodes a ≡ h.nodes a
  pub physical : (a : ℕ) → (g.nodes a).physical ≡ (h.nodes a).physical
  pub data_at : (a : ℕ) → (g.nodes a).data_at ≡ (h.nodes a).data_at
  pub length : (a : ℕ) → (g.nodes a).length ≡ (h.nodes a).length

pub Relinked-refl : (xs : List ℕ) (h : Heap) → Relinked xs h h
Relinked-refl xs h = record {
  phys = refl;
  outside = λ a o. refl;
  physical = λ a. refl;
  data_at = λ a. refl;
  length = λ a. refl;
}

module _ {xs : List ℕ} {h g : Heap} (p q : ℕ) (inside : has p xs ≡ true) (r : Relinked xs h g) where
  pub Relinked-set_next : Relinked xs h (set_next g p q)
  unfolding set_next
  Relinked-set_next = record {
    phys = r.phys;
    outside = λ a o. ground (arith, r.outside a);
    physical = λ a. ground (arith, r.physical a, r.physical p);
    data_at = λ a. ground (arith, r.data_at a, r.data_at p);
    length = λ a. ground (arith, r.length a, r.length p);
  }

  pub Relinked-set_prev : Relinked xs h (set_prev g p q)
  unfolding set_prev
  Relinked-set_prev = record {
    phys = r.phys;
    outside = λ a o. ground (arith, r.outside a);
    physical = λ a. ground (arith, r.physical a, r.physical p);
    data_at = λ a. ground (arith, r.data_at a, r.data_at p);
    length = λ a. ground (arith, r.length a, r.length p);
  }
