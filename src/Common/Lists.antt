-- ===== src/Common/Lists.antt =====
-- Lists measured and indexed by native numbers, and predicates on lists by recursion.
use Prim.Native.Nat.{ℕ, zero, suc, ◌+◌, ◌≤◌}
use yacul.Common.Tests.{if◌then◌else◌, Bool-cases}
use mathlib.Core.Path.{◌≡◌, refl, ◌∙◌, sym}
use mathlib.Core.Bool.{Bool, true, false}
use mathlib.Core.Logic.{inl, inr, ∥∥₁_elim}
use mathlib.Core.List.{List, [], ◌∷◌, ◌++◌, map, Perm, Permᴰ}
use native.Mathlib.Omega.{arith}

module _ {ℓ} {A : Type ℓ} where
  abbrev pub length : List A → ℕ
  length [] = 0
  length (x ∷ xs) = suc (length xs)

  pub length-append : (xs ys : List A) → length (xs ++ ys) ≡ length xs + length ys
  length-append [] ys = omega arith
  length-append (x ∷ xs) ys = omega (arith, length-append xs ys)

  -- Every item satisfies the predicate.
  abbrev pub All {κ} : (A → Type κ) → List A → Type κ
  All P [] = Unit
  All P (x ∷ xs) = P x × All P xs

  abbrev pub take : ℕ → List A → List A
  take zero xs = []
  take (suc n) [] = []
  take (suc n) (x ∷ xs) = x ∷ take n xs

  abbrev pub drop : ℕ → List A → List A
  drop zero xs = xs
  drop (suc n) [] = []
  drop (suc n) (x ∷ xs) = drop n xs

  abbrev pub get_or : A → List A → ℕ → A
  get_or d [] i = d
  get_or d (x ∷ xs) zero = x
  get_or d (x ∷ xs) (suc i) = get_or d xs i

-- How many of `xs` pass the test.
abbrev pub tally : {A : Type 0} → (A → Bool) → List A → ℕ
tally f [] = 0
tally f (x ∷ xs) = (if f x then 1 else 0) + tally f xs

pub tally-append :
    {A : Type 0} (f : A → Bool) (xs ys : List A) → tally f (xs ++ ys) ≡ tally f xs + tally f ys
tally-append f [] ys = omega arith
tally-append f (x ∷ xs) ys = omega (arith, tally-append f xs ys)

pub tally-map :
    {A B : Type 0} (f : B → Bool) (g : A → B) (xs : List A)
    → tally f (map g xs) ≡ tally (λ x. f (g x)) xs
tally-map f g [] = refl
tally-map f g (x ∷ xs) = omega (arith, tally-map f g xs)

pub tally-all : {A : Type 0} (xs : List A) → tally (λ x. true) xs ≡ length xs
tally-all [] = refl
tally-all (x ∷ xs) = omega (arith, tally-all xs)

pub tally-middle :
    {A : Type 0} (f : A → Bool) (xs ys : List A) (w : A)
    → tally f (xs ++ w ∷ ys) ≡ (if f w then 1 else 0) + tally f (xs ++ ys)
tally-middle f [] ys w = refl
tally-middle f (x ∷ xs) ys w = omega (arith, tally-middle f xs ys w)

-- The item in the middle, and the others.
pub All-middle :
    {A : Type 0} (P : A → Type 0) (xs ys : List A) (w : A)
    → All P (xs ++ w ∷ ys)
    → P w × All P (xs ++ ys)
All-middle P [] ys w a = a
All-middle P (x ∷ xs) ys w a = let rest = All-middle P xs ys w a.1 in (rest.0, (a.0, rest.1))

pub middle-All :
    {A : Type 0} (P : A → Type 0) (xs ys : List A) (w : A)
    → P w
    → All P (xs ++ ys)
    → All P (xs ++ w ∷ ys)
middle-All P [] ys w p a = (p, a)
middle-All P (x ∷ xs) ys w p a = (a.0, middle-All P xs ys w p a.1)

pub All-concat :
    {A : Type 0} (P : A → Type 0) (xs : List A) (w : A) → All P xs → P w → All P (xs ++ w ∷ [])
All-concat P [] w a p = (p, tt)
All-concat P (x ∷ xs) w a p = (a.0, All-concat P xs w a.1 p)

pub All-map :
    {A : Type 0} {P Q : A → Type 0} → ((a : A) → P a → Q a) → (xs : List A) → All P xs → All Q xs
All-map f [] a = tt
All-map f (x ∷ xs) a = (f x a.0, All-map f xs a.1)

pub tally-le : {A : Type 0} (f : A → Bool) (xs : List A) → tally f xs ≤ length xs
tally-le f [] = omega arith
tally-le f (x ∷ xs) = elim (Bool-cases (f x)) [
  | inl e ↦ rw e (omega (arith, tally-le f xs))
  | inr e ↦ rw e (omega (arith, tally-le f xs))
]

pub tally-zero :
    {A : Type 0} (f : A → Bool) (xs : List A) → tally f xs ≡ 0 → All (λ x. f x ≡ false) xs
tally-zero f [] e = tt
tally-zero f (x ∷ xs) e = elim (Bool-cases (f x)) [
  | inl y ↦ absurd (ground arith)
  | inr n ↦ (n, tally-zero f xs (ground arith))
]

pub All-both :
    {A : Type 0} {P Q R : A → Type 0}
    → ((a : A) → P a → Q a → R a)
    → (xs : List A) → All P xs
    → All Q xs
    → All R xs
All-both f [] a b = tt
All-both f (x ∷ xs) a b = (f x a.0 b.0, All-both f xs a.1 b.1)

-- A rearrangement has as many items that pass a test, and as many items.
tally-permᴰ : {A : Type 0} (f : A → Bool) {xs ys : List A} → Permᴰ xs ys → tally f xs ≡ tally f ys
tally-permᴰ f Permᴰ.nil = refl
tally-permᴰ f (Permᴰ.cons e q) = rw (e, tally-permᴰ f q) refl
tally-permᴰ f (Permᴰ.swap e e') = rw (e, e') (omega arith)
tally-permᴰ f (Permᴰ.trans q r) = tally-permᴰ f q ∙ tally-permᴰ f r

pub tally-perm : {A : Type 0} (f : A → Bool) {xs ys : List A} → Perm xs ys → tally f xs ≡ tally f ys
tally-perm f q = ∥∥₁_elim q (hlevel) (λ r. tally-permᴰ f r)

pub length-perm : {A : Type 0} {xs ys : List A} → Perm xs ys → length xs ≡ length ys
length-perm {xs} {ys} q = sym (tally-all xs) ∙ tally-perm (λ x. true) q ∙ tally-all ys
