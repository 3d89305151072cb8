-- ===== src/Memory/Buffer/Bytes.antt =====
-- Runs of bytes in a physical buffer.
use yacul.Common.{
  ap, zero, ◌∙◌, refl, ◌==◌, arith, suc, ◌++◌, ◌⊎◌, if◌then◌else◌, ◌≡◌, ◌<◌, ◌∷◌, [], length, ◌≤◌,
  List, ◌+◌, ℕ,
}

-- The `n` bytes from `o` on.
abbrev pub read : ℕ → ℕ → (ℕ → ℕ) → List ℕ
read zero o f = []
read (suc n) o f = f o ∷ read n (o + 1) f

-- memcpy to `o`.
unfoldable pub write : (ℕ → ℕ) → ℕ → List ℕ → ℕ → ℕ
write f o [] i = f i
write f o (x ∷ xs) i = if i == o then x else write f (o + 1) xs i

pub length-read : (n o : ℕ) (f : ℕ → ℕ) → length (read n o f) ≡ n
length-read zero o f = refl
length-read (suc n) o f = omega (arith, length-read n (o + 1) f)

-- Bytes outside of the written range stay.
pub write_outside :
    (f : ℕ → ℕ) (o : ℕ) (xs : List ℕ) (i : ℕ) → (i < o) ⊎ (o + length xs ≤ i) → write f o xs i ≡ f i
unfolding write
write_outside f o [] i h = refl
write_outside f o (x ∷ xs) i h = ground (arith, write_outside f (o + 1) xs i)

pub read_same :
    (n o : ℕ) (f g : ℕ → ℕ) → ((i : ℕ) → o ≤ i → i < o + n → g i ≡ f i) → read n o g ≡ read n o f
read_same zero o f g h = refl
read_same (suc n) o f g h =
    let first = h o (omega arith) (omega arith) in
    let rest = read_same n (o + 1) f g (λ i p q. h i (omega arith) (omega arith)) in cc

-- What was written is read back.
pub read-write : (f : ℕ → ℕ) (o : ℕ) (xs : List ℕ) → read (length xs) o (write f o xs) ≡ xs
unfolding write
read-write f o [] = refl
read-write f o (x ∷ xs) =
    let first : write f o (x ∷ xs) o ≡ x = ground arith in
    let rest : read (length xs) (o + 1) (write f o (x ∷ xs)) ≡ xs =
      read_same (length xs) (o + 1) (write f (o + 1) xs) (write f o (x ∷ xs))
        (λ i p q. ground arith)
      ∙ read-write f (o + 1) xs in
    cc

pub read-append : (m n o : ℕ) (f : ℕ → ℕ) → read (m + n) o f ≡ read m o f ++ read n (o + m) f
read-append zero n o f =
    let e : zero + n ≡ n = omega arith in let e' : o + zero ≡ o = omega arith in rw (e, e') refl
read-append (suc m) n o f =
    let e : suc m + n ≡ suc (m + n) = omega arith in
    let e' : o + suc m ≡ o + 1 + m = omega arith in
    rw (e, e') (ap (λ xs. f o ∷ xs) (read-append m n (o + 1) f))
