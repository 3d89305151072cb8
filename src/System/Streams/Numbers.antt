-- ===== src/System/Streams/Numbers.antt =====
-- Numbers as the kernel prints them, and what operator>> makes of them.
use yacul.Common.{
  ap, map, ◌^◌, refl, false, ◌<◌, length, ◌||◌, [], ◌++◌, arith, ◌==◌, true, All, ◌∷◌, Bool, ◌≡◌,
  List, ℕ,
}
use yacul.System.Streams.{
  open_stream, newline, read_unsigned, is_space, is_digit_of, read_counters, value_from, Bytes,
}
use yacul.System.Streams.Reading.{
  unsigned_at-digits, digit_not_space, drop_while-append, drop_while_stop, Stops, Each,
}

-- Blanks and digits, of which there is one at least.
pub record Shown : Type 0 where
  pub blanks : Bytes
  pub first : ℕ
  pub digits : Bytes

abbrev pub number : Shown → ℕ
number n = value_from 10 0 (n.first ∷ n.digits)

abbrev pub is_blank : ℕ → Bool
is_blank c = c == 32 || c == 9

pub record IsShown (n : Shown) : Type 0 where
  pub are_blanks : Each is_blank n.blanks
  pub are_digits : Each (is_digit_of 10) (n.first ∷ n.digits)
  pub fits : number n < 2 ^ 64

pub digit_not_blank : (c : ℕ) → is_digit_of 10 c ≡ true → is_blank c ≡ false
unfolding is_digit_of
digit_not_blank c h = ground arith

pub digit_not_newline : (c : ℕ) → is_digit_of 10 c ≡ true → (c == newline) ≡ false
unfolding is_digit_of
digit_not_newline c h = ground arith

pub blank_not_newline : (c : ℕ) → is_blank c ≡ true → (c == newline) ≡ false
blank_not_newline c h = ground arith

blanks-Each : (s : Bytes) → Each is_blank s → Each is_space s
blanks-Each [] h = tt
blanks-Each (c ∷ s) h = (ground (arith, h.0), blanks-Each s h.1)

module _ (n : Shown) (v : IsShown n) (s : Bytes) (stop : Stops (is_digit_of 10) s) where
  pub read_unsigned-digits :
      (old : ℕ)
      → read_unsigned 10 64 old (open_stream (n.first ∷ (n.digits ++ s)))
        ≡ (open_stream s, number n)
  unfolding read_unsigned
  read_unsigned-digits old =
      rw (drop_while_stop is_space n.first (n.digits ++ s) (digit_not_space n.first v.are_digits.0))
        (unsigned_at-digits n.first n.digits s v.are_digits stop 64 old v.fits)

  pub read_unsigned-shown :
      (old : ℕ)
      → read_unsigned 10 64 old (open_stream (b' ' ∷ (n.blanks ++ n.first ∷ (n.digits ++ s))))
        ≡ (open_stream s, number n)
  unfolding read_unsigned
  read_unsigned-shown old =
      rw
        (
          drop_while-append is_space (b' ' ∷ n.blanks) (n.first ∷ (n.digits ++ s))
              (refl, blanks-Each n.blanks v.are_blanks),
          drop_while_stop is_space n.first (n.digits ++ s) (digit_not_space n.first v.are_digits.0),
        )
        (unsigned_at-digits n.first n.digits s v.are_digits stop 64 old v.fits)

-- Numbers in a row, each behind a blank at least.
abbrev pub print_numbers : List Shown → Bytes → Bytes
print_numbers [] s = s
print_numbers (n ∷ ns) s = b' ' ∷ (n.blanks ++ n.first ∷ (n.digits ++ print_numbers ns s))

print_numbers-Stops :
    (ns : List Shown) (s : Bytes)
    → Stops (is_digit_of 10) s
    → Stops (is_digit_of 10) (print_numbers ns s)
unfolding is_digit_of
print_numbers-Stops [] s stop = stop
print_numbers-Stops (n ∷ ns) s stop = refl

pub read_counters-print :
    (ns : List Shown) (olds : List ℕ) (s : Bytes)
    → All IsShown ns
    → length olds ≡ length ns
    → Stops (is_digit_of 10) s
    → read_counters olds (open_stream (print_numbers ns s)) ≡ map number ns
unfolding read_counters
read_counters-print [] [] s v e stop = refl
read_counters-print [] (old ∷ olds) s v e stop = absurd (omega (arith, e))
read_counters-print (n ∷ ns) [] s v e stop = absurd (omega (arith, e))
read_counters-print (n ∷ ns) (old ∷ olds) s v e stop =
    rw (read_unsigned-shown n v.0 (print_numbers ns s) (print_numbers-Stops ns s stop) old) (
      ap (λ (vs : List ℕ). number n ∷ vs)
        (read_counters-print ns olds s v.1 (omega (arith, e)) stop))
