-- ===== src/System/Streams/Reading.antt =====
-- What the reading functions return on texts of a known form.
use yacul.Common.{
  not, inr, inl, ◌^◌, leb, ◌<◌, Bool-cases, some, arith, refl, true, [], false, ◌∷◌, ◌≡◌, ◌==◌,
  ◌++◌, All, Bool, ℕ,
}
use yacul.System.Streams.{
  word_at, newline, read_word, open_stream, value_from, pos, is_space, scan_number, signed_at,
  unsigned_at, signed, behind_prefix, is_digit_of, bytes_eq, drop_while, lines, cut_at, span, Bytes,
}

-- No character of the text passes the test, or each of them does.
abbrev pub None : (ℕ → Bool) → Bytes → Type 0
None test = All (λ c. test c ≡ false)

abbrev pub Each : (ℕ → Bool) → Bytes → Type 0
Each test = All (λ c. test c ≡ true)

pub bytes_eq_refl : (s : Bytes) → bytes_eq s s ≡ true
bytes_eq_refl [] = refl
bytes_eq_refl (c ∷ s) = ground (arith, bytes_eq_refl s)

pub bytes_eq-eq : (s t : Bytes) → bytes_eq s t ≡ true → s ≡ t
bytes_eq-eq [] [] h = refl
bytes_eq-eq [] (d ∷ t) h = cc
bytes_eq-eq (c ∷ s) [] h = cc
bytes_eq-eq (c ∷ s) (d ∷ t) h = ground (arith, bytes_eq-eq s t)

pub cut_at-append :
    (c : ℕ) (k s : Bytes) → None (λ d. d == c) k → cut_at c (k ++ c ∷ s) ≡ some (k, s)
unfolding cut_at
cut_at-append c [] s h = ground arith
cut_at-append c (d ∷ k) s h = rw (h.0, cut_at-append c k s h.1) refl

pub lines-append :
    (sep : ℕ) (l s : Bytes) → None (λ d. d == sep) l → lines sep (l ++ sep ∷ s) ≡ l ∷ lines sep s
unfolding lines
lines-append sep [] s h = ground arith
lines-append sep (d ∷ l) s h = rw (h.0, lines-append sep l s h.1) refl

pub drop_while-append :
    (test : ℕ → Bool) (b s : Bytes) → Each test b → drop_while test (b ++ s) ≡ drop_while test s
unfolding drop_while
drop_while-append test [] s h = refl
drop_while-append test (c ∷ b) s h = rw h.0 (drop_while-append test b s h.1)

pub drop_while_stop :
    (test : ℕ → Bool) (c : ℕ) (s : Bytes) → test c ≡ false → drop_while test (c ∷ s) ≡ c ∷ s
unfolding drop_while
drop_while_stop test c s h = rw h refl

-- The text is empty or begins with a character that fails the test.
abbrev pub Stops : (ℕ → Bool) → Bytes → Type 0
Stops test [] = Unit
Stops test (c ∷ s) = test c ≡ false

pub span-append :
    (test : ℕ → Bool) (w s : Bytes) → Each test w → Stops test s → span test (w ++ s) ≡ (w, s)
unfolding span
span-append test [] [] h stop = refl
span-append test [] (c ∷ s) h stop = rw stop refl
span-append test (d ∷ w) s h stop = rw (h.0, span-append test w s h.1 stop) refl

pub span_all : (test : ℕ → Bool) (w : Bytes) → Each test w → span test w ≡ (w, [])
unfolding span
span_all test [] h = refl
span_all test (d ∷ w) h = rw (h.0, span_all test w h.1) refl

pub None-append : (test : ℕ → Bool) (s t : Bytes) → None test s → None test t → None test (s ++ t)
None-append test [] t hs ht = ht
None-append test (c ∷ s) t hs ht = (hs.0, None-append test s t hs.1 ht)

-- A character that passes one test fails another.
pub None-Each :
    {yes_test no_test : ℕ → Bool}
    → ((c : ℕ) → yes_test c ≡ true → no_test c ≡ false)
    → (s : Bytes) → Each yes_test s
    → None no_test s
None-Each apart [] h = tt
None-Each apart (c ∷ s) h = (apart c h.0, None-Each apart s h.1)

-- What operator>> leaves and stores at a number, behind the blanks.
digit_not_sign : (d : ℕ) → is_digit_of 10 d ≡ true → ((d == b'-') ≡ false) × ((d == b'+') ≡ false)
unfolding is_digit_of
digit_not_sign d h = (ground arith, ground arith)

pub digit_not_space : (c : ℕ) → is_digit_of 10 c ≡ true → is_space c ≡ false
unfolding is_digit_of
digit_not_space c h = ground arith

signed-digit : (d : ℕ) (s : Bytes) → is_digit_of 10 d ≡ true → signed (d ∷ s) ≡ (false, d ∷ s)
unfolding signed
signed-digit d s h = let (m, p) = digit_not_sign d h in rw (m, p) refl

behind_prefix-ten : (s : Bytes) → behind_prefix 10 s ≡ s
unfolding behind_prefix
behind_prefix-ten [] = refl
behind_prefix-ten (a ∷ []) = refl
behind_prefix-ten (a ∷ x ∷ s) = refl

module _ (d : ℕ) (ds s : Bytes) (h : Each (is_digit_of 10) (d ∷ ds))
    (stop : Stops (is_digit_of 10) s) where
  pub scan_number-digits : scan_number 10 (d ∷ (ds ++ s)) ≡ (false, d ∷ ds, s)
  unfolding scan_number
  scan_number-digits =
      rw
        (
          signed-digit d (ds ++ s) h.0,
          behind_prefix-ten (d ∷ (ds ++ s)),
          span-append (is_digit_of 10) (d ∷ ds) s h stop,
        )
        refl

  -- An int: the text behind the digits, and whether the number could be stored.
  pub signed_at-digits :
      (w : ℕ)
      → (g : Bool) × ((signed_at w (pos 0) (d ∷ (ds ++ s))).0 ≡ record { rest = s; good = g })
  unfolding signed_at
  signed_at-digits w = elim (Bool-cases (leb (2 ^ w) (value_from 10 0 (d ∷ ds)))) [
    | inl over ↦ (false, rw (scan_number-digits, over) refl)
    | inr fits ↦ (true, rw (scan_number-digits, fits) refl)
  ]

  pub unsigned_at-digits :
      (w old : ℕ)
      → value_from 10 0 (d ∷ ds) < 2 ^ w
      → unsigned_at 10 w old (d ∷ (ds ++ s)) ≡ (open_stream s, value_from 10 0 (d ∷ ds))
  unfolding unsigned_at
  unsigned_at-digits w old fits =
      let small : leb (2 ^ w) (value_from 10 0 (d ∷ ds)) ≡ false = ground arith in
      rw (scan_number-digits, small) refl

-- Words.
pub not_space : (s : Bytes) → None is_space s → Each (λ d. not (is_space d)) s
not_space [] h = tt
not_space (c ∷ s) h = (rw h.0 refl, not_space s h.1)

pub read_word-label :
    (c : ℕ) (w s : Bytes)
    → None is_space (c ∷ w)
    → read_word [] (open_stream (c ∷ (w ++ b' ' ∷ s))) ≡ (open_stream (b' ' ∷ s), c ∷ w)
unfolding read_word word_at
read_word-label c w s h =
    rw
      (
        drop_while_stop is_space c (w ++ b' ' ∷ s) h.0,
        span-append (λ d. not (is_space d)) (c ∷ w) (b' ' ∷ s) (not_space (c ∷ w) h) refl,
      )
      refl

space_newline : (c : ℕ) → is_space c ≡ false → (c == newline) ≡ false
space_newline c h = ground arith

pub None-space : (s : Bytes) → None is_space s → None (λ c. c == newline) s
None-space [] h = tt
None-space (c ∷ s) h = (space_newline c h.0, None-space s h.1)
