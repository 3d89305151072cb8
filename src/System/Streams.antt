-- ===== src/System/Streams.antt =====
-- What yacul/system/system_info.cc uses of the C++ library to take texts apart: std::string as a list of
-- bytes, input streams with operator>>, getline, and the stoi family, whose exceptions are none.
pub mod Reading
pub mod Numbers
use Prim.Native.Char.{code}
use Prim.Native.String.{String}
use mathlib.Core.Option
use yacul.Common.{
  ◌%◌, ◌-◌, ◌&&◌, some, ◌+◌, ◌^◌, zero, not, ◌*◌, ltb, ◌||◌, none, leb, ◌==◌, if◌then◌else◌, false,
  suc, true, [], ◌∷◌, Bool, List, Option, ℕ,
}

abbrev pub Bytes : Type 0
Bytes = List ℕ

abbrev pub codes : String → Bytes
codes String.[] = []
codes (String.◌∷◌ c s) = code c ∷ codes s

pub data ℤ : Type 0 where
  pos : ℕ → ℤ
  negsuc : ℕ → ℤ

-- The integer -n.
abbrev pub neg : ℕ → ℤ
neg zero = pos 0
neg (suc n) = negsuc n

abbrev pub bytes_eq : Bytes → Bytes → Bool
bytes_eq [] [] = true
bytes_eq [] (d ∷ t) = false
bytes_eq (c ∷ s) [] = false
bytes_eq (c ∷ s) (d ∷ t) = c == d && bytes_eq s t

-- s.rfind(prefix, 0) == 0
abbrev pub starts_with : Bytes → Bytes → Bool
starts_with [] s = true
starts_with (d ∷ t) [] = false
starts_with (d ∷ t) (c ∷ s) = c == d && starts_with t s

-- The text in front of the first `c` and the one behind it: find, and two calls of substr.
unfoldable pub cut_at : ℕ → Bytes → Option (Bytes × Bytes)
cut_at c [] = none
cut_at c (d ∷ s) =
    if d == c then some ([], s) else Option.map (λ (p : Bytes × Bytes). (d ∷ p.0, p.1)) (cut_at c s)

abbrev pub put_char : ℕ → List Bytes → List Bytes
put_char c [] = (c ∷ []) ∷ []
put_char c (l ∷ ls) = (c ∷ l) ∷ ls

-- while (getline(stream, line, sep))
unfoldable pub lines : ℕ → Bytes → List Bytes
lines sep [] = []
lines sep (c ∷ s) = if c == sep then [] ∷ lines sep s else put_char c (lines sep s)

abbrev pub newline : ℕ
newline = 10

abbrev pub is_space : ℕ → Bool
is_space c = c == 32 || (leb 9 c && leb c 13)

unfoldable pub drop_while : (ℕ → Bool) → Bytes → Bytes
drop_while test [] = []
drop_while test (c ∷ s) = if test c then drop_while test s else c ∷ s

-- The longest run of characters that pass the test, and the rest.
unfoldable pub span : (ℕ → Bool) → Bytes → Bytes × Bytes
span test [] = ([], [])
span test (c ∷ s) = if test c then (c ∷ (span test s).0, (span test s).1) else ([], c ∷ s)

pub record Stream : Type 0 where
  pub rest : Bytes
  pub good : Bool

abbrev pub open_stream : Bytes → Stream
open_stream s = record { rest = s; good = true }

abbrev failed : Bytes → Stream
failed s = record { rest = s; good = false }

-- stream >> word, behind the blanks; a failure leaves the variable with its old value.
unfoldable pub word_at : Bytes → Bytes → Stream × Bytes
unfolding span
word_at old [] = (failed [], old)
word_at old (c ∷ s) =
    (open_stream (span (λ d. not (is_space d)) (c ∷ s)).1, (span (λ d. not (is_space d)) (c ∷ s)).0)

unfoldable pub read_word : Bytes → Stream → Stream × Bytes
read_word old i = if i.good then word_at old (drop_while is_space i.rest) else (i, old)

-- The digits of base 10 and of base 16.
unfoldable pub is_digit_of : ℕ → ℕ → Bool
is_digit_of base c =
    (leb b'0' c && leb c b'9')
    || (base == 16 && ((leb b'a' c && leb c b'f') || (leb b'A' c && leb c b'F')))

unfoldable pub digit_value : ℕ → ℕ
digit_value c = if leb c b'9' then c - b'0' else if leb c b'F' then c - b'A' + 10 else c - b'a' + 10

-- The number that digits spell behind `n`.
unfoldable pub value_from : ℕ → ℕ → Bytes → ℕ
unfolding digit_value
value_from base n [] = n
value_from base n (c ∷ s) = value_from base (n * base + digit_value c) s

-- A sign, and the text behind it.
unfoldable pub signed : Bytes → Bool × Bytes
signed [] = (false, [])
signed (c ∷ s) = if c == b'-' then (true, s) else if c == b'+' then (false, s) else (false, c ∷ s)

-- 0x or 0X in front of a hexadecimal number.
unfoldable pub behind_prefix : ℕ → Bytes → Bytes
behind_prefix base (a ∷ x ∷ s) =
    if base == 16 && a == b'0' && (x == b'x' || x == b'X') then s else a ∷ x ∷ s
behind_prefix base s = s

-- The sign, the digits and the rest of a number that is read at the start of a text.
unfoldable pub scan_number : ℕ → Bytes → Bool × Bytes × Bytes
scan_number base s =
    let (minus, t) = signed s in
    let (ds, rest) = span (is_digit_of base) (behind_prefix base t) in (minus, ds, rest)

-- stream >> n for an unsigned variable of `w` bits, behind the blanks. No digits store 0, too large a
-- number stores the maximum, and both fail; a minus sign is taken modulo 2 ^ w.
unfoldable pub unsigned_at : ℕ → ℕ → ℕ → Bytes → Stream × ℕ
unsigned_at base w old [] = (failed [], old)
unsigned_at base w old (c ∷ s) =
    let (minus, ds, rest) = scan_number base (c ∷ s) in
    let v = value_from base 0 ds in
    if bytes_eq ds []
    then (failed rest, 0)
    else if leb (2 ^ w) v
    then (failed rest, 2 ^ w - 1)
    else (open_stream rest, if minus then (2 ^ w - v) % 2 ^ w else v)

unfoldable pub read_unsigned : ℕ → ℕ → ℕ → Stream → Stream × ℕ
read_unsigned base w old i =
    if i.good then unsigned_at base w old (drop_while is_space i.rest) else (i, old)

-- A chain stream >> a >> b >> …: the old values of the variables, and their new ones.
unfoldable pub read_counters : List ℕ → Stream → List ℕ
read_counters [] i = []
read_counters (old ∷ olds) i = let (j, v) = read_unsigned 10 64 old i in v ∷ read_counters olds j

-- stream >> n for a signed variable of w + 1 bits, in base 10.
unfoldable pub signed_at : ℕ → ℤ → Bytes → Stream × ℤ
signed_at w old [] = (failed [], old)
signed_at w old (c ∷ s) =
    let (minus, ds, rest) = scan_number 10 (c ∷ s) in
    let v = value_from 10 0 ds in
    if bytes_eq ds []
    then (failed rest, pos 0)
    else if minus
    then (if ltb (2 ^ w) v then (failed rest, neg (2 ^ w)) else (open_stream rest, neg v))
    else if leb (2 ^ w) v
    then (failed rest, pos (2 ^ w - 1))
    else (open_stream rest, pos v)

unfoldable pub read_signed : ℕ → ℤ → Stream → Stream × ℤ
read_signed w old i = if i.good then signed_at w old (drop_while is_space i.rest) else (i, old)

-- stoull(s) and stoul(s, nullptr, 16), where unsigned long has 64 bits.
unfoldable pub sto_unsigned : ℕ → Bytes → Option ℕ
sto_unsigned base s =
    let (minus, ds, rest) = scan_number base (drop_while is_space s) in
    let v = value_from base 0 ds in
    if bytes_eq ds [] || leb (2 ^ 64) v
    then none
    else some (if minus then (2 ^ 64 - v) % 2 ^ 64 else v)

-- stoi(s)
unfoldable pub stoi : Bytes → Option ℤ
stoi s =
    let (minus, ds, rest) = scan_number 10 (drop_while is_space s) in
    let v = value_from 10 0 ds in
    if bytes_eq ds []
    then none
    else if minus
    then (if ltb (2 ^ 31) v then none else some (neg v))
    else if leb (2 ^ 31) v
    then none
    else some (pos v)

-- The content of a file without its last newline.
unfoldable pub without_newline : Bytes → Bytes
without_newline [] = []
without_newline (c ∷ []) = if c == newline then [] else c ∷ []
without_newline (c ∷ d ∷ s) = c ∷ without_newline (d ∷ s)
