-- ===== src/System/MemoryInfo/Lines.antt =====
-- Each line is read back.
use yacul.Common.{
  ◌^◌, ◌∙◌, ◌%◌, ap, refl, ◌*◌, [], false, ◌∷◌, arith, ◌≡◌, ◌++◌, some, ◌==◌, All, List, ℕ,
}
use yacul.System.MemoryInfo.{
  no_memory, newline, bytes_eq, parse_kb, trim_front, Bytes, lines, MemoryInfo, set_field,
  fetch_memory_info, parse_memory_line, parse_memory_lines,
}
use yacul.System.MemoryInfo.Print.{
  huge_free, huge_total, huge_size, vmalloc_used, vmalloc_total, page_tables, slab, shmem,
  swap_free, swap_total, inactive, active, swap_cached, cached, buffers, mem_available, mem_free,
  other, mem_total, print_rows, known, put, apply_rows, unit_of, key_name, print_row, IsRow, Row,
  Key,
}
use yacul.System.Streams.Numbers.{
  digit_not_newline, blank_not_newline, digit_not_blank, read_unsigned-digits, number, IsShown,
  Shown,
}
use yacul.System.Streams.{Stream, newline, bytes_eq, Bytes, lines, is_digit_of}
use yacul.System.Streams.Reading.{
  None-Each, cut_at-append, lines-append, drop_while_stop, None-append, drop_while-append, Stops,
  None,
}

unit-Stops : (k : Key) → Stops (is_digit_of 10) (unit_of k)
unfolding is_digit_of
unit-Stops mem_total = refl
unit-Stops mem_free = refl
unit-Stops mem_available = refl
unit-Stops buffers = refl
unit-Stops cached = refl
unit-Stops swap_cached = refl
unit-Stops active = refl
unit-Stops inactive = refl
unit-Stops swap_total = refl
unit-Stops swap_free = refl
unit-Stops shmem = refl
unit-Stops slab = refl
unit-Stops page_tables = refl
unit-Stops vmalloc_total = refl
unit-Stops vmalloc_used = refl
unit-Stops huge_size = refl
unit-Stops huge_total = tt
unit-Stops huge_free = tt

module _ (n : Shown) (v : IsShown n) (unit : Bytes) where
  trim_front-shown :
      trim_front (n.blanks ++ n.first ∷ (n.digits ++ unit)) ≡ n.first ∷ (n.digits ++ unit)
  unfolding trim_front
  trim_front-shown =
      rw
        (
          drop_while-append _ n.blanks (n.first ∷ (n.digits ++ unit)) v.are_blanks,
          drop_while_stop _ n.first (n.digits ++ unit) (digit_not_blank n.first v.are_digits.0),
        )
        refl

  parse_kb-shown :
      Stops (is_digit_of 10) unit
      → parse_kb (n.first ∷ (n.digits ++ unit)) ≡ number n * 1024 % 2 ^ 64
  unfolding parse_kb
  parse_kb-shown stop =
      rw (ap (λ (r : Stream × ℕ). r.1) (read_unsigned-digits n v unit stop 0)) refl

set_field-known :
    (k : Key) (n : Shown) (m : MemoryInfo)
    → IsShown n
    → set_field (key_name k) (n.first ∷ (n.digits ++ unit_of k)) m ≡ put k (number n) m
unfolding set_field
set_field-known mem_total n m v =
    rw (parse_kb-shown n v (unit_of mem_total) (unit-Stops mem_total)) refl
set_field-known mem_free n m v =
    rw (parse_kb-shown n v (unit_of mem_free) (unit-Stops mem_free)) refl
set_field-known mem_available n m v =
    rw (parse_kb-shown n v (unit_of mem_available) (unit-Stops mem_available)) refl
set_field-known buffers n m v = rw (parse_kb-shown n v (unit_of buffers) (unit-Stops buffers)) refl
set_field-known cached n m v = rw (parse_kb-shown n v (unit_of cached) (unit-Stops cached)) refl
set_field-known swap_cached n m v =
    rw (parse_kb-shown n v (unit_of swap_cached) (unit-Stops swap_cached)) refl
set_field-known active n m v = rw (parse_kb-shown n v (unit_of active) (unit-Stops active)) refl
set_field-known inactive n m v =
    rw (parse_kb-shown n v (unit_of inactive) (unit-Stops inactive)) refl
set_field-known swap_total n m v =
    rw (parse_kb-shown n v (unit_of swap_total) (unit-Stops swap_total)) refl
set_field-known swap_free n m v =
    rw (parse_kb-shown n v (unit_of swap_free) (unit-Stops swap_free)) refl
set_field-known shmem n m v = rw (parse_kb-shown n v (unit_of shmem) (unit-Stops shmem)) refl
set_field-known slab n m v = rw (parse_kb-shown n v (unit_of slab) (unit-Stops slab)) refl
set_field-known page_tables n m v =
    rw (parse_kb-shown n v (unit_of page_tables) (unit-Stops page_tables)) refl
set_field-known vmalloc_total n m v =
    rw (parse_kb-shown n v (unit_of vmalloc_total) (unit-Stops vmalloc_total)) refl
set_field-known vmalloc_used n m v =
    rw (parse_kb-shown n v (unit_of vmalloc_used) (unit-Stops vmalloc_used)) refl
set_field-known huge_size n m v =
    rw (parse_kb-shown n v (unit_of huge_size) (unit-Stops huge_size)) refl
set_field-known huge_total n m v = rw (read_unsigned-digits n v [] tt m.huge_pages_total) refl
set_field-known huge_free n m v = rw (read_unsigned-digits n v [] tt m.huge_pages_free) refl

set_field-other :
    (key val : Bytes) (m : MemoryInfo)
    → ((k : Key) → bytes_eq key (key_name k) ≡ false)
    → set_field key val m ≡ m
unfolding set_field
set_field-other key val m h =
    rw
      (
        h mem_total,
        h mem_free,
        h mem_available,
        h buffers,
        h cached,
        h swap_cached,
        h active,
        h inactive,
        h swap_total,
        h swap_free,
        h shmem,
        h slab,
        h page_tables,
        h vmalloc_total,
        h vmalloc_used,
        h huge_size,
        h huge_total,
        h huge_free,
      )
      refl

key-None : (k : Key) → None (λ c. c == b':') (key_name k)
key-None mem_total = ground arith
key-None k = ground arith

row-newline :
    (k : Key) → None (λ c. c == newline) (key_name k) × None (λ c. c == newline) (unit_of k)
row-newline mem_total = ground arith
row-newline k = ground arith

print_row-newline : (r : Row) → IsRow r → None (λ c. c == newline) (print_row r)
print_row-newline (known k n) v =
    let (name, unit) = row-newline k in
    None-append _ (key_name k) _ name (
      refl,
      None-append _ n.blanks _ (None-Each blank_not_newline n.blanks v.are_blanks) (
          None-append _ (n.first ∷ n.digits) (unit_of k)
            (None-Each digit_not_newline (n.first ∷ n.digits) v.are_digits) unit),
    )
print_row-newline (other key text) v = v.1

parse_memory_line-row :
    (r : Row) (m : MemoryInfo) → IsRow r → parse_memory_line (print_row r) m ≡ apply_rows (r ∷ []) m
unfolding parse_memory_line
parse_memory_line-row (known k n) m v =
    rw
      (
        parse_memory_line,
        cut_at-append b':' (key_name k) (n.blanks ++ n.first ∷ (n.digits ++ unit_of k))
            (key-None k),
        trim_front-shown n v (unit_of k),
      )
      (set_field-known k n m v)
parse_memory_line-row (other key text) m v =
    rw (parse_memory_line, cut_at-append b':' key text v.0)
      (set_field-other key (trim_front text) m v.2)

apply_rows-cons :
    (r : Row) (rs : List Row) (m : MemoryInfo)
    → apply_rows rs (apply_rows (r ∷ []) m) ≡ apply_rows (r ∷ rs) m
apply_rows-cons (known k n) rs m = refl
apply_rows-cons (other key text) rs m = refl

parse_memory_lines-rows :
    (rs : List Row) (m : MemoryInfo)
    → All IsRow rs
    → parse_memory_lines (lines newline (print_rows rs)) m ≡ apply_rows rs m
unfolding parse_memory_lines lines
parse_memory_lines-rows [] m v = refl
parse_memory_lines-rows (r ∷ rs) m v =
    rw (lines-append newline (print_row r) (print_rows rs) (print_row-newline r v.0)) (
      ap (parse_memory_lines (lines newline (print_rows rs))) (parse_memory_line-row r m v.0)
      ∙ parse_memory_lines-rows rs (apply_rows (r ∷ []) m) v.1
      ∙ apply_rows-cons r rs m)

-- FetchMemoryInfo of a file of such lines, in any order and with other lines between them, gives each field
-- the number of the last line with its key, in bytes where the key has a unit, modulo 2 ^ 64, and 0
-- where no line has the key.
pub fetch_memory_info-print :
    (rs : List Row)
    → All IsRow rs
    → fetch_memory_info (some (print_rows rs)) ≡ apply_rows rs no_memory
unfolding fetch_memory_info
fetch_memory_info-print rs v = parse_memory_lines-rows rs no_memory v
