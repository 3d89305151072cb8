-- ===== src/System/CpuStats/Snapshots.antt =====
-- What ParseProcStat reads back from a file that the kernel prints.
use yacul.Common.{
  inr, inl, Bool-cases, sym, map, arith, refl, false, ◌==◌, ℕ, All, length, some, [], true, ◌≡◌,
  ◌∷◌, ◌++◌, List,
}
use yacul.System.Streams.{put_char, lines, is_space, newline, codes, ℤ, starts_with, Bytes}
use yacul.System.Streams.Numbers.{
  digit_not_newline, read_counters-print, blank_not_newline, number, IsShown, print_numbers, Shown,
}
use yacul.System.Streams.Reading.{
  None-space, read_word-label, lines-append, None-Each, None-append, None,
}
use yacul.System.CpuStats.{
  ten_zeros, lines, parse_cpu_lines, CpuCoreStats, parse_proc_stat, parse_cpu_line, stats_of,
  core_of,
}

-- The line of a core: its label, its number, and its ten counters.
pub record CpuLine : Type 0 where
  pub label : Bytes
  pub core : ℤ
  pub counters : List Shown

pub record IsCpuLine (l : CpuLine) : Type 0 where
  pub begins : starts_with (codes "cpu") l.label ≡ true
  pub is_word : None is_space l.label
  pub names : core_of l.label ≡ some l.core
  pub ten : length l.counters ≡ 10
  pub are_shown : All IsShown l.counters

abbrev pub print_cpu_line : CpuLine → Bytes
print_cpu_line l = l.label ++ print_numbers l.counters []

abbrev pub print_cpu_lines : List CpuLine → Bytes → Bytes
print_cpu_lines [] s = s
print_cpu_lines (l ∷ ls) s = print_cpu_line l ++ newline ∷ print_cpu_lines ls s

-- The first line that is not one of a core.
abbrev pub IsEnd : Bytes → Type 0
IsEnd [] = Unit
IsEnd (c ∷ s) = (c == b'c') ≡ false

abbrev pub stats_of_line : CpuLine → CpuCoreStats
stats_of_line l = stats_of l.core (map number l.counters)

parse_cpu_line-label :
    (label : Bytes) (id : ℤ) (ns : List Shown)
    → starts_with (codes "cpu") label ≡ true
    → None is_space label
    → core_of label ≡ some id
    → length ns ≡ 10
    → All IsShown ns
    → parse_cpu_line (label ++ print_numbers ns []) ≡ some (stats_of id (map number ns))
unfolding parse_cpu_line
parse_cpu_line-label [] id ns b w k e v = cc
parse_cpu_line-label (c ∷ label) id [] b w k e v = absurd (omega (arith, e))
parse_cpu_line-label (c ∷ label) id (n ∷ ns) b w k e v =
    rw
      (
        read_word-label c label (n.blanks ++ n.first ∷ (n.digits ++ print_numbers ns [])) w,
        k,
        read_counters-print (n ∷ ns) ten_zeros [] v (sym e) tt,
      )
      refl

starts_with-append : (p s t : Bytes) → starts_with p s ≡ true → starts_with p (s ++ t) ≡ true
starts_with-append [] s t h = refl
starts_with-append (d ∷ p) [] t h = cc
starts_with-append (d ∷ p) (c ∷ s) t h = ground (arith, starts_with-append p s t)

numbers-newline :
    (ns : List Shown) → All IsShown ns → None (λ c. c == newline) (print_numbers ns [])
numbers-newline [] v = tt
numbers-newline (n ∷ ns) v = (
  refl,
  None-append _ n.blanks _ (None-Each blank_not_newline n.blanks v.0.are_blanks) (
      None-append _ (n.first ∷ n.digits) _
        (None-Each digit_not_newline (n.first ∷ n.digits) v.0.are_digits) (numbers-newline ns v.1)),
)

put_char-end :
    (c : ℕ) (ls : List Bytes) → (c == b'c') ≡ false → parse_cpu_lines (put_char c ls) ≡ []
unfolding parse_cpu_lines
put_char-end c [] h = ground arith
put_char-end c (l ∷ ls) h = ground arith

parse_cpu_lines-end : (s : Bytes) → IsEnd s → parse_cpu_lines (lines newline s) ≡ []
unfolding parse_cpu_lines lines
parse_cpu_lines-end [] h = refl
parse_cpu_lines-end (c ∷ s) h = elim (Bool-cases (c == newline)) [
  | inl end ↦ rw end refl
  | inr more ↦ rw more (put_char-end c (lines newline s) h)
]

parse_cpu_lines-print :
    (ls : List CpuLine) (s : Bytes)
    → All IsCpuLine ls
    → IsEnd s
    → parse_cpu_lines (lines newline (print_cpu_lines ls s)) ≡ map stats_of_line ls
unfolding parse_cpu_lines
parse_cpu_lines-print [] s v e = parse_cpu_lines-end s e
parse_cpu_lines-print (l ∷ ls) s v e =
    let plain =
      None-append (λ c. c == newline) l.label (print_numbers l.counters [])
        (None-space l.label v.0.is_word) (numbers-newline l.counters v.0.are_shown) in
    rw
      (
        lines-append newline (print_cpu_line l) (print_cpu_lines ls s) plain,
        starts_with-append (codes "cpu") l.label (print_numbers l.counters []) v.0.begins,
        parse_cpu_line-label l.label l.core l.counters v.0.begins v.0.is_word v.0.names v.0.ten
            v.0.are_shown,
        parse_cpu_lines-print ls s v.1 e,
      )
      refl

-- ParseProcStat of lines of cores, each with a label that names its core and ten numbers below 2 ^ 64, in
-- front of a line that begins with no c, returns the snapshot of each line in their order.
pub parse_proc_stat-print :
    (ls : List CpuLine) (s : Bytes)
    → All IsCpuLine ls
    → IsEnd s
    → parse_proc_stat (some (print_cpu_lines ls s)) ≡ map stats_of_line ls
unfolding parse_proc_stat
parse_proc_stat-print ls s v e = parse_cpu_lines-print ls s v e
