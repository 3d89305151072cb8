-- ===== src/System/Processes.antt =====
-- ParseProcess, FetchAllProcesses and the queries of processes of yacul/system/system_info.cc. The files
-- under /proc, the page size, the clock ticks and the names of users are arguments. An exception that
-- a function does not catch is abort. Not modelled: start_time, which takes doubles.
pub mod Names
pub mod Top
use mathlib.Core.Option
use yacul.Common.{
  ◌*◌, ◌/◌, take, length, suc, ◌-◌, some, get_or, ◌^◌, ◌%◌, not, ◌==◌, [], leb, ◌||◌, none, ◌+◌,
  ltb, abort, ◌∷◌, Option, false, if◌then◌else◌, ok, Bool, Run, List, ℕ, ◌>>=◌,
}
use yacul.System.Streams.{
  neg, is_space, negsuc, drop_while, cut_at, read_unsigned, pos, starts_with, open_stream,
  read_signed, Stream, ℤ, Bytes,
}

-- The text in front of the last `c` and the one behind it: rfind, and two calls of substr.
unfoldable pub cut_last : ℕ → Bytes → Option (Bytes × Bytes)
cut_last c [] = none
cut_last c (d ∷ s) = elim (cut_last c s) [
  | some p ↦ some (d ∷ p.0, p.1)
  | none ↦ if d == c then some ([], s) else none
]

-- The types of the variables that the chain of extractions fills: int, long and long long, and the
-- unsigned ones of 32 and of 64 bits.
pub data Variable : Type 0 where
  int_var long_var uint_var ulong_var : Variable

-- The variables are 0 before.
unfoldable pub read_variable : Variable → Stream → Stream × ℤ
read_variable int_var i = read_signed 31 (pos 0) i
read_variable long_var i = read_signed 63 (pos 0) i
read_variable uint_var i = let (j, v) = read_unsigned 10 32 0 i in (j, pos v)
read_variable ulong_var i = let (j, v) = read_unsigned 10 64 0 i in (j, pos v)

unfoldable pub read_variables : List Variable → Stream → List ℤ
read_variables [] i = []
read_variables (k ∷ ks) i = let (j, v) = read_variable k i in v ∷ read_variables ks j

-- ppid, pgrp, session, tty_nr, tpgid, flags, minflt, cminflt, majflt, cmajflt, utime, stime, cutime, cstime,
-- priority, nice, num_threads, itrealvalue, starttime, vsize, rss.
abbrev pub variables : List Variable
variables =
    int_var ∷ int_var ∷ int_var ∷ int_var ∷ int_var ∷ uint_var ∷ ulong_var ∷ ulong_var ∷ ulong_var
    ∷ ulong_var ∷ long_var ∷ long_var ∷ long_var ∷ long_var ∷ long_var ∷ long_var ∷ long_var
    ∷ long_var ∷ long_var ∷ ulong_var ∷ long_var ∷ []

-- stream >> c for a char.
unfoldable pub char_at : ℕ → Bytes → Stream × ℕ
char_at old [] = (record { rest = []; good = false }, old)
char_at old (c ∷ s) = (open_stream s, c)

unfoldable pub read_char : ℕ → Stream → Stream × ℕ
read_char old i = if i.good then char_at old (drop_while is_space i.rest) else (i, old)

-- static_cast<uint64_t>
abbrev pub to_u64 : ℤ → ℕ
to_u64 (pos n) = n % 2 ^ 64
to_u64 (negsuc n) = (2 ^ 64 - 1 - n) % 2 ^ 64

abbrev pub pos_part : ℤ → ℕ
pos_part (pos n) = n
pos_part (negsuc n) = 0

abbrev pub neg_part : ℤ → ℕ
neg_part (pos n) = 0
neg_part (negsuc n) = suc n

-- (a + b) / n, rounded towards 0.
abbrev pub sum_over : ℤ → ℤ → ℕ → ℤ
sum_over a b n =
    let p = pos_part a + pos_part b in
    let q = neg_part a + neg_part b in if leb q p then pos ((p - q) / n) else neg ((q - p) / n)

pub record ProcessInfo : Type 0 where
  pub pid : ℕ
  pub ppid : ℤ
  pub name : Bytes
  pub cmdline : Bytes
  pub state : ℕ
  pub username : Bytes
  pub cpu_percent : ℕ
  pub rss_bytes : ℕ
  pub vms_bytes : ℕ
  pub num_threads : ℕ
  pub cpu_time : ℤ

-- What ParseProcess reads of the system: the two files of the process, the page size and the ticks of a
-- second (0 where sysconf fails), and the name of the owner.
pub record Source : Type 0 where
  pub stat_raw : Bytes
  pub cmdline_raw : Bytes
  pub page_size : ℕ
  pub ticks_per_sec : ℕ
  pub owner : Bytes

-- Each NUL becomes a blank, and the last one goes.
unfoldable pub join_arguments : Bytes → Bytes
join_arguments [] = []
join_arguments (c ∷ []) = if c == 0 || c == b' ' then [] else c ∷ []
join_arguments (c ∷ d ∷ s) = (if c == 0 then b' ' else c) ∷ join_arguments (d ∷ s)

-- The process of a name and the text behind the blank behind the closing parenthesis.
unfoldable pub process_of : Source → ℕ → Bytes → Bytes → ProcessInfo
process_of src pid name fields =
    let (i, state_char) = read_char b'U' (open_stream fields) in
    let vs = read_variables variables i in
    let page = if src.page_size == 0 then 4096 else src.page_size in
    let ticks = if src.ticks_per_sec == 0 then 100 else src.ticks_per_sec in
    record {
      pid = pid;
      ppid = get_or (pos 0) vs 0;
      name = name;
      cmdline = join_arguments src.cmdline_raw;
      state = state_char;
      username = src.owner;
      cpu_percent = 0;
      rss_bytes = to_u64 (get_or (pos 0) vs 20) * page % 2 ^ 64;
      vms_bytes = to_u64 (get_or (pos 0) vs 19);
      num_threads = to_u64 (get_or (pos 0) vs 16);
      cpu_time = sum_over (get_or (pos 0) vs 10) (get_or (pos 0) vs 11) ticks;
    }

-- stat_raw.substr(paren_close + 2), of what is behind the parenthesis: it throws where that is empty.
unfoldable pub behind_blank : Bytes → Run Bytes
behind_blank [] = abort
behind_blank (c ∷ s) = ok s

-- ParseProcess. The last closing parenthesis lies behind the first opening one exactly where there is one
-- in the text behind that.
unfoldable pub parse_process : Source → ℕ → Run (Option ProcessInfo)
parse_process src pid = elim (cut_at b'(' src.stat_raw) [
  | none ↦ ok none
  | some p ↦ elim (cut_last b')' p.1) [
    | none ↦ ok none
    | some q ↦ do fields ← behind_blank q.1; ok (some (process_of src pid q.0 fields))
  ]
]

-- The entries of /proc whose names begin with a digit.
unfoldable pub fetch_all_processes : List (ℕ × Source) → Run (List ProcessInfo)
fetch_all_processes [] = ok []
fetch_all_processes ((pid, src) ∷ rest) = do
  p ← parse_process src pid
  ps ← fetch_all_processes rest
  ok (elim p [ none ↦ ps | some q ↦ q ∷ ps ])

-- s.find(pattern) != npos
unfoldable pub contains : Bytes → Bytes → Bool
contains pattern [] = starts_with pattern []
contains pattern (c ∷ s) = starts_with pattern (c ∷ s) || contains pattern s

unfoldable pub find_processes : Bytes → List ProcessInfo → List ProcessInfo
find_processes pattern [] = []
find_processes pattern (p ∷ ps) =
    if contains pattern p.name || contains pattern p.cmdline
    then p ∷ find_processes pattern ps
    else find_processes pattern ps

-- The comparison of GetTopProcessesByMemory.
unfoldable pub by_memory : ProcessInfo → ProcessInfo → Bool
by_memory a b = ltb b.rss_bytes a.rss_bytes

-- The comparison of GetTopProcessesByCpu.
unfoldable pub by_cpu : ProcessInfo → ProcessInfo → Bool
by_cpu a b =
    if not (a.cpu_percent == b.cpu_percent)
    then ltb b.cpu_percent a.cpu_percent
    else ltb (pos_part b.cpu_time + neg_part a.cpu_time) (pos_part a.cpu_time + neg_part b.cpu_time)

-- GetTopProcessesByCpu and GetTopProcessesByMemory, of the sorted processes; `limit` is
-- top_process_limit.
unfoldable pub top_processes :
    (List ProcessInfo → List ProcessInfo) → ℕ → ℕ → List ProcessInfo → List ProcessInfo
top_processes sort limit n ps =
    let k = if n == 0 then limit else n in
    if ltb k (length (sort ps)) then take k (sort ps) else sort ps
