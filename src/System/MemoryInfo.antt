-- ===== src/System/MemoryInfo.antt =====
-- SystemInfo::MemoryInfo of yacul/system/system_info.h, and FetchMemoryInfo of
-- yacul/system/system_info.cc. The content of /proc/meminfo is an argument, none if it cannot be opened.
pub mod Print
pub mod Lines
use mathlib.Core.Option
use yacul.Common.{
  ◌^◌, ◌%◌, ◌||◌, ◌*◌, none, ◌==◌, [], ◌-◌, some, ltb, ◌∷◌, Option, if◌then◌else◌, List, ℕ,
}
use yacul.System.Streams.{
  newline, codes, open_stream, lines, cut_at, read_unsigned, drop_while, bytes_eq, Bytes,
}

pub record MemoryInfo : Type 0 where
  pub total : ℕ
  pub free : ℕ
  pub available : ℕ
  pub buffers : ℕ
  pub cached : ℕ
  pub swap_cached : ℕ
  pub active : ℕ
  pub inactive : ℕ
  pub swap_total : ℕ
  pub swap_free : ℕ
  pub shmem : ℕ
  pub slab : ℕ
  pub page_tables : ℕ
  pub vmalloc_total : ℕ
  pub vmalloc_used : ℕ
  pub huge_pages_total : ℕ
  pub huge_pages_free : ℕ
  pub huge_page_size : ℕ

abbrev pub no_memory : MemoryInfo
no_memory = record {
  total = 0;
  free = 0;
  available = 0;
  buffers = 0;
  cached = 0;
  swap_cached = 0;
  active = 0;
  inactive = 0;
  swap_total = 0;
  swap_free = 0;
  shmem = 0;
  slab = 0;
  page_tables = 0;
  vmalloc_total = 0;
  vmalloc_used = 0;
  huge_pages_total = 0;
  huge_pages_free = 0;
  huge_page_size = 0;
}

-- Used and SwapUsed.
unfoldable pub used : MemoryInfo → ℕ
used m = if ltb m.available m.total then m.total - m.available else 0

unfoldable pub swap_used : MemoryInfo → ℕ
swap_used m = if ltb m.swap_free m.swap_total then m.swap_total - m.swap_free else 0

-- The lambda parse_kb.
unfoldable pub parse_kb : Bytes → ℕ
parse_kb s = (read_unsigned 10 64 0 (open_stream s)).1 * 1024 % 2 ^ 64

-- The value without blanks and tabs in front; a value of blanks alone is kept.
unfoldable pub trim_front : Bytes → Bytes
trim_front val =
    let rest = drop_while (λ c. c == 32 || c == 9) val in if bytes_eq rest [] then val else rest

-- The chain of tests on the key.
unfoldable pub set_field : Bytes → Bytes → MemoryInfo → MemoryInfo
set_field key val m =
    if bytes_eq key (codes "MemTotal")
    then record m { total = parse_kb val }
    else if bytes_eq key (codes "MemFree")
    then record m { free = parse_kb val }
    else if bytes_eq key (codes "MemAvailable")
    then record m { available = parse_kb val }
    else if bytes_eq key (codes "Buffers")
    then record m { buffers = parse_kb val }
    else if bytes_eq key (codes "Cached")
    then record m { cached = parse_kb val }
    else if bytes_eq key (codes "SwapCached")
    then record m { swap_cached = parse_kb val }
    else if bytes_eq key (codes "Active")
    then record m { active = parse_kb val }
    else if bytes_eq key (codes "Inactive")
    then record m { inactive = parse_kb val }
    else if bytes_eq key (codes "SwapTotal")
    then record m { swap_total = parse_kb val }
    else if bytes_eq key (codes "SwapFree")
    then record m { swap_free = parse_kb val }
    else if bytes_eq key (codes "Shmem")
    then record m { shmem = parse_kb val }
    else if bytes_eq key (codes "Slab")
    then record m { slab = parse_kb val }
    else if bytes_eq key (codes "PageTables")
    then record m { page_tables = parse_kb val }
    else if bytes_eq key (codes "VmallocTotal")
    then record m { vmalloc_total = parse_kb val }
    else if bytes_eq key (codes "VmallocUsed")
    then record m { vmalloc_used = parse_kb val }
    else if bytes_eq key (codes "Hugepagesize")
    then record m { huge_page_size = parse_kb val }
    else if bytes_eq key (codes "HugePages_Total")
    then record m {
      huge_pages_total = (read_unsigned 10 64 m.huge_pages_total (open_stream val)).1;
    }
    else if bytes_eq key (codes "HugePages_Free")
    then record m { huge_pages_free = (read_unsigned 10 64 m.huge_pages_free (open_stream val)).1 }
    else m

-- A line of the file.
unfoldable pub parse_memory_line : Bytes → MemoryInfo → MemoryInfo
parse_memory_line line m = elim (cut_at b':' line) [
  | none ↦ m
  | some (key, val) ↦ set_field key (trim_front val) m
]

unfoldable pub parse_memory_lines : List Bytes → MemoryInfo → MemoryInfo
parse_memory_lines [] m = m
parse_memory_lines (l ∷ ls) m = parse_memory_lines ls (parse_memory_line l m)

unfoldable pub fetch_memory_info : Option Bytes → MemoryInfo
fetch_memory_info none = no_memory
fetch_memory_info (some file) = parse_memory_lines (lines newline file) no_memory
