-- ===== src/System/MemoryInfo/Print.antt =====
-- What FetchMemoryInfo reads back from a file that the kernel prints.
use yacul.Common.{false, ◌≡◌, ◌^◌, ◌%◌, ◌*◌, ◌==◌, ◌∷◌, ◌++◌, [], List, ℕ}
use yacul.System.Streams.Reading.{None}
use yacul.System.MemoryInfo.{bytes_eq, newline, codes, MemoryInfo}
use yacul.System.Streams.{bytes_eq, newline, codes, Bytes}
use yacul.System.Streams.Numbers.{IsShown, Shown, number}

-- The keys that the chain knows.
pub data Key : Type 0 where
  mem_total mem_free mem_available buffers cached swap_cached active inactive swap_total swap_free
        shmem slab page_tables vmalloc_total vmalloc_used huge_size huge_total huge_free :
      Key

abbrev pub key_name : Key → Bytes
key_name mem_total = codes "MemTotal"
key_name mem_free = codes "MemFree"
key_name mem_available = codes "MemAvailable"
key_name buffers = codes "Buffers"
key_name cached = codes "Cached"
key_name swap_cached = codes "SwapCached"
key_name active = codes "Active"
key_name inactive = codes "Inactive"
key_name swap_total = codes "SwapTotal"
key_name swap_free = codes "SwapFree"
key_name shmem = codes "Shmem"
key_name slab = codes "Slab"
key_name page_tables = codes "PageTables"
key_name vmalloc_total = codes "VmallocTotal"
key_name vmalloc_used = codes "VmallocUsed"
key_name huge_size = codes "Hugepagesize"
key_name huge_total = codes "HugePages_Total"
key_name huge_free = codes "HugePages_Free"

abbrev pub unit_of : Key → Bytes
unit_of huge_total = []
unit_of huge_free = []
unit_of k = codes " kB"

-- What a number stands for: bytes, or a number of pages.
abbrev pub put : Key → ℕ → MemoryInfo → MemoryInfo
put mem_total n m = record m { total = n * 1024 % 2 ^ 64 }
put mem_free n m = record m { free = n * 1024 % 2 ^ 64 }
put mem_available n m = record m { available = n * 1024 % 2 ^ 64 }
put buffers n m = record m { buffers = n * 1024 % 2 ^ 64 }
put cached n m = record m { cached = n * 1024 % 2 ^ 64 }
put swap_cached n m = record m { swap_cached = n * 1024 % 2 ^ 64 }
put active n m = record m { active = n * 1024 % 2 ^ 64 }
put inactive n m = record m { inactive = n * 1024 % 2 ^ 64 }
put swap_total n m = record m { swap_total = n * 1024 % 2 ^ 64 }
put swap_free n m = record m { swap_free = n * 1024 % 2 ^ 64 }
put shmem n m = record m { shmem = n * 1024 % 2 ^ 64 }
put slab n m = record m { slab = n * 1024 % 2 ^ 64 }
put page_tables n m = record m { page_tables = n * 1024 % 2 ^ 64 }
put vmalloc_total n m = record m { vmalloc_total = n * 1024 % 2 ^ 64 }
put vmalloc_used n m = record m { vmalloc_used = n * 1024 % 2 ^ 64 }
put huge_size n m = record m { huge_page_size = n * 1024 % 2 ^ 64 }
put huge_total n m = record m { huge_pages_total = n }
put huge_free n m = record m { huge_pages_free = n }

-- A line of the file: one of the keys, or another one with any text behind its colon.
pub data Row : Type 0 where
  known : Key → Shown → Row
  other : Bytes → Bytes → Row

abbrev pub print_row : Row → Bytes
print_row (known k n) = key_name k ++ b':' ∷ (n.blanks ++ n.first ∷ (n.digits ++ unit_of k))
print_row (other key text) = key ++ b':' ∷ text

abbrev pub print_rows : List Row → Bytes
print_rows [] = []
print_rows (r ∷ rs) = print_row r ++ newline ∷ print_rows rs

abbrev pub IsRow : Row → Type 0
IsRow (known k n) = IsShown n
IsRow (other key text) =
    None (λ c. c == b':') key
    × None (λ c. c == newline) (key ++ b':' ∷ text)
    × ((k : Key) → bytes_eq key (key_name k) ≡ false)

-- The numbers by their keys; a later line replaces an earlier one.
abbrev pub apply_rows : List Row → MemoryInfo → MemoryInfo
apply_rows [] m = m
apply_rows (known k n ∷ rs) m = apply_rows rs (put k (number n) m)
apply_rows (other key text ∷ rs) m = apply_rows rs m
