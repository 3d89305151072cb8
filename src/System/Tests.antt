-- ===== src/System/Tests.antt =====
-- The theorems on the queries of the system, on short tables.
use yacul.Common.{
  ◌∷◌, none, ok, refl, true, [], ◌≡◌, some, ◌↔◌, arith, false, Option, ◌<◌, All, List, ℕ,
}
use mathlib.Core.List.Perm
use yacul.System.Streams.{
  digit_value, negsuc, bytes_eq, value_from, Bytes, is_digit_of, lines, codes,
}
use yacul.System.Tables.{fetch_docker_containers, DockerContainer}
use yacul.System.MemoryInfo.{no_memory, fetch_memory_info}
use yacul.System.MemoryInfo.Print.{
  other, apply_rows, mem_total, known, print_rows, key_name, Row, Key,
}
use yacul.System.Processes.{process_of, Source, parse_process}
use yacul.System.Caches.Memory.{
  invalidates, answers-recalls, memory_of, recalls, queries, Call, answers,
}
use yacul.System.Streams.Numbers.{IsShown, Shown}
use yacul.System.CpuStats.{busy, stats_of, total, usage_percent, CpuCoreStats}
use yacul.System.Caches.{CacheEntry}
use yacul.System.Tables.Containers.{fetch_docker_containers-print, print_containers, IsPlain}
use yacul.System.Sockets.{get_listening_ports}
use yacul.System.Sockets.Found.{get_listening_ports-nil, IsTable}
use yacul.System.CpuStats.Usage.{usage_percent_bounds, other_ticks}
use yacul.System.Mounts.{fetch_disk_info, Statvfs}
use yacul.System.Network.{fetch_network_info, ip4, other, IfAddr}
use yacul.System.Mounts.Points.{fetch_disk_info-Distinct, Distinct, IsListed}
use yacul.System.Processes.Names.{parse_process-name}
use yacul.System.Network.Names.{fetch_network_info-DistinctNames, names, DistinctNames}
use yacul.System.MemoryInfo.Lines.{fetch_memory_info-print}

-- A table with one socket in the state LISTEN.
abbrev socket_line : Bytes
socket_line = codes "  0: 0100007F:0277 00000000:0000 0A"

abbrev socket_table : Option Bytes
socket_table = some (codes "sl local rem st\n  0: 0100007F:0277 00000000:0000 0A\n")

socket_table-IsTable : IsTable socket_table
unfolding lines is_digit_of
socket_table-IsTable = (
  record {
    blanks = codes "  ";
    first = b'0';
    digits = [];
    rest = codes "0100007F:0277 00000000:0000 0A";
    are_blanks = ground arith;
    are_digits = ground arith;
    spelled = refl;
  },
  tt,
)

get_listening_ports-nil_example :
    get_listening_ports (λ ports. ports) [] (λ pid. []) socket_table none ≡ []
get_listening_ports-nil_example =
    get_listening_ports-nil (λ ports. ports) (λ ports. Perm.refl ports) [] (λ pid. []) socket_table
      none socket_table-IsTable tt

-- MemTotal of 16 kB, with another line behind it.
abbrev sixteen : Shown
sixteen = record { blanks = codes "  "; first = b'1'; digits = codes "6" }

sixteen-IsShown : IsShown sixteen
unfolding is_digit_of value_from digit_value
sixteen-IsShown = record {
  are_blanks = ground arith;
  are_digits = ground arith;
  fits = omega arith;
}

abbrev memory_rows : List Row
memory_rows = known mem_total sixteen ∷ other (codes "Zswap") (codes " 4 kB") ∷ []

zswap-other : (k : Key) → bytes_eq (codes "Zswap") (key_name k) ≡ false
zswap-other mem_total = refl
zswap-other k = refl

fetch_memory_info-print_example :
    fetch_memory_info (some (print_rows memory_rows)) ≡ apply_rows memory_rows no_memory
fetch_memory_info-print_example =
    fetch_memory_info-print memory_rows
      (sixteen-IsShown, ((ground arith, ground arith, zswap-other), tt))

-- A core that was idle for 100 ticks, and then busy for 3 while the count of iowait fell by 2.
abbrev idle_core : CpuCoreStats
idle_core = stats_of (negsuc 0) (0 ∷ 0 ∷ 0 ∷ 100 ∷ 2 ∷ 0 ∷ 0 ∷ 0 ∷ 0 ∷ 0 ∷ [])

abbrev busy_core : CpuCoreStats
busy_core = stats_of (negsuc 0) (3 ∷ 0 ∷ 0 ∷ 100 ∷ 0 ∷ 0 ∷ 0 ∷ 0 ∷ 0 ∷ 0 ∷ [])

busy_core_usage : usage_percent busy_core idle_core ≡ some (3, 1)
unfolding usage_percent total busy
busy_core_usage = refl

usage_percent_bounds_example : (0 < 1) × ((1 < 3) ↔ (other_ticks busy_core < other_ticks idle_core))
usage_percent_bounds_example =
    usage_percent_bounds busy_core idle_core 3 1 (omega arith) (omega arith) busy_core_usage

-- A cache that fetches 1, answers from it, and fetches 2 when it is invalidated.
abbrev cache_calls : List (Call ℕ)
cache_calls = queries 10 11 1 ∷ queries 14 15 5 ∷ invalidates ∷ queries 15 16 2 ∷ []

abbrev no_cache : CacheEntry ℕ
no_cache = record { value = 0; fetched_at = 0; valid = false }

answers-recalls_example :
    answers 5 cache_calls no_cache ≡ recalls 5 cache_calls (memory_of 5 no_cache)
answers-recalls_example = answers-recalls 5 cache_calls no_cache

-- A process with the name "a) (b".
abbrev odd_process : Source
odd_process = record {
  stat_raw = codes "42 (a) (b) S 1";
  cmdline_raw = [];
  page_size = 4096;
  ticks_per_sec = 100;
  owner = codes "root";
}

parse_process-name_example :
    parse_process odd_process 42
    ≡ ok (some (process_of odd_process 42 (codes "a) (b") (codes "S 1")))
parse_process-name_example =
    parse_process-name odd_process 42 (codes "42 ") (codes "a) (b") (codes "S 1") (ground arith)
      (ground arith) refl

-- The same mount point twice.
abbrev mounts : Option Bytes
mounts = some (codes "/dev/a / ext4 rw\n/dev/b / ext4 rw\n")

abbrev hundred_blocks : Bytes → Option Statvfs
hundred_blocks path = some (record {
  f_blocks = 100;
  f_bfree = 60;
  f_bavail = 50;
  f_frsize = 512;
  f_files = 10;
  f_ffree = 4;
  f_favail = 4;
})

fetch_disk_info-Distinct_example :
    All (IsListed [] false hundred_blocks []) (fetch_disk_info [] false hundred_blocks mounts)
    × Distinct [] false hundred_blocks (fetch_disk_info [] false hundred_blocks mounts)
fetch_disk_info-Distinct_example = fetch_disk_info-Distinct [] false hundred_blocks mounts

-- One interface in both sources.
abbrev net_dev : Option Bytes
net_dev = some (codes "a\nb\n  lo: 1 2 3 4 5 6 7 8 9 10 11 12\n")

abbrev loopback_addr : List IfAddr
loopback_addr =
    record { ifa_name = codes "lo"; up = true; loopback = true; ifa_addr = ip4 (codes "127.0.0.1") }
    ∷ []

abbrev no_sysfs : Bytes → Bytes × Bytes × Bytes
no_sysfs name = ([], [], [])

fetch_network_info-DistinctNames_example :
    DistinctNames (names (fetch_network_info net_dev (some loopback_addr) no_sysfs))
fetch_network_info-DistinctNames_example =
    fetch_network_info-DistinctNames net_dev (some loopback_addr) no_sysfs

-- A container without a name.
abbrev nameless : DockerContainer
nameless = record {
  id = codes "c1";
  name = [];
  image = codes "busybox";
  status = codes "Up 2 hours";
  state = codes "running";
  created = codes "2024-01-01";
}

nameless-IsPlain : IsPlain nameless
nameless-IsPlain = record {
  id = ground arith;
  name = ground arith;
  image = ground arith;
  status = ground arith;
  state = ground arith;
  created = ground arith;
}

fetch_docker_containers-print_example :
    fetch_docker_containers true (print_containers (nameless ∷ [])) ≡ nameless ∷ []
fetch_docker_containers-print_example =
    fetch_docker_containers-print (nameless ∷ []) (nameless-IsPlain, tt)
