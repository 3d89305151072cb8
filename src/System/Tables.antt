-- ===== src/System/Tables.antt =====
-- The small tables of yacul/system/system_info.cc: the distribution in FetchOsInfo, FetchDockerContainers,
-- GetDnsServers, GetEnvironment, GetLoadedKernelModules and GetVmStats. The contents of the files, the
-- output of the command and the strings of environ are arguments. A map is a list of entries, in which a
-- key stands once.
pub mod Containers
pub mod Keys
pub mod Servers
use mathlib.Core.Option
use yacul.Common.{
  true, ◌&&◌, false, ◌==◌, not, get_or, some, ◌∷◌, none, if◌then◌else◌, [], Bool, Option, List, ℕ,
}
use yacul.System.Streams.{
  starts_with, codes, read_unsigned, bytes_eq, open_stream, newline, cut_at, lines, read_word,
  Bytes,
}

pub record DockerContainer : Type 0 where
  pub id : Bytes
  pub name : Bytes
  pub image : Bytes
  pub status : Bytes
  pub state : Bytes
  pub created : Bytes

abbrev pub tab : ℕ
tab = 9

-- Six calls of getline on a line; one behind the end leaves its string empty.
unfoldable pub container_of : Bytes → DockerContainer
container_of line =
    let parts = lines tab line in
    record {
      id = get_or [] parts 0;
      name = get_or [] parts 1;
      image = get_or [] parts 2;
      status = get_or [] parts 3;
      state = get_or [] parts 4;
      created = get_or [] parts 5;
    }

unfoldable pub containers_of : List Bytes → List DockerContainer
containers_of [] = []
containers_of (l ∷ ls) =
    let rest = containers_of ls in if bytes_eq l [] then rest else container_of l ∷ rest

-- FetchDockerContainers: whether there is a docker, and its output.
unfoldable pub fetch_docker_containers : Bool → Bytes → List DockerContainer
fetch_docker_containers false out = []
fetch_docker_containers true out = containers_of (lines newline out)

-- A line of /etc/resolv.conf; none where the loop goes on.
unfoldable pub server_of : Bytes → Option Bytes
server_of line =
    if not (starts_with (codes "nameserver ") line)
    then none
    else let (i, kw) = read_word [] (open_stream line) in
      let (j, addr) = read_word [] i in if bytes_eq addr [] then none else some addr

unfoldable pub servers_of : List Bytes → List Bytes
servers_of [] = []
servers_of (l ∷ ls) = elim (server_of l) [ none ↦ servers_of ls | some a ↦ a ∷ servers_of ls ]

unfoldable pub get_dns_servers : Option Bytes → List Bytes
get_dns_servers none = []
get_dns_servers (some file) = servers_of (lines newline file)

-- GetLoadedKernelModules
unfoldable pub modules_of : List Bytes → List Bytes
modules_of [] = []
modules_of (l ∷ ls) =
    let name = (read_word [] (open_stream l)).1 in
    let rest = modules_of ls in if bytes_eq name [] then rest else name ∷ rest

unfoldable pub get_loaded_kernel_modules : Option Bytes → List Bytes
get_loaded_kernel_modules none = []
get_loaded_kernel_modules (some file) = modules_of (lines newline file)

module _ {V : Type 0} where
  -- map[key] = v
  unfoldable pub assign : Bytes → V → List (Bytes × V) → List (Bytes × V)
  assign key v [] = (key, v) ∷ []
  assign key v ((k, w) ∷ m) = if bytes_eq k key then (key, v) ∷ m else (k, w) ∷ assign key v m

  unfoldable pub find : Bytes → List (Bytes × V) → Option V
  find key [] = none
  find key ((k, w) ∷ m) = if bytes_eq k key then some w else find key m

-- A string of environ.
unfoldable pub add_variable : Bytes → List (Bytes × Bytes) → List (Bytes × Bytes)
add_variable kv m = elim (cut_at b'=' kv) [ none ↦ m | some p ↦ assign p.0 p.1 m ]

unfoldable pub add_variables : List Bytes → List (Bytes × Bytes) → List (Bytes × Bytes)
add_variables [] m = m
add_variables (kv ∷ kvs) m = add_variables kvs (add_variable kv m)

unfoldable pub get_environment : List Bytes → List (Bytes × Bytes)
get_environment kvs = add_variables kvs []

-- A line of /proc/vmstat: both extractions must succeed.
unfoldable pub add_counter : Bytes → List (Bytes × ℕ) → List (Bytes × ℕ)
add_counter line m =
    let (i, key) = read_word [] (open_stream line) in
    let (j, val) = read_unsigned 10 64 0 i in if i.good && j.good then assign key val m else m

unfoldable pub add_counters : List Bytes → List (Bytes × ℕ) → List (Bytes × ℕ)
add_counters [] m = m
add_counters (l ∷ ls) m = add_counters ls (add_counter l m)

unfoldable pub get_vm_stats : Option Bytes → List (Bytes × ℕ)
get_vm_stats none = []
get_vm_stats (some file) = add_counters (lines newline file) []

-- What FetchOsInfo takes from the file os-release.
pub record Distribution : Type 0 where
  pub os_name : Bytes
  pub os_version : Bytes
  pub os_id : Bytes
  pub os_id_like : Bytes
  pub pretty_name : Bytes

abbrev pub no_distribution : Distribution
no_distribution = record {
  os_name = [];
  os_version = [];
  os_id = [];
  os_id_like = [];
  pretty_name = [];
}

-- The text in front of the last character, if that is a quote.
unfoldable pub before_quote : Bytes → Option Bytes
before_quote [] = none
before_quote (c ∷ []) = if c == b'"' then some [] else none
before_quote (c ∷ d ∷ s) = Option.map (λ (t : Bytes). c ∷ t) (before_quote (d ∷ s))

-- The lambda strip_quotes.
unfoldable pub strip_quotes : Bytes → Bytes
strip_quotes [] = []
strip_quotes (c ∷ s) =
    if c == b'"' then elim (before_quote s) [ none ↦ c ∷ s | some t ↦ t ] else c ∷ s

unfoldable pub set_distribution : Bytes → Bytes → Distribution → Distribution
set_distribution key val d =
    if bytes_eq key (codes "NAME")
    then record d { os_name = val }
    else if bytes_eq key (codes "VERSION")
    then record d { os_version = val }
    else if bytes_eq key (codes "ID")
    then record d { os_id = val }
    else if bytes_eq key (codes "ID_LIKE")
    then record d { os_id_like = val }
    else if bytes_eq key (codes "PRETTY_NAME")
    then record d { pretty_name = val }
    else d

unfoldable pub parse_release_line : Bytes → Distribution → Distribution
parse_release_line line d = elim (cut_at b'=' line) [
  | none ↦ d
  | some p ↦ set_distribution p.0 (strip_quotes p.1) d
]

unfoldable pub parse_release_lines : List Bytes → Distribution → Distribution
parse_release_lines [] d = d
parse_release_lines (l ∷ ls) d = parse_release_lines ls (parse_release_line l d)

-- The first file that is not empty is read.
unfoldable pub fetch_distribution : Bytes → Bytes → Distribution
fetch_distribution etc_release usr_release =
    parse_release_lines
      (lines newline (if bytes_eq etc_release [] then usr_release else etc_release)) no_distribution
