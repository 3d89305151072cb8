-- ===== src/System/Network.antt =====
-- ParseProcNetDev, PopulateIfAddrs and FetchNetworkInfo of yacul/system/system_info.cc, and the primary
-- addresses. The content of /proc/net/dev, the list of getifaddrs with its addresses as text, the files of
-- /sys/class/net and the table of routes are arguments.
pub mod Names
use mathlib.Core.Option
use yacul.Common.{
  ◌&&◌, length, get_or, zero, ◌++◌, ◌||◌, not, false, drop, suc, ◌==◌, map, [], none, if◌then◌else◌,
  ◌∷◌, Bool, some, Option, List, ℕ,
}
use yacul.System.Streams.{
  newline, codes, read_unsigned, lines, starts_with, sto_unsigned, bytes_eq, open_stream,
  read_counters, without_newline, drop_while, cut_at, read_word, Bytes,
}

pub record NetworkInterface : Type 0 where
  pub name : Bytes
  pub mac_address : Bytes
  pub ip4_addresses : List Bytes
  pub ip6_addresses : List Bytes
  pub is_up : Bool
  pub is_loopback : Bool
  pub speed_mbps : ℕ
  pub mtu : ℕ
  pub rx_bytes : ℕ
  pub rx_packets : ℕ
  pub rx_errors : ℕ
  pub rx_dropped : ℕ
  pub tx_bytes : ℕ
  pub tx_packets : ℕ
  pub tx_errors : ℕ
  pub tx_dropped : ℕ

abbrev pub new_interface : Bytes → NetworkInterface
new_interface name = record {
  name = name;
  mac_address = [];
  ip4_addresses = [];
  ip6_addresses = [];
  is_up = false;
  is_loopback = false;
  speed_mbps = 0;
  mtu = 0;
  rx_bytes = 0;
  rx_packets = 0;
  rx_errors = 0;
  rx_dropped = 0;
  tx_bytes = 0;
  tx_packets = 0;
  tx_errors = 0;
  tx_dropped = 0;
}

-- The interfaces, and the map from names to positions; a later entry for a name replaces an earlier one.
pub record Interfaces : Type 0 where
  pub ifaces : List NetworkInterface
  pub idx : List (Bytes × ℕ)

unfoldable pub find_name : List (Bytes × ℕ) → Bytes → Option ℕ
find_name [] name = none
find_name ((n, i) ∷ rest) name = if bytes_eq n name then some i else find_name rest name

-- idx[ifaces[i].name] = i, from position `i` on.
unfoldable pub index_from : ℕ → List NetworkInterface → List (Bytes × ℕ) → List (Bytes × ℕ)
index_from i [] idx = idx
index_from i (ni ∷ rest) idx = index_from (suc i) rest ((ni.name, i) ∷ idx)

unfoldable pub indexed : List NetworkInterface → Interfaces
indexed ifaces = record { ifaces = ifaces; idx = index_from 0 ifaces [] }

-- ifaces[i] = f(ifaces[i])
unfoldable pub change_at :
    ℕ → (NetworkInterface → NetworkInterface) → List NetworkInterface → List NetworkInterface
change_at i f [] = []
change_at zero f (ni ∷ rest) = f ni ∷ rest
change_at (suc i) f (ni ∷ rest) = ni ∷ change_at i f rest

-- The interface of a name, which is added if there is none yet, and what is done to it.
unfoldable pub with_interface :
    Bytes → (NetworkInterface → NetworkInterface) → Interfaces → Interfaces
with_interface name f s = elim (find_name s.idx name) [
  | some i ↦ record s { ifaces = change_at i f s.ifaces }
  | none ↦ record {
    ifaces = s.ifaces ++ f (new_interface name) ∷ [];
    idx = (name, length s.ifaces) ∷ s.idx;
  }
]

-- The chain of extractions of a line; the four numbers in the middle are dropped.
unfoldable pub set_counters : Bytes → NetworkInterface → NetworkInterface
set_counters text ni =
    let olds =
      ni.rx_bytes ∷ ni.rx_packets ∷ ni.rx_errors ∷ ni.rx_dropped ∷ 0 ∷ 0 ∷ 0 ∷ 0 ∷ ni.tx_bytes
      ∷ ni.tx_packets ∷ ni.tx_errors ∷ ni.tx_dropped ∷ [] in
    let vs = read_counters olds (open_stream text) in
    record ni {
      rx_bytes = get_or 0 vs 0;
      rx_packets = get_or 0 vs 1;
      rx_errors = get_or 0 vs 2;
      rx_dropped = get_or 0 vs 3;
      tx_bytes = get_or 0 vs 8;
      tx_packets = get_or 0 vs 9;
      tx_errors = get_or 0 vs 10;
      tx_dropped = get_or 0 vs 11;
    }

-- The name without blanks in front; blanks alone are kept.
unfoldable pub trim_name : Bytes → Bytes
trim_name name =
    let rest = drop_while (λ c. c == 32) name in if bytes_eq rest [] then name else rest

unfoldable pub parse_dev_line : Bytes → Interfaces → Interfaces
parse_dev_line line s = elim (cut_at b':' line) [
  | none ↦ s
  | some p ↦ with_interface (trim_name p.0) (set_counters p.1) s
]

unfoldable pub parse_dev_lines : List Bytes → Interfaces → Interfaces
parse_dev_lines [] s = s
parse_dev_lines (l ∷ ls) s = parse_dev_lines ls (parse_dev_line l s)

-- ParseProcNetDev: two lines of header.
unfoldable pub parse_proc_net_dev : Option Bytes → List NetworkInterface → List NetworkInterface
parse_proc_net_dev none ifaces = ifaces
parse_proc_net_dev (some file) ifaces =
    (parse_dev_lines (drop 2 (lines newline file)) (indexed ifaces)).ifaces

-- An entry of getifaddrs with a name and an address.
pub data Address : Type 0 where
  ip4 ip6 : Bytes → Address
  other : Address

pub record IfAddr : Type 0 where
  pub ifa_name : Bytes
  pub up : Bool
  pub loopback : Bool
  pub ifa_addr : Address

abbrev pub has_address : List Bytes → Bytes → Bool
has_address [] a = false
has_address (b ∷ bs) a = bytes_eq b a || has_address bs a

abbrev pub add_address : Bytes → List Bytes → List Bytes
add_address a as_ = if has_address as_ a then as_ else as_ ++ a ∷ []

unfoldable pub set_address : IfAddr → NetworkInterface → NetworkInterface
set_address e ni =
    let flagged : NetworkInterface = record ni { is_up = e.up; is_loopback = e.loopback } in
    elim e.ifa_addr [
      | ip4 a ↦ record flagged { ip4_addresses = add_address a ni.ip4_addresses }
      | ip6 a ↦ record flagged { ip6_addresses = add_address a ni.ip6_addresses }
      | other ↦ flagged
    ]

unfoldable pub add_if_addrs : List IfAddr → Interfaces → Interfaces
add_if_addrs [] s = s
add_if_addrs (e ∷ es) s = add_if_addrs es (with_interface e.ifa_name (set_address e) s)

-- PopulateIfAddrs; none where getifaddrs fails.
unfoldable pub populate_if_addrs :
    Option (List IfAddr) → List NetworkInterface → List NetworkInterface
populate_if_addrs none ifaces = ifaces
populate_if_addrs (some es) ifaces = (add_if_addrs es (indexed ifaces)).ifaces

-- ReadUint64File of a content, with the default 0.
unfoldable pub read_uint64_file : Bytes → ℕ
read_uint64_file content =
    if bytes_eq content [] then 0 else elim (sto_unsigned 10 content) [ none ↦ 0 | some v ↦ v ]

-- The files address, speed and mtu of an interface.
unfoldable pub enrich : (Bytes → Bytes × Bytes × Bytes) → NetworkInterface → NetworkInterface
enrich sysfs ni =
    let (mac, speed, mtu) = sysfs ni.name in
    record ni {
      mac_address = without_newline mac;
      speed_mbps = read_uint64_file speed;
      mtu = read_uint64_file mtu;
    }

unfoldable pub fetch_network_info :
    Option Bytes → Option (List IfAddr) → (Bytes → Bytes × Bytes × Bytes) → List NetworkInterface
fetch_network_info dev addrs sysfs =
    map (enrich sysfs) (populate_if_addrs addrs (parse_proc_net_dev dev []))

-- GetPrimaryIpv6: the first address of an interface in use that does not begin with fe80.
unfoldable pub first_global : List Bytes → Option Bytes
first_global [] = none
first_global (a ∷ as_) = if not (starts_with (codes "fe80") a) then some a else first_global as_

unfoldable pub get_primary_ipv6 : List NetworkInterface → Bytes
get_primary_ipv6 [] = []
get_primary_ipv6 (ni ∷ rest) =
    let later = get_primary_ipv6 rest in
    if ni.is_loopback || not ni.is_up
    then later
    else elim (first_global ni.ip6_addresses) [ some a ↦ a | none ↦ later ]

-- GetPrimaryIpv4: the interface of the first route to 0.0.0.0, as the line is read.
unfoldable pub route_of : Bytes → Bytes × ℕ
route_of line =
    let (i, iface) = read_word [] (open_stream line) in (iface, (read_unsigned 16 32 0 i).1)

unfoldable pub default_iface : List Bytes → Bytes
default_iface [] = []
default_iface (l ∷ ls) =
    let later = default_iface ls in
    let (iface, dest) = route_of l in if dest == 0 then iface else later

unfoldable pub first_ip4 : Bytes → List NetworkInterface → Bytes
first_ip4 name [] = []
first_ip4 name (ni ∷ rest) =
    if bytes_eq ni.name name && not (length ni.ip4_addresses == 0)
    then get_or [] ni.ip4_addresses 0
    else first_ip4 name rest

unfoldable pub get_primary_ipv4 : Option Bytes → List NetworkInterface → Bytes
get_primary_ipv4 none ifaces = []
get_primary_ipv4 (some routes) ifaces =
    let name = default_iface (drop 1 (lines newline routes)) in
    if bytes_eq name [] then [] else first_ip4 name ifaces
