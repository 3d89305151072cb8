-- ===== src/System/Sockets.antt =====
-- SystemInfo::GetListeningPorts of yacul/system/system_info.cc. The directories and the links under /proc,
-- the two tables of sockets and the names of the processes are arguments; an absent file is none.
-- std::sort is an argument too.
pub mod Found
use mathlib.Core.Option
use mathlib.Core.List.{filter_map}
use yacul.Common.{
  ◌-◌, ltb, update, drop, ◌++◌, ◌==◌, [], ◌^◌, some, ◌%◌, if◌then◌else◌, none, ◌∷◌, List, Option, ℕ,
}
use yacul.System.Streams.{
  open_stream, neg, pos, newline, Stream, read_unsigned, starts_with, codes, lines, read_word,
  without_newline, Bytes, ℤ, sto_unsigned, read_signed, cut_at,
}

pub record ListeningPort : Type 0 where
  pub port : ℤ
  pub proto : Bytes
  pub state : Bytes
  pub pid : Option ℕ
  pub process_name : Bytes

-- static_cast<int> of an unsigned long.
abbrev pub to_int : ℕ → ℤ
to_int n = let low = n % 2 ^ 32 in if ltb low (2 ^ 31) then pos low else neg (2 ^ 32 - low)

-- The text behind "socket:[" without the last character, if that is a bracket.
unfoldable pub inside_brackets : Bytes → Option Bytes
inside_brackets [] = none
inside_brackets (c ∷ []) = if c == b']' then some [] else none
inside_brackets (c ∷ d ∷ s) = Option.map (λ (t : Bytes). c ∷ t) (inside_brackets (d ∷ s))

-- The inode of a link "socket:[<inode>]".
unfoldable pub inode_of : Bytes → Option ℕ
inode_of link =
    if starts_with (codes "socket:[") link
    then elim (inside_brackets (drop 8 link)) [ none ↦ none | some digits ↦ sto_unsigned 10 digits ]
    else none

-- inode_to_pid: a later link to the same socket replaces an earlier one.
unfoldable pub add_links : ℕ → List Bytes → (ℕ → Option ℕ) → ℕ → Option ℕ
add_links pid [] inodes = inodes
add_links pid (link ∷ links) inodes =
    add_links pid links
      (elim (inode_of link) [ none ↦ inodes | some inode ↦ update inodes inode (some pid) ])

unfoldable pub inode_to_pid : List (ℕ × List Bytes) → (ℕ → Option ℕ) → ℕ → Option ℕ
inode_to_pid [] inodes = inodes
inode_to_pid ((pid, links) ∷ rest) inodes = inode_to_pid rest (add_links pid links inodes)

-- The variables of the loop behind the first four extractions.
unfoldable pub read_state : Bytes → Stream × Bytes × ℕ
read_state line =
    let (after_sl, sl) = read_signed 31 (pos 0) (open_stream line) in
    let (after_local, local_addr) = read_word [] after_sl in
    let (after_rem, rem_addr) = read_word [] after_local in
    let (after_st, st) = read_unsigned 16 32 0 after_rem in (after_st, local_addr, st)

-- inode_val behind the next six extractions.
unfoldable pub read_inode : Stream → ℕ
read_inode i =
    let (i1, skip1) = read_word [] i in
    let (i2, skip2) = read_word skip1 i1 in
    let (i3, skip3) = read_word skip2 i2 in
    let (i4, uid) = read_signed 31 (pos 0) i3 in
    let (i5, timeout) = read_signed 31 (pos 0) i4 in (read_unsigned 10 64 0 i5).1

-- port_val; none where the loop goes on to the next line.
unfoldable pub port_of : Bytes → Option ℤ
port_of local_addr = elim (cut_at b':' local_addr) [
  | none ↦ none
  | some (ip, port) ↦ Option.map to_int (sto_unsigned 16 port)
]

-- The lines of a table behind its header.
abbrev pub entries : List Bytes → List Bytes
entries [] = []
entries (header ∷ rest) = rest

module _ (inodes : ℕ → Option ℕ) (read_comm : ℕ → Bytes) where
  -- The entry of a port, with the process that has the socket open.
  unfoldable pub listening_port : Bytes → ℤ → Option ℕ → ListeningPort
  listening_port proto port none = record {
    port = port;
    proto = proto;
    state = codes "LISTEN";
    pid = none;
    process_name = [];
  }
  listening_port proto port (some pid) = record {
    port = port;
    proto = proto;
    state = codes "LISTEN";
    pid = some pid;
    process_name = without_newline (read_comm pid);
  }

  -- A line of the table.
  unfoldable pub parse_line : Bytes → Bytes → Option ListeningPort
  parse_line proto line =
      let (i, local_addr, st) = read_state line in
      if st == 0x0A
      then Option.map (λ (port : ℤ). listening_port proto port (inodes (read_inode i)))
          (port_of local_addr)
      else none

  unfoldable pub parse_net_file : Bytes → Option Bytes → List ListeningPort
  parse_net_file proto none = []
  parse_net_file proto (some file) = filter_map (parse_line proto) (entries (lines newline file))

-- GetListeningPorts.
unfoldable pub get_listening_ports :
    (List ListeningPort → List ListeningPort)
    → List (ℕ × List Bytes)
    → (ℕ → Bytes)
    → Option Bytes
    → Option Bytes
    → List ListeningPort
get_listening_ports sort processes read_comm tcp tcp6 =
    let inodes = inode_to_pid processes (λ i. none) in
    sort (
      parse_net_file inodes read_comm (codes "tcp") tcp
      ++ parse_net_file inodes read_comm (codes "tcp6") tcp6)
