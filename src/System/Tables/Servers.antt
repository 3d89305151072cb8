-- ===== src/System/Tables/Servers.antt =====
-- The lines of resolv.conf.
use yacul.Common.{not, arith, refl, ◌≡◌, some, ◌++◌, [], ◌==◌, All, ◌∷◌, none, List, ℕ}
use yacul.System.Streams.Reading.{
  not_space, span_all, None-space, read_word-label, lines-append, None-append, None,
}
use yacul.System.Streams.{
  open_stream, newline, drop_while, is_space, lines, word_at, codes, Bytes, read_word,
}
use yacul.System.Tables.{tab, server_of, get_dns_servers, servers_of}

-- A line with an address behind a blank, or behind a tab, which resolv.conf(5) allows as well.
pub data ServerLine : Type 0 where
  behind_blank behind_tab : ℕ → Bytes → ServerLine

abbrev pub print_server : ServerLine → Bytes
print_server (behind_blank c addr) = codes "nameserver " ++ c ∷ addr
print_server (behind_tab c addr) = codes "nameserver" ++ tab ∷ c ∷ addr

abbrev pub print_servers : List ServerLine → Bytes
print_servers [] = []
print_servers (l ∷ ls) = print_server l ++ newline ∷ print_servers ls

-- An address is a word.
abbrev pub IsServerLine : ServerLine → Type 0
IsServerLine (behind_blank c addr) = None is_space (c ∷ addr)
IsServerLine (behind_tab c addr) = None is_space (c ∷ addr)

abbrev pub blank_addresses : List ServerLine → List Bytes
blank_addresses [] = []
blank_addresses (behind_blank c addr ∷ ls) = (c ∷ addr) ∷ blank_addresses ls
blank_addresses (behind_tab c addr ∷ ls) = blank_addresses ls

read_word-all :
    (c : ℕ) (w : Bytes)
    → None is_space (c ∷ w)
    → read_word [] (open_stream (b' ' ∷ c ∷ w)) ≡ (open_stream [], c ∷ w)
unfolding read_word word_at drop_while
read_word-all c w h = rw (h.0, span_all (λ d. not (is_space d)) (c ∷ w) (not_space (c ∷ w) h)) refl

server_of-blank :
    (c : ℕ) (addr : Bytes)
    → None is_space (c ∷ addr)
    → server_of (codes "nameserver " ++ c ∷ addr) ≡ some (c ∷ addr)
unfolding server_of
server_of-blank c addr h =
    rw (read_word-label b'n' (codes "ameserver") (c ∷ addr) (ground arith), read_word-all c addr h)
      refl

server_of-tab : (c : ℕ) (addr : Bytes) → server_of (codes "nameserver" ++ tab ∷ c ∷ addr) ≡ none
unfolding server_of
server_of-tab c addr = refl

server-newline : (l : ServerLine) → IsServerLine l → None (λ c. c == newline) (print_server l)
server-newline (behind_blank c addr) v =
    None-append (λ d. d == newline) (codes "nameserver ") (c ∷ addr) (ground arith)
      (None-space (c ∷ addr) v)
server-newline (behind_tab c addr) v =
    None-append (λ d. d == newline) (codes "nameserver\t") (c ∷ addr) (ground arith)
      (None-space (c ∷ addr) v)

servers_of-print :
    (ls : List ServerLine)
    → All IsServerLine ls
    → servers_of (lines newline (print_servers ls)) ≡ blank_addresses ls
unfolding servers_of lines
servers_of-print [] v = refl
servers_of-print (behind_blank c addr ∷ ls) v =
    rw
      (
        lines-append newline (print_server (behind_blank c addr)) (print_servers ls)
            (server-newline (behind_blank c addr) v.0),
        servers_of,
        server_of-blank c addr v.0,
        servers_of-print ls v.1,
      )
      refl
servers_of-print (behind_tab c addr ∷ ls) v =
    rw
      (
        lines-append newline (print_server (behind_tab c addr)) (print_servers ls)
            (server-newline (behind_tab c addr) v.0),
        servers_of,
        server_of-tab c addr,
      )
      (servers_of-print ls v.1)

-- GetDnsServers of a file of nameserver lines, whose addresses are words: it returns the addresses behind a
-- blank, in their order, and none of those behind a tab.
pub get_dns_servers-print :
    (ls : List ServerLine)
    → All IsServerLine ls
    → get_dns_servers (some (print_servers ls)) ≡ blank_addresses ls
unfolding get_dns_servers
get_dns_servers-print ls v = servers_of-print ls v
