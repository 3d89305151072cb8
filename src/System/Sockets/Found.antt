-- ===== src/System/Sockets/Found.antt =====
-- What GetListeningPorts finds in tables of the kernel's form.
use mathlib.Core.List.Perm
use mathlib.Core.List.{filter_map}
use yacul.Common.{
  if◌then◌else◌, inr, inl, Perm, Bool-cases, All, none, ◌⊎◌, some, List, [], Option, refl, arith,
  ◌++◌, false, ◌∷◌, true, ◌≡◌, Bool, ℕ,
}
use yacul.System.Streams.{
  read_unsigned, codes, newline, lines, behind_prefix, drop_while, signed, span, sto_unsigned,
  word_at, cut_at, read_word, open_stream, is_space, pos, read_signed, scan_number, Bytes,
  is_digit_of,
}
use yacul.System.Streams.Reading.{
  digit_not_space, drop_while_stop, drop_while-append, signed_at-digits, Each,
}
use yacul.System.Sockets.{
  read_unsigned, codes, newline, inode_to_pid, lines, entries, ListeningPort, sto_unsigned, cut_at,
  parse_line, parse_net_file, port_of, read_state, get_listening_ports,
}

-- The number of the entry, a colon and a blank: the kernel prints "%4d: ".
pub record Numbered (line : Bytes) : Type 0 where
  pub blanks : Bytes
  pub first : ℕ
  pub digits : Bytes
  pub rest : Bytes
  pub are_blanks : Each is_space blanks
  pub are_digits : Each (is_digit_of 10) (first ∷ digits)
  pub spelled : line ≡ blanks ++ first ∷ (digits ++ b':' ∷ b' ' ∷ rest)

-- A table that can be read has numbered lines behind its header.
abbrev pub IsTable : Option Bytes → Type 0
IsTable none = Unit
IsTable (some file) = All Numbered (entries (lines newline file))

read_signed-entry :
    {line : Bytes} (e : Numbered line)
    → (g : Bool) × ((read_signed 31 (pos 0) (open_stream line)).0
        ≡ record { rest = b':' ∷ b' ' ∷ e.rest; good = g })
unfolding read_signed is_digit_of
read_signed-entry e =
    let ends = signed_at-digits e.first e.digits (b':' ∷ b' ' ∷ e.rest) e.are_digits refl 31 in
    let start =
      drop_while-append is_space e.blanks (e.first ∷ (e.digits ++ b':' ∷ b' ' ∷ e.rest))
        e.are_blanks in
    let stop =
      drop_while_stop is_space e.first (e.digits ++ b':' ∷ b' ' ∷ e.rest)
        (digit_not_space e.first e.are_digits.0) in
    (ends.0, rw (e.spelled, start, stop) ends.1)

-- Behind the number, operator>> reads the colon as the local address, or nothing at all.
read_word-colon :
    (g : Bool) (r : Bytes)
    → read_word [] (record { rest = b':' ∷ b' ' ∷ r; good = g }) ≡ (
        if g
        then (open_stream (b' ' ∷ r), b':' ∷ [])
        else (record { rest = b':' ∷ b' ' ∷ r; good = false }, []))
unfolding read_word word_at span drop_while
read_word-colon true r = refl
read_word-colon false r = refl

read_state-entry :
    {line : Bytes} (e : Numbered line)
    → ((read_state line).1 ≡ b':' ∷ []) ⊎ ((read_state line).2 ≡ 0)
unfolding read_state
read_state-entry {line} e =
    let (g, at) = read_signed-entry e in
    elim (Bool-cases g) [
      | inl fits ↦ inl (rw (at, read_word-colon g e.rest, fits) refl)
      | inr over ↦
          inr (rw (at, read_word-colon g e.rest, over) (unfold read_word read_unsigned in refl))
    ]

no_port : port_of (b':' ∷ []) ≡ none
unfolding port_of cut_at sto_unsigned scan_number signed behind_prefix span drop_while
no_port = refl

module _ (inodes : ℕ → Option ℕ) (read_comm : ℕ → Bytes) where
  parse_line-entry :
      (proto : Bytes) {line : Bytes} → Numbered line → parse_line inodes read_comm proto line ≡ none
  unfolding parse_line
  parse_line-entry proto {line} e = elim (read_state-entry e) [
    | inl colon ↦ rw (colon, no_port) (ground arith)
    | inr closed ↦ rw closed refl
  ]

  parse_entries :
      (proto : Bytes) (ls : List Bytes)
      → All Numbered ls
      → filter_map (parse_line inodes read_comm proto) ls ≡ []
  unfolding filter_map
  parse_entries proto [] h = refl
  parse_entries proto (l ∷ ls) h = rw (parse_line-entry proto h.0) (parse_entries proto ls h.1)

  parse_net_file-entries :
      (proto : Bytes) (file : Option Bytes)
      → IsTable file
      → parse_net_file inodes read_comm proto file ≡ []
  unfolding parse_net_file
  parse_net_file-entries proto none h = refl
  parse_net_file-entries proto (some file) h = parse_entries proto (entries (lines newline file)) h

-- On tables of the kernel's form, with a numbered line for each socket behind the header, GetListeningPorts
-- returns no port, whatever the sockets are: the number is read up to its colon, and the
-- colon is then taken for the local address. std::sort is any rearrangement.
pub get_listening_ports-nil :
    (sort : List ListeningPort → List ListeningPort)
    → ((ports : List ListeningPort) → Perm (sort ports) ports)
    → (processes : List (ℕ × List Bytes)) (read_comm : ℕ → Bytes) (tcp tcp6 : Option Bytes)
    → IsTable tcp
    → IsTable tcp6
    → get_listening_ports sort processes read_comm tcp tcp6 ≡ []
unfolding get_listening_ports
get_listening_ports-nil sort perm processes read_comm tcp tcp6 h h6 =
    let inodes : ℕ → Option ℕ = inode_to_pid processes (λ i. none) in
    rw
      (
        parse_net_file-entries inodes read_comm (codes "tcp") tcp h,
        parse_net_file-entries inodes read_comm (codes "tcp6") tcp6 h6,
      )
      (Perm.eq-nil (perm []))
