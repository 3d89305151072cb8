-- ===== src/System/Network/Names.antt =====
-- The names of the interfaces.
use yacul.Common.{
  drop, map, Option, if◌then◌else◌, All-map, Bool, subst, ◌∙◌, length, some, Bool-cases, All-concat,
  zero, inr, arith, refl, [], none, inl, ◌≢◌, suc, false, ap, ◌≡◌, All, Option-cases, ◌∷◌, ◌++◌,
  List, ℕ,
}
use yacul.System.Network.{
  newline, lines, trim_name, cut_at, IfAddr, enrich, set_address, parse_proc_net_dev, add_if_addrs,
  fetch_network_info, index_from, parse_dev_line, populate_if_addrs, indexed, set_counters,
  parse_dev_lines, new_interface, find_name, bytes_eq, NetworkInterface, with_interface, Interfaces,
  change_at,
}
use yacul.System.Streams.{newline, lines, cut_at, bytes_eq, Bytes}
use yacul.System.Streams.Reading.{bytes_eq-eq, bytes_eq_refl}

abbrev pub names : List NetworkInterface → List Bytes
names [] = []
names (ni ∷ rest) = ni.name ∷ names rest

abbrev pub DistinctNames : List Bytes → Type 0
DistinctNames [] = Unit
DistinctNames (n ∷ ns) = All (λ (m : Bytes). bytes_eq n m ≡ false) ns × DistinctNames ns

-- A name in the map.
abbrev Known : List (Bytes × ℕ) → Bytes → Type 0
Known idx n = find_name idx n ≢ none

-- The names differ, and the map has each of them.
record IsIndexed (s : Interfaces) : Type 0 where
  apart : DistinctNames (names s.ifaces)
  known : All (Known s.idx) (names s.ifaces)

abbrev KeepsName : (NetworkInterface → NetworkInterface) → Type 0
KeepsName f = (ni : NetworkInterface) → (f ni).name ≡ ni.name

names-change_at :
    (f : NetworkInterface → NetworkInterface)
    → KeepsName f
    → (i : ℕ) (ifaces : List NetworkInterface) → names (change_at i f ifaces) ≡ names ifaces
unfolding change_at
names-change_at f keeps i [] = refl
names-change_at f keeps zero (ni ∷ rest) = rw (keeps ni) refl
names-change_at f keeps (suc i) (ni ∷ rest) =
    ap (λ (ns : List Bytes). ni.name ∷ ns) (names-change_at f keeps i rest)

names-append : (xs ys : List NetworkInterface) → names (xs ++ ys) ≡ names xs ++ names ys
names-append [] ys = refl
names-append (x ∷ xs) ys = ap (λ (ns : List Bytes). x.name ∷ ns) (names-append xs ys)

DistinctNames-concat :
    (ns : List Bytes) (idx : List (Bytes × ℕ)) (m : Bytes)
    → DistinctNames ns
    → All (Known idx) ns
    → find_name idx m ≡ none
    → DistinctNames (ns ++ m ∷ [])
DistinctNames-concat [] idx m d k e = (tt, tt)
DistinctNames-concat (n ∷ ns) idx m d k e = elim (Bool-cases (bytes_eq n m)) [
  | inl same ↦ absurd (k.0 (ap (find_name idx) (bytes_eq-eq n m same) ∙ e))
  | inr other ↦ (
    All-concat (λ (b : Bytes). bytes_eq n b ≡ false) ns m d.0 other,
    DistinctNames-concat ns idx m d.1 k.1 e,
  )
]

find_name_first : (idx : List (Bytes × ℕ)) (m : Bytes) (i : ℕ) → find_name ((m, i) ∷ idx) m ≡ some i
unfolding find_name
find_name_first idx m i = rw (bytes_eq_refl m) refl

-- A known name stays known when an entry is put in front.
Known-cons :
    (idx : List (Bytes × ℕ)) (m : Bytes) (i : ℕ) (n : Bytes) → Known idx n → Known ((m, i) ∷ idx) n
unfolding find_name
Known-cons idx m i n k = elim (Bool-cases (bytes_eq m n)) [
  | inl same ↦ λ e. cc (subst (λ (b : Bool). (if b then some i else find_name idx n) ≡ none) same e)
  | inr other ↦
      λ e. k (subst (λ (b : Bool). (if b then some i else find_name idx n) ≡ none) other e)
]

with_interface-IsIndexed :
    (name : Bytes) (f : NetworkInterface → NetworkInterface)
    → KeepsName f
    → (s : Interfaces) → IsIndexed s
    → IsIndexed (with_interface name f s)
unfolding with_interface
with_interface-IsIndexed name f keeps s v = elim (Option-cases (find_name s.idx name)) [
  | inl new ↦
      let known =
        All-concat (Known ((name, length s.ifaces) ∷ s.idx)) (names s.ifaces) name
          (All-map (Known-cons s.idx name (length s.ifaces)) (names s.ifaces) v.known)
          (λ e. cc (find_name_first s.idx name (length s.ifaces), e)) in
      let more : names (s.ifaces ++ f (new_interface name) ∷ []) ≡ names s.ifaces ++ name ∷ [] =
        names-append s.ifaces (f (new_interface name) ∷ [])
        ∙ ap (λ (n : Bytes). names s.ifaces ++ n ∷ []) (keeps (new_interface name)) in
      rw (with_interface, new)
        (record {
          apart = rw more (DistinctNames-concat (names s.ifaces) s.idx name v.apart v.known new);
          known = rw more known;
        })
  | inr (i, at) ↦
      rw (with_interface, at)
        (record {
          apart = rw (names-change_at f keeps i s.ifaces) v.apart;
          known = rw (names-change_at f keeps i s.ifaces) v.known;
        })
]

index_from-Known :
    (ifaces : List NetworkInterface) (i : ℕ) (idx : List (Bytes × ℕ)) (n : Bytes)
    → Known idx n
    → Known (index_from i ifaces idx) n
unfolding index_from
index_from-Known [] i idx n k = k
index_from-Known (ni ∷ rest) i idx n k =
    index_from-Known rest (suc i) ((ni.name, i) ∷ idx) n (Known-cons idx ni.name i n k)

index_from-All :
    (ifaces : List NetworkInterface) (i : ℕ) (idx : List (Bytes × ℕ))
    → All (Known (index_from i ifaces idx)) (names ifaces)
unfolding index_from
index_from-All [] i idx = tt
index_from-All (ni ∷ rest) i idx = (
  index_from-Known rest (suc i) ((ni.name, i) ∷ idx) ni.name
      (λ e. cc (find_name_first idx ni.name i, e)),
  index_from-All rest (suc i) ((ni.name, i) ∷ idx),
)

indexed-IsIndexed :
    (ifaces : List NetworkInterface) → DistinctNames (names ifaces) → IsIndexed (indexed ifaces)
unfolding indexed
indexed-IsIndexed ifaces d = record { apart = d; known = index_from-All ifaces 0 [] }

set_counters-KeepsName : (text : Bytes) → KeepsName (set_counters text)
unfolding set_counters
set_counters-KeepsName text ni = refl

set_address-KeepsName : (e : IfAddr) → KeepsName (set_address e)
unfolding set_address
set_address-KeepsName e ni = ground arith

parse_dev_line-IsIndexed :
    (l : Bytes) (s : Interfaces) → IsIndexed s → IsIndexed (parse_dev_line l s)
unfolding parse_dev_line
parse_dev_line-IsIndexed l s v = elim (Option-cases (cut_at b':' l)) [
  | inl nothing ↦ rw (parse_dev_line, nothing) v
  | inr (p, at) ↦
      rw (parse_dev_line, at)
        (with_interface-IsIndexed (trim_name p.0) (set_counters p.1) (set_counters-KeepsName p.1) s
          v)
]

parse_dev_lines-IsIndexed :
    (ls : List Bytes) (s : Interfaces) → IsIndexed s → IsIndexed (parse_dev_lines ls s)
unfolding parse_dev_lines
parse_dev_lines-IsIndexed [] s v = v
parse_dev_lines-IsIndexed (l ∷ ls) s v =
    parse_dev_lines-IsIndexed ls (parse_dev_line l s) (parse_dev_line-IsIndexed l s v)

add_if_addrs-IsIndexed :
    (es : List IfAddr) (s : Interfaces) → IsIndexed s → IsIndexed (add_if_addrs es s)
unfolding add_if_addrs
add_if_addrs-IsIndexed [] s v = v
add_if_addrs-IsIndexed (e ∷ es) s v =
    add_if_addrs-IsIndexed es _
      (with_interface-IsIndexed e.ifa_name (set_address e) (set_address-KeepsName e) s v)

parse_proc_net_dev-DistinctNames :
    (dev : Option Bytes) (ifaces : List NetworkInterface)
    → DistinctNames (names ifaces)
    → DistinctNames (names (parse_proc_net_dev dev ifaces))
unfolding parse_proc_net_dev
parse_proc_net_dev-DistinctNames none ifaces d = d
parse_proc_net_dev-DistinctNames (some file) ifaces d =
    (parse_dev_lines-IsIndexed (drop 2 (lines newline file)) (indexed ifaces)
      (indexed-IsIndexed ifaces d)).apart

populate_if_addrs-DistinctNames :
    (addrs : Option (List IfAddr)) (ifaces : List NetworkInterface)
    → DistinctNames (names ifaces)
    → DistinctNames (names (populate_if_addrs addrs ifaces))
unfolding populate_if_addrs
populate_if_addrs-DistinctNames none ifaces d = d
populate_if_addrs-DistinctNames (some es) ifaces d =
    (add_if_addrs-IsIndexed es (indexed ifaces) (indexed-IsIndexed ifaces d)).apart

names-map :
    (sysfs : Bytes → Bytes × Bytes × Bytes) (ifaces : List NetworkInterface)
    → names (map (enrich sysfs) ifaces) ≡ names ifaces
unfolding enrich
names-map sysfs [] = refl
names-map sysfs (ni ∷ rest) = ap (λ (ns : List Bytes). ni.name ∷ ns) (names-map sysfs rest)

-- FetchNetworkInfo lists each interface once, although it takes the names from two sources and meets a name
-- there many times: all names in its result differ.
pub fetch_network_info-DistinctNames :
    (dev : Option Bytes) (addrs : Option (List IfAddr)) (sysfs : Bytes → Bytes × Bytes × Bytes)
    → DistinctNames (names (fetch_network_info dev addrs sysfs))
unfolding fetch_network_info
fetch_network_info-DistinctNames dev addrs sysfs =
    rw (names-map sysfs (populate_if_addrs addrs (parse_proc_net_dev dev []))) (
      populate_if_addrs-DistinctNames addrs (parse_proc_net_dev dev [])
        (parse_proc_net_dev-DistinctNames dev [] tt))
