-- ===== src/Memory/Buffer/Cursor/Peeking.antt =====
-- Peek against Read.
use mathlib.Core.List.{append_assoc}
use yacul.Common.{
  leb, sym, zero, refl, [], length-append, ◌∷◌, ◌∙◌, ap, true, inr, inl, Bool-cases, false, ◌*◌,
  ◌≤◌, ◌==◌, suc, ◌⊎◌, ok, length, ◌-◌, ◌++◌, ◌≡◌, ◌<◌, min, List, ◌+◌, ℕ, arith,
}
use yacul.Memory.Buffer.{Heap}
use yacul.Memory.Buffer.Cursor.{read_chain, available_at, peek_chain, Cursor}
use yacul.Memory.Buffer.Cursor.Nodes.{
  rest_of-start, rest_of-end, rest_of-append, copy_out-live, bytes_of, IsOn, remaining,
}
use yacul.Memory.Buffer.Cursor.Reading.{read_chain-IsRead}

prefix_unique : (xs ys us vs : List ℕ) → xs ++ us ≡ ys ++ vs → length xs ≡ length ys → xs ≡ ys
prefix_unique [] [] us vs e n = refl
prefix_unique [] (y ∷ ys) us vs e n = absurd (omega arith)
prefix_unique (x ∷ xs) [] us vs e n = absurd (omega arith)
prefix_unique (x ∷ xs) (y ∷ ys) us vs e n =
    let heads : x ≡ y = cc in
    let tails : xs ++ us ≡ ys ++ vs = cc in
    let rest = prefix_unique xs ys us vs tails (omega arith) in cc

-- `out` is the front of what is before the cursor, as long as asked for or as there are bytes.
abbrev IsFront : Heap → Cursor → List ℕ → ℕ → List ℕ → Type 0
IsFront h c post len out =
    (tail : List ℕ) × (remaining h c post ≡ out ++ tail)
    × (length out ≡ min len (length (remaining h c post)))

abbrev Enough : Heap → Cursor → List ℕ → ℕ → ℕ → Type 0
Enough h c post len fuel =
    (0 < fuel)
    × ((len ≡ 0)
        ⊎ (c.offset ≡ (h.nodes c.current).length) × (2 * length post + 2 ≤ fuel)
        ⊎ (2 * length post + 3 ≤ fuel))

abbrev chunk_at : Heap → Cursor → ℕ → ℕ
chunk_at h c len = min (available_at h c.current c.offset) len

abbrev moved : Heap → Cursor → ℕ → Cursor
moved h c len = record c { offset = c.offset + chunk_at h c len }

abbrev Peeks : ℕ → Heap → Cursor → List ℕ → ℕ → Type 0
Peeks fuel h c post len =
    (out : List ℕ) × (peek_chain fuel h c len ≡ ok out) × IsFront h c post len out

module _ (fuel : ℕ) (h : Heap) (c : Cursor) (post : List ℕ) (len : ℕ) (on : IsOn h c post) where
  plain : available_at h c.current c.offset ≡ (h.nodes c.current).length - c.offset
  plain = omega (arith, on.live.0.small, on.within)

  fits : c.offset + chunk_at h c len ≤ (h.nodes c.current).length
  fits = omega (arith, plain, on.within)

  moved-IsOn : IsOn h (moved h c len) post
  moved-IsOn = record { links = on.links; apart = on.apart; live = on.live; within = fits }

  -- A round that copies.
  peek_copies :
      (len == 0) ≡ false
      → (available_at h c.current c.offset == 0) ≡ false
      → Peeks fuel h (moved h c len) post (len - chunk_at h c len)
      → Peeks (suc fuel) h c post len
  unfolding peek_chain
  peek_copies some_left here (more, e, (tail, split, count)) =
      let n = chunk_at h c len in
      let first = bytes_of h c.current c.offset n in
      let live = copy_out-live h c.current c.offset n on.live.0 fits in
      let cut : remaining h c post ≡ first ++ remaining h (moved h c len) post =
        rw (rest_of-append h c.current c.offset n fits) (append_assoc first _ _) in
      let total : length (remaining h c post)
          ≡ length first + length (remaining h (moved h c len) post) =
        ap (λ (xs : List ℕ). length xs) cut ∙ length-append first _ in
      (
        first ++ more,
        rw (some_left, here, live.0, e) refl,
        (
          tail,
          cut ∙ ap (λ xs. first ++ xs) split ∙ sym (append_assoc first more tail),
          omega (arith, length-append first more, total, live.1, count),
        ),
      )

  copies-Enough :
      (len == 0) ≡ false
      → (available_at h c.current c.offset == 0) ≡ false
      → Enough h c post len (suc fuel)
      → Enough h (moved h c len) post (len - chunk_at h c len) fuel
  copies-Enough some_left here en = elim en.1 [
    | inl nothing ↦ ground arith
    | inr (inl (at, f)) ↦ ground (arith, plain)
    | inr (inr f) ↦ (
      omega arith,
      elim (Bool-cases (leb len (available_at h c.current c.offset))) [
        | inl all ↦ inl (ground arith)
        | inr part ↦ inr (inl (ground (arith, plain, on.within), omega arith))
      ],
    )
  ]

onward :
    {at at' : Type 0} (fuel : ℕ) (vs : List ℕ) (len : ℕ)
    → (0 < suc fuel)
      × ((len ≡ 0)
          ⊎ at × (2 * suc (length vs) + 2 ≤ suc fuel)
          ⊎ (2 * suc (length vs) + 3 ≤ suc fuel))
    → (len == 0) ≡ false
    → (0 < fuel) × ((len ≡ 0) ⊎ at' × (2 * length vs + 2 ≤ fuel) ⊎ (2 * length vs + 3 ≤ fuel))
onward fuel vs len (_, inl e) n = ground arith
onward fuel vs len (_, inr (inl (_, f))) n = (omega arith, inr (inr (omega arith)))
onward fuel vs len (_, inr (inr f)) n = (omega arith, inr (inr (omega arith)))

peek_chain-IsFront :
    (fuel : ℕ) (h : Heap) (c : Cursor) (post : List ℕ) (len : ℕ)
    → IsOn h c post
    → Enough h c post len fuel
    → Peeks fuel h c post len
unfolding peek_chain
peek_chain-IsFront zero h c post len on en = absurd (omega arith)
peek_chain-IsFront (suc fuel) h c [] len on en = elim (Bool-cases (len == 0)) [
  | inl nothing ↦ ([], rw nothing refl, (remaining h c [], refl, ground arith))
  | inr some_left ↦ elim (Bool-cases (available_at h c.current c.offset == 0)) [
    | inl used_up ↦
        let last : ((h.nodes c.current).next == c.head) ≡ true = ground (arith, on.links) in
        let at : c.offset ≡ (h.nodes c.current).length =
          ground (arith, plain fuel h c [] len on, on.within) in
        let gone = rest_of-end h c.current c.offset at in
        ([], rw (some_left, used_up, last) refl, ([], rw gone refl, rw gone (omega arith)))
    | inr here ↦ peek_copies fuel h c [] len on some_left here (
        peek_chain-IsFront fuel h (moved h c len) [] (len - chunk_at h c len)
          (moved-IsOn fuel h c [] len on) (copies-Enough fuel h c [] len on some_left here en))
  ]
]
peek_chain-IsFront (suc fuel) h c (v ∷ vs) len on en = elim (Bool-cases (len == 0)) [
  | inl nothing ↦ ([], rw nothing refl, (remaining h c (v ∷ vs), refl, ground arith))
  | inr some_left ↦ elim (Bool-cases (available_at h c.current c.offset == 0)) [
    | inl used_up ↦
        let at : c.offset ≡ (h.nodes c.current).length =
          ground (arith, plain fuel h c (v ∷ vs) len on, on.within) in
        let next : Cursor = record c { current = v; offset = 0 } in
        let on' : IsOn h next vs = record {
          links = on.links.2;
          apart = ground (arith, on.apart);
          live = on.live.1;
          within = omega arith;
        } in
        let same : remaining h c (v ∷ vs) ≡ remaining h next vs =
          rw (rest_of-end h c.current c.offset at, rest_of-start h v) refl in
        let apart : ((h.nodes c.current).next == c.head) ≡ false =
          ground (arith, on.links, on.apart) in
        let (out, e, front) =
          peek_chain-IsFront fuel h next vs len on' (onward fuel vs len en some_left) in
        (out, rw (some_left, used_up, apart, on.links.0, e) refl, rw same front)
    | inr here ↦ peek_copies fuel h c (v ∷ vs) len on some_left here (
        peek_chain-IsFront fuel h (moved h c len) (v ∷ vs) (len - chunk_at h c len)
          (moved-IsOn fuel h c (v ∷ vs) len on)
          (copies-Enough fuel h c (v ∷ vs) len on some_left here en))
  ]
]

-- A cursor in a ring of live buffers, with fuel for both loops: Peek and Read both return, and Peek yields
-- the bytes that Read yields.
pub peek_chain-read_chain :
    (fuel fuel' : ℕ) (h : Heap) (c : Cursor) (post : List ℕ) (len : ℕ)
    → IsOn h c post
    → 2 * length post + 3 ≤ fuel
    → length post + 2 ≤ fuel'
    → (c' : Cursor) × (out : List ℕ) × (peek_chain fuel h c len ≡ ok out)
      × (read_chain fuel' h c len ≡ ok (c', out))
peek_chain-read_chain fuel fuel' h c post len on f f' =
    let (seen, e, (tail, split, count)) =
      peek_chain-IsFront fuel h c post len on (omega arith, inr (inr f)) in
    let (c', out, e', _, rd) = read_chain-IsRead fuel' h c post len on f' in
    let same : seen ≡ out =
      prefix_unique seen out tail (remaining h c' rd.post') (sym split ∙ rd.split)
        (count ∙ sym rd.count) in
    (c', out, e ∙ ap (λ xs. ok xs) same, e')
