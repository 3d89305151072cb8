-- ===== src/Memory/Buffer/Cursor/Reading.antt =====
-- What Read and Skip do with the bytes in front of the cursor.
use mathlib.Core.List.{append_assoc}
use yacul.Common.{
  length-append, zero, sym, ◌∙◌, ◌||◌, ◌==◌, suc, inr, inl, leb, Bool-cases, ap, refl, ◌∷◌, [], ◌-◌,
  ◌≤◌, ◌++◌, ◌+◌, ok, true, ◌⊎◌, ◌≡◌, min, length, ◌<◌, List, ℕ, arith,
}
use yacul.Memory.Buffer.{Heap}
use yacul.Memory.Buffer.Cursor.{
  skip_chain, read_chain, available_at, copy_out, advance_if_exhausted, at_end, Cursor,
}
use yacul.Memory.Buffer.Cursor.Nodes.{
  rest_of-append, advance-Advanced, Advanced, copy_out-live, rest_of-end, bytes_of, remaining, IsOn,
}

-- After `out` the cursor `c'` has the rest of the bytes in front of it, and `out` is as long as asked for,
-- or as there were bytes.
pub record IsRead (h : Heap) (c : Cursor) (post : List ℕ) (len : ℕ) (c' : Cursor) (out : List ℕ)
    : Type 0 where
  pub post' : List ℕ
  pub on : IsOn h c' post'
  pub split : remaining h c post ≡ out ++ remaining h c' post'
  pub count : length out ≡ min len (length (remaining h c post))

pub at_end-remaining :
    (h : Heap) (c : Cursor) (post : List ℕ)
    → IsOn h c post
    → at_end h c ≡ true
    → remaining h c post ≡ []
unfolding at_end
at_end-remaining h c [] on e = rw (rest_of-end h c.current c.offset (ground arith)) refl
at_end-remaining h c (v ∷ vs) on e = ground (arith, on.links, on.apart)

-- Enough fuel for a loop at this place.
abbrev Enough : Heap → Cursor → List ℕ → ℕ → ℕ → Type 0
Enough h c post len fuel = (0 < fuel) × ((len ≡ 0) ⊎ (at_end h c ≡ true) ⊎ (length post + 2 ≤ fuel))

module _ (h : Heap) (c : Cursor) (post : List ℕ) (len : ℕ) (on : IsOn h c post) where
  chunk : ℕ
  chunk = min (available_at h c.current c.offset) len

  next : Cursor
  unfolding chunk
  next = advance_if_exhausted h (record c { offset = c.offset + chunk })

  -- One round of a loop.
  record Round (fuel : ℕ) : Type 0 where
    out : List ℕ
    copied : copy_out h c.current c.offset chunk ≡ ok out
    size : length out ≡ chunk
    post' : List ℕ
    on' : IsOn h next post'
    split : remaining h c post ≡ out ++ remaining h next post'
    enough : Enough h next post' (len - chunk) fuel

  chunk-le : chunk ≤ len
  unfolding chunk
  chunk-le = omega arith

  round : (fuel : ℕ) → length post + 1 ≤ fuel → Round fuel
  unfolding chunk next
  round fuel f = record {
    out = bytes_of h c.current c.offset chunk;
    copied = live.0;
    size = live.1;
    post' = after.0;
    on' = after.1;
    split =
        rw (rest_of-append h c.current c.offset chunk fits, append_assoc)
          (ap (λ xs. bytes_of h c.current c.offset chunk ++ xs) after.2);
    enough = (
      omega arith,
      elim (Bool-cases (leb len (available_at h c.current c.offset))) [
        | inl all ↦ inl (ground arith)
        | inr part ↦ elim (after.4 (ground (arith, plain))) [
          | inl done ↦ inr (inl done)
          | inr fewer ↦ inr (inr (omega arith))
        ]
      ],
    );
  }
    where
      plain : available_at h c.current c.offset ≡ (h.nodes c.current).length - c.offset
      plain = omega (arith, on.live.0.small, on.within)

      fits : c.offset + chunk ≤ (h.nodes c.current).length
      fits = omega (arith, plain, on.within)

      live :
          (copy_out h c.current c.offset chunk ≡ ok (bytes_of h c.current c.offset chunk))
          × (length (bytes_of h c.current c.offset chunk) ≡ chunk)
      live = copy_out-live h c.current c.offset chunk on.live.0 fits

      moved : Cursor
      moved = record c { offset = c.offset + chunk }

      after : Advanced h moved post next
      after =
          advance-Advanced h moved post
            (record { links = on.links; apart = on.apart; live = on.live; within = fits })

read_chain-Enough :
    (fuel : ℕ) (h : Heap) (c : Cursor) (post : List ℕ) (len : ℕ)
    → IsOn h c post
    → Enough h c post len fuel
    → (c' : Cursor) × (out : List ℕ) × (read_chain fuel h c len ≡ ok (c', out))
      × (skip_chain fuel h c len ≡ ok c')
      × IsRead h c post len c' out
unfolding read_chain skip_chain next chunk
read_chain-Enough zero h c post len on en = absurd (omega arith)
read_chain-Enough (suc fuel) h c post len on en = elim (Bool-cases (len == 0 || at_end h c)) [
  | inl stop ↦ (
    c,
    [],
    rw stop refl,
    rw stop refl,
    record {
      post' = post;
      on = on;
      split = refl;
      count = elim (Bool-cases (len == 0)) [
        | inl nothing ↦ ground arith
        | inr some_left ↦ rw (at_end-remaining h c post on (ground arith)) (omega arith)
      ];
    },
  )
  | inr go ↦
      let r = round h c post len on fuel (ground arith) in
      let (c', more, e, e', rd) =
        read_chain-Enough fuel h (next h c post len on) r.post' (len - chunk h c post len on) r.on'
          r.enough in
      let total : length (remaining h c post)
          ≡ length r.out + length (remaining h (next h c post len on) r.post') =
        ap (λ (xs : List ℕ). length xs) r.split ∙ length-append r.out _ in
      (
        c',
        r.out ++ more,
        rw (go, r.copied, e) refl,
        rw (go, e') refl,
        record {
          post' = rd.post';
          on = rd.on;
          split = r.split ∙ ap (λ xs. r.out ++ xs) rd.split ∙ sym (append_assoc r.out more _);
          count =
              omega (
                arith,
                length-append r.out more,
                total,
                r.size,
                rd.count,
                chunk-le h c post len on,
              );
        },
      )
]

-- A cursor in a ring of live buffers, with fuel for the nodes behind the current one and two rounds:
-- Read returns. It yields as many bytes as asked for, or all that are in front of the cursor if there
-- are fewer; these are the next bytes of the chain in order, and the cursor it leaves has the rest in
-- front of it. Skip returns the same cursor.
pub read_chain-IsRead :
    (fuel : ℕ) (h : Heap) (c : Cursor) (post : List ℕ) (len : ℕ)
    → IsOn h c post
    → length post + 2 ≤ fuel
    → (c' : Cursor) × (out : List ℕ) × (read_chain fuel h c len ≡ ok (c', out))
      × (skip_chain fuel h c len ≡ ok c')
      × IsRead h c post len c' out
read_chain-IsRead fuel h c post len on f =
    read_chain-Enough fuel h c post len on (omega arith, inr (inr f))
