-- ===== src/Memory/Buffer/Cursor/Nodes.antt =====
-- Where a cursor stands in its chain, and one round of its loops.
use yacul.Common.{
  sym, Bool-cases, ◌==◌, zero, true, leb, inr, refl, inl, subst, suc, Option, length, ◌∷◌, ok,
  false, some, none, ◌≤◌, ◌⊎◌, [], ◌-◌, ◌+◌, ◌++◌, ◌≡◌, List, ℕ, arith, All,
}
use yacul.Memory.Buffer.{Heap, Physical}
use yacul.Memory.Buffer.Cursor.{at_end, advance_if_exhausted, physical_of, copy_out, Cursor}
use yacul.Memory.Buffer.Views.{physical_of}
use yacul.Memory.Buffer.Ring.{has, Links}
use yacul.Memory.Buffer.Live.{IsLive, bytes_in, bytes_in-zero, content, contents}
use yacul.Memory.Buffer.Bytes.{length-read, read-append}

bytes_in-append :
    (own : Option Physical) (o m n : ℕ)
    → bytes_in own o (m + n) ≡ bytes_in own o m ++ bytes_in own (o + m) n
bytes_in-append none o m n = refl
bytes_in-append (some q) o m n = read-append m n o q.bytes

-- `n` bytes of the view of `b`, from `offset` on.
abbrev pub bytes_of : Heap → ℕ → ℕ → ℕ → List ℕ
bytes_of h b offset n = bytes_in (physical_of h b) ((h.nodes b).data_at + offset) n

abbrev pub rest_of : Heap → ℕ → ℕ → List ℕ
rest_of h b offset = bytes_of h b offset ((h.nodes b).length - offset)

-- What is in front of the cursor, if `post` are the nodes behind the current one.
abbrev pub remaining : Heap → Cursor → List ℕ → List ℕ
remaining h c post = rest_of h c.current c.offset ++ contents h post

pub record IsOn (h : Heap) (c : Cursor) (post : List ℕ) : Type 0 where
  pub links : Links h c.current post c.head
  pub apart : has c.head post ≡ false
  pub live : All (IsLive h) (c.current ∷ post)
  pub within : c.offset ≤ (h.nodes c.current).length

pub rest_of-append :
    (h : Heap) (b offset n : ℕ)
    → offset + n ≤ (h.nodes b).length
    → rest_of h b offset ≡ bytes_of h b offset n ++ rest_of h b (offset + n)
rest_of-append h b offset n fits =
    let size : (h.nodes b).length - offset ≡ n + ((h.nodes b).length - (offset + n)) =
      omega arith in
    let place : (h.nodes b).data_at + offset + n ≡ (h.nodes b).data_at + (offset + n) =
      omega arith in
    rw size (
      subst
        (λ o.
          bytes_of h b offset (n + ((h.nodes b).length - (offset + n)))
          ≡ bytes_of h b offset n
            ++ bytes_in (physical_of h b) o ((h.nodes b).length - (offset + n)))
        place (bytes_in-append (physical_of h b) ((h.nodes b).data_at + offset) n _))

pub copy_out-live :
    (h : Heap) (b offset n : ℕ)
    → IsLive h b
    → offset + n ≤ (h.nodes b).length
    → (copy_out h b offset n ≡ ok (bytes_of h b offset n)) × (length (bytes_of h b offset n) ≡ n)
unfolding copy_out
copy_out-live h b offset zero v fits =
    rw (bytes_in-zero (physical_of h b) ((h.nodes b).data_at + offset)) (refl, refl)
copy_out-live h b offset (suc n) v fits = go v.owned
  where
    go :
        ((h.nodes b).length ≡ 0)
          ⊎ (q : Physical) × (physical_of h b ≡ some q)
            × ((h.nodes b).data_at + (h.nodes b).length ≤ q.capacity)
        → (copy_out h b offset (suc n) ≡ ok (bytes_of h b offset (suc n)))
          × (length (bytes_of h b offset (suc n)) ≡ suc n)
    go (inl none_left) = absurd (omega arith)
    go (inr (q, e, inside)) =
        let passes : leb ((h.nodes b).data_at + offset + suc n) q.capacity ≡ true = ground arith in
        let more : (suc n == 0) ≡ false = ground arith in
        rw (more, e, passes) (refl, length-read (suc n) ((h.nodes b).data_at + offset) q.bytes)

pub rest_of-end : (h : Heap) (b offset : ℕ) → offset ≡ (h.nodes b).length → rest_of h b offset ≡ []
rest_of-end h b offset e =
    let nothing : (h.nodes b).length - offset ≡ 0 = omega arith in
    rw nothing (bytes_in-zero (physical_of h b) ((h.nodes b).data_at + offset))

pub rest_of-start : (h : Heap) (b : ℕ) → rest_of h b 0 ≡ content h b
rest_of-start h b =
    let place : (h.nodes b).data_at + 0 ≡ (h.nodes b).data_at = omega arith in
    let size : (h.nodes b).length - 0 ≡ (h.nodes b).length = omega arith in rw (place, size) refl

-- The same bytes are in front of `c'` as of `c`. If `c` was at the end of its node, `c'` is at the end of
-- the chain or has fewer nodes behind it.
abbrev pub Advanced : Heap → Cursor → List ℕ → Cursor → Type 0
Advanced h c post c' =
    (post' : List ℕ) × IsOn h c' post'
    × (remaining h c post ≡ remaining h c' post')
    × (length post' ≤ length post)
    × (c.offset ≡ (h.nodes c.current).length
        → (at_end h c' ≡ true) ⊎ (suc (length post') ≤ length post))

-- AdvanceIfExhausted at the last node, and at another one.
pub advance-Advanced :
    (h : Heap) (c : Cursor) (post : List ℕ)
    → IsOn h c post
    → Advanced h c post (advance_if_exhausted h c)
unfolding advance_if_exhausted at_end
advance-Advanced h c [] on =
    let last : ((h.nodes c.current).next == c.head) ≡ true = ground (arith, on.links) in
    let stays : advance_if_exhausted h c ≡ c = ground arith in
    subst (Advanced h c []) (sym stays) ([], on, refl, omega arith, λ e. inl (ground arith))
advance-Advanced h c (v ∷ vs) on = elim (Bool-cases (c.offset == (h.nodes c.current).length)) [
  | inl full ↦
      let at : c.offset ≡ (h.nodes c.current).length = ground arith in
      let next : Cursor = record c { current = v; offset = 0 } in
      let goes : advance_if_exhausted h c ≡ next = ground (arith, on.links, on.apart) in
      let on' : IsOn h next vs = record {
        links = on.links.2;
        apart = ground (arith, on.apart);
        live = on.live.1;
        within = omega arith;
      } in
      let same : remaining h c (v ∷ vs) ≡ remaining h next vs =
        rw (rest_of-end h c.current c.offset at, rest_of-start h v) refl in
      subst (Advanced h c (v ∷ vs)) (sym goes) (vs, on', same, omega arith, λ e. inr (omega arith))
  | inr inside ↦
      let stays : advance_if_exhausted h c ≡ c = ground arith in
      subst (Advanced h c (v ∷ vs)) (sym stays) (v ∷ vs, on, refl, omega arith, λ e. ground arith)
]
