-- ===== src/System/Caches/Memory.antt =====
-- A cache as a memory that forgets: what it last fetched and when, until that is invalidated.
use yacul.Common.{
  ◌∷◌, refl, arith, ◌∙◌, not, ap, [], sym, false, true, ◌-◌, inr, leb, inl, ◌&&◌, Bool-cases, ltb,
  ◌≡◌, some, none, if◌then◌else◌, Option, List, ℕ,
}
use yacul.System.Caches.{invalidate, is_stale, get, set_value, CacheEntry}

-- A query at `now` whose fetch, if there is one, ends at `done` with `v`; an invalidation; a refresh.
pub data Call (T : Type 0) : Type 0 where
  queries : ℕ → ℕ → T → Call T
  invalidates : Call T
  refreshes : ℕ → T → Call T

module _ {T : Type 0} (ttl : ℕ) where
  -- The calls on the cache, and the answers of the queries.
  abbrev pub answers : List (Call T) → CacheEntry T → List T
  answers [] c = []
  answers (queries now done v ∷ cs) c =
      (get ttl now done v c).1 ∷ answers cs (get ttl now done v c).0
  answers (invalidates ∷ cs) c = answers cs (invalidate c)
  answers (refreshes done v ∷ cs) c = answers cs (set_value done v)

  -- The answer from the last fetch, if that is young enough.
  abbrev pub recalled : ℕ → T → Option (ℕ × T) → T
  recalled now v none = v
  recalled now v (some (at, w)) = if ltb 0 ttl && leb (now - at) ttl then w else v

  abbrev pub kept : ℕ → ℕ → T → Option (ℕ × T) → Option (ℕ × T)
  kept now done v none = some (done, v)
  kept now done v (some (at, w)) =
      if ltb 0 ttl && leb (now - at) ttl then some (at, w) else some (done, v)

  abbrev pub recalls : List (Call T) → Option (ℕ × T) → List T
  recalls [] m = []
  recalls (queries now done v ∷ cs) m = recalled now v m ∷ recalls cs (kept now done v m)
  recalls (invalidates ∷ cs) m = recalls cs none
  recalls (refreshes done v ∷ cs) m = recalls cs (some (done, v))

  -- The memory of a cache.
  abbrev pub memory_of : CacheEntry T → Option (ℕ × T)
  memory_of c = if c.valid then some (c.fetched_at, c.value) else none

  -- A valid entry is fresh where it is young enough.
  is_stale_valid :
      (now : ℕ) (c : CacheEntry T)
      → c.valid ≡ true
      → is_stale ttl now c ≡ not (ltb 0 ttl && leb (now - c.fetched_at) ttl)
  unfolding is_stale
  is_stale_valid now c on = ground arith

  is_stale_invalid : (now : ℕ) (c : CacheEntry T) → c.valid ≡ false → is_stale ttl now c ≡ true
  unfolding is_stale
  is_stale_invalid now c off = ground arith

  get-recalled :
      (now done : ℕ) (v : T) (c : CacheEntry T)
      → ((get ttl now done v c).1 ≡ recalled now v (memory_of c))
        × (memory_of (get ttl now done v c).0 ≡ kept now done v (memory_of c))
  unfolding get set_value
  get-recalled now done v c = elim (Bool-cases c.valid) [
    | inl on ↦ elim (Bool-cases (ltb 0 ttl && leb (now - c.fetched_at) ttl)) [
      | inl young ↦
          let fresh : is_stale ttl now c ≡ false = is_stale_valid now c on ∙ ap not young in
          rw (fresh, on, young) (refl, refl)
      | inr old ↦
          let stale : is_stale ttl now c ≡ true = is_stale_valid now c on ∙ ap not old in
          rw (stale, on, old) (refl, refl)
    ]
    | inr off ↦
        let stale : is_stale ttl now c ≡ true = is_stale_invalid now c off in
        rw (stale, off) (refl, refl)
  ]

  -- Queries, invalidations and refreshes in any order: the answers are those of a memory that keeps the last
  -- fetch until it is invalidated, and that is asked again where the fetch is older than the time to live, or
  -- where that is 0.
  pub answers-recalls :
      (cs : List (Call T)) (c : CacheEntry T) → answers cs c ≡ recalls cs (memory_of c)
  unfolding set_value invalidate
  answers-recalls [] c = refl
  answers-recalls (queries now done v ∷ cs) c =
      let (answer, memory) = get-recalled now done v c in
      rw (answer, sym memory)
        (ap (λ (as_ : List T). recalled now v (memory_of c) ∷ as_)
          (answers-recalls cs (get ttl now done v c).0))
  answers-recalls (invalidates ∷ cs) c = answers-recalls cs (invalidate c)
  answers-recalls (refreshes done v ∷ cs) c = answers-recalls cs (set_value done v)
