-- ===== src/System/Processes/Top.antt =====
-- The queries that sort: std::sort is an argument, with what the standard says of it.
use yacul.Common.{
  length-perm, ◌∙◌, sym, refl, inr, zero, ap, inl, [], ltb, arith, suc, ◌∷◌, Perm, false, drop,
  ◌++◌, ◌≤◌, Bool-cases, min, take, ◌==◌, Bool, ◌≡◌, length, All, List, if◌then◌else◌, ℕ,
}
use yacul.System.Processes.{ProcessInfo, top_processes}

-- No element is to stand before one that stands in front of it.
abbrev pub IsOrdered : (ProcessInfo → ProcessInfo → Bool) → List ProcessInfo → Type 0
IsOrdered less [] = Unit
IsOrdered less (p ∷ ps) = All (λ q. less q p ≡ false) ps × IsOrdered less ps

pub record IsSort (less : ProcessInfo → ProcessInfo → Bool)
    (sort : List ProcessInfo → List ProcessInfo) : Type 0 where
  pub same : (ps : List ProcessInfo) → Perm (sort ps) ps
  pub ordered : (ps : List ProcessInfo) → IsOrdered less (sort ps)

-- The first `k`, and the others.
take-append-drop : (k : ℕ) (ps : List ProcessInfo) → take k ps ++ drop k ps ≡ ps
take-append-drop zero ps = refl
take-append-drop (suc k) [] = refl
take-append-drop (suc k) (p ∷ ps) = ap (λ (qs : List ProcessInfo). p ∷ qs) (take-append-drop k ps)

All-drop : (P : ProcessInfo → Type 0) (k : ℕ) (ps : List ProcessInfo) → All P ps → All P (drop k ps)
All-drop P zero ps h = h
All-drop P (suc k) [] h = tt
All-drop P (suc k) (p ∷ ps) h = All-drop P k ps h.1

length-take : (k : ℕ) (ps : List ProcessInfo) → length (take k ps) ≡ min k (length ps)
length-take zero ps = omega arith
length-take (suc k) [] = omega arith
length-take (suc k) (p ∷ ps) = omega (arith, length-take k ps)

-- None of the second list stands before one of the first.
abbrev pub Before :
    (ProcessInfo → ProcessInfo → Bool) → List ProcessInfo → List ProcessInfo → Type 0
Before less ps qs = All (λ p. All (λ q. less q p ≡ false) qs) ps

take-Before-drop :
    (less : ProcessInfo → ProcessInfo → Bool) (k : ℕ) (ps : List ProcessInfo)
    → IsOrdered less ps
    → Before less (take k ps) (drop k ps)
take-Before-drop less zero ps h = tt
take-Before-drop less (suc k) [] h = tt
take-Before-drop less (suc k) (p ∷ ps) h =
    (All-drop (λ q. less q p ≡ false) k ps h.0, take-Before-drop less k ps h.1)

abbrev pub bound : ℕ → ℕ → ℕ
bound limit n = if n == 0 then limit else n

take_all : (k : ℕ) (ps : List ProcessInfo) → length ps ≤ k → take k ps ≡ ps
take_all zero [] h = refl
take_all zero (p ∷ ps) h = absurd (omega arith)
take_all (suc k) [] h = refl
take_all (suc k) (p ∷ ps) h =
    ap (λ (qs : List ProcessInfo). p ∷ qs) (take_all k ps (omega (arith, h)))

top_processes-take :
    (sort : List ProcessInfo → List ProcessInfo) (limit n : ℕ) (ps : List ProcessInfo)
    → top_processes sort limit n ps ≡ take (bound limit n) (sort ps)
unfolding top_processes
top_processes-take sort limit n ps = elim (Bool-cases (ltb (bound limit n) (length (sort ps)))) [
  | inl longer ↦ rw longer refl
  | inr fits ↦ rw fits (sym (take_all (bound limit n) (sort ps) (ground arith)))
]

-- GetTopProcesses with a std::sort that orders by `less`: what it returns and the processes that it leaves
-- out are together the given ones, none of those left out is to stand before one that is returned, and
-- it returns as many as asked for, or as the option says where that is 0, or all if there are fewer.
pub top_processes-Before :
    (less : ProcessInfo → ProcessInfo → Bool) (sort : List ProcessInfo → List ProcessInfo)
    → IsSort less sort
    → (limit n : ℕ) (ps : List ProcessInfo)
    → (others : List ProcessInfo) × Perm (top_processes sort limit n ps ++ others) ps
      × Before less (top_processes sort limit n ps) others
      × (length (top_processes sort limit n ps) ≡ min (bound limit n) (length ps))
top_processes-Before less sort s limit n ps =
    let k = bound limit n in
    (
      drop k (sort ps),
      rw (top_processes-take sort limit n ps, take-append-drop k (sort ps)) (s.same ps),
      rw (top_processes-take sort limit n ps) (take-Before-drop less k (sort ps) (s.ordered ps)),
      rw (top_processes-take sort limit n ps)
          (length-take k (sort ps) ∙ ap (min k) (length-perm (s.same ps))),
    )
