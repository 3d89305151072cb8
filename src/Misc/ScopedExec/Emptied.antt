-- ===== src/Misc/ScopedExec/Emptied.antt =====
-- The same threads where a std::function is empty after a move from it.
use yacul.Common.{All, none, false, Option, ◌+◌, ◌≡◌, tally, Bool, List, ℕ}
use yacul.Misc.ScopedExec.Once.{kept}
use yacul.Misc.ScopedExec.{System, ScopedExec}

-- A disarmed object holds no functor.
abbrev IsEmptied : ScopedExec → Type 0
IsEmptied e = e.armed ≡ false → e.fn ≡ none

abbrev AllEmptied : List ScopedExec → Type 0
AllEmptied es = All IsEmptied es

module _ (Left : Option ℕ → Type 0) (empties : (l : Option ℕ) → Left l → l ≡ none) where
  module _ (f : ℕ → Bool) where
    abbrev Inv : System → Type 0
    Inv s = tally f s.registered ≡ kept f s + tally f s.returned
