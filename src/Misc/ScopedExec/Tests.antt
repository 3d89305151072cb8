-- ===== src/Misc/ScopedExec/Tests.antt =====
-- The theorems on the executors, with an object that gets the functor 7 and then the functor 8.
use yacul.Common.{
  false, ◌≤◌, List, if◌then◌else◌, refl, [], ◌+◌, ◌∷◌, ◌≡◌, true, ◌==◌, none, some, tally,
}
use yacul.Misc.ScopedExec.{
  nothing, Reach, System, took, reset_with, new_exec, ScopedExec, here, next, constructs,
  resets_with, invokes, releases, release, extract_if_armed, gave,
}
use yacul.Misc.ScopedExec.Races
use yacul.Misc.ScopedExec.Races.{all_runs_once, starts_with_release, all_runs}
use yacul.Misc.ScopedExec.Once.{run_at_most_once, held}

-- The object is armed with 7 and reset to 8; the thread that reset it has not run 7 yet.
abbrev reset_once : (s : System) × Reach (λ l. l ≡ none) s
unfolding new_exec reset_with took
reset_once = (
  _,
  next (next here (constructs nothing (some 7)))
      (resets_with (some 8) _ [] [] (record { fn = some 7; armed = true }) refl),
)

-- The object is invoked, a move leaves the functor in it, and release() gives it back although it is run.
abbrev run_and_returned : (s : System) × Reach (λ l. Unit) s
unfolding new_exec extract_if_armed took gave release
run_and_returned = (
  _,
  next
      (next (next here (constructs nothing (some 7)))
        (invokes (some 7) tt _ [] [] (record { fn = some 7; armed = true }) refl))
      (releases none tt _ [] [] (record { fn = some 7; armed = false }) refl),
)

run_at_most_once_example :
    (tally (λ f. f == 7) (held run_and_returned.0.objects)
        + tally (λ f. f == 7) run_and_returned.0.taken
        + tally (λ f. f == 7) run_and_returned.0.ran
      ≤ tally (λ f. f == 7) run_and_returned.0.registered)
    × (tally (λ f. f == 7) run_and_returned.0.registered
        ≤ tally (λ f. f == 7) (held run_and_returned.0.objects)
          + tally (λ f. f == 7) run_and_returned.0.taken
          + tally (λ f. f == 7) run_and_returned.0.ran
          + tally (λ f. f == 7) run_and_returned.0.returned)
run_at_most_once_example = run_at_most_once (λ f. f == 7) run_and_returned.1

abbrev race : List Races.Call
race = Races.invokes ∷ Races.releases ∷ Races.resets ∷ []

abbrev armed_seven : ScopedExec
armed_seven = record { fn = some 7; armed = true }

all_runs_once_example :
    all_runs none race armed_seven ≡ (if starts_with_release race then [] else 7 ∷ [])
all_runs_once_example = all_runs_once none race armed_seven 7 refl refl
