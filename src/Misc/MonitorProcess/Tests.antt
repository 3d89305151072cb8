-- ===== src/Misc/MonitorProcess/Tests.antt =====
-- The theorems on the monitor, with a child that runs for a second.
use yacul.Common.{◌⊎◌, refl, false, ◌+◌, ◌≤◌, true, ◌≡◌}
use yacul.Misc.MonitorProcess.Waiting.{overtaken, start_in_wait_unstoppable}
use yacul.Misc.MonitorProcess.{
  biased, less_int, already_stopping, Reach, advance_at, advance, unused, Monitor, start, Config,
  here, next, starts, goes_on, forks, nothing, stopped, testing,
}
use yacul.Misc.MonitorProcess.Children.{child_accounted, living, IsCounting}

abbrev once : Config
once = record { argc = 1; max_restarts = 1; stops = true; stable_run_threshold = 5 }

-- The child 42 is watched.
abbrev one_child : (m : Monitor) × Reach m
unfolding start advance advance_at
one_child = (
  _,
  next (next (next (here once) (starts true once (unused once))) (goes_on (forks 42) _))
      (goes_on nothing _),
)

child_accounted_example :
    (one_child.0.alive ≡ living one_child.0.phase)
    × IsCounting one_child.0.restart_count one_child.0.spawns 0 1
    × ((less_int 0 one_child.0.config.max_restarts ≡ false)
        ⊎ (biased one_child.0.consecutive ≤ biased one_child.0.config.max_restarts + 1))
child_accounted_example = child_accounted one_child.1

abbrev ended : Monitor
ended = record (unused once) { state = stopped; thread_valid = true }

start_in_wait_unstoppable_example :
    ((start true once ended).1 ≡ true)
    × ((overtaken once ended).phase ≡ testing)
    × (already_stopping (overtaken once ended) ≡ true)
    × ((overtaken once ended).thread_valid ≡ false)
    × ((start true once (overtaken once ended)).1 ≡ true)
start_in_wait_unstoppable_example = start_in_wait_unstoppable once once ended refl refl refl
