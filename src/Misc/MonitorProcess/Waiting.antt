-- ===== src/Misc/MonitorProcess/Waiting.antt =====
-- A start of one user in between the join of another's WaitForStop and its last two stores.
use yacul.Common.{refl, ap, false, ◌==◌, true, ◌≡◌}
use yacul.Misc.MonitorProcess.{
  is_active, testing, stopped, wait_joined, wait_end, Monitor, already_stopping, start, Config,
}

-- The monitor after the Start that came in between.
abbrev pub overtaken : Config → Monitor → Monitor
overtaken cfg m = wait_end (wait_joined (start true cfg m).0)

-- A thread has ended and WaitForStop has joined it; then another user calls Start, which returns true, and
-- only then does WaitForStop clear the flag of the thread and the state. The new monitor thread then
-- runs, RequestStop does nothing, WaitForStop waits for nothing, and another Start is let in.
pub start_in_wait_unstoppable :
    (cfg other : Config) (m : Monitor)
    → m.state ≡ stopped
    → (cfg.argc == 0) ≡ false
    → (other.argc == 0) ≡ false
    → ((start true cfg m).1 ≡ true)
      × ((overtaken cfg m).phase ≡ testing)
      × (already_stopping (overtaken cfg m) ≡ true)
      × ((overtaken cfg m).thread_valid ≡ false)
      × ((start true other (overtaken cfg m)).1 ≡ true)
unfolding start already_stopping wait_end wait_joined
start_in_wait_unstoppable cfg other m at some_args more_args =
    let calm : is_active m.state ≡ false = ap is_active at in
    rw (some_args, calm) (rw more_args (refl, refl, refl, refl, refl))
