-- ===== src/System/Refresh.antt =====
-- StartBackgroundRefresh, StopBackgroundRefresh and the test of RefreshLoop of
-- yacul/system/system_info.cc: the flag refresh_running and the thread object refresh_thread, one step
-- for each access. The code that a refresh runs is in Caches.
pub mod Threads
use yacul.Common.{none, some, true, not, false, Option, if◌then◌else◌, Bool, ℕ}

-- The flag, whether refresh_thread is joinable, whether its loop still runs, and whether std::terminate
-- was called.
pub record Refresh : Type 0 where
  pub running : Bool
  pub joinable : Bool
  pub looping : Bool
  pub terminated : Bool

abbrev pub no_refresh : Refresh
no_refresh = record { running = false; joinable = false; looping = false; terminated = false }

-- compare_exchange_strong(false, true): the object, and whether the caller goes on.
unfoldable pub start_begin : Refresh → Refresh × Bool
start_begin r = if r.running then (r, false) else (record r { running = true }, true)

-- refresh_thread = thread(...): an assignment to a joinable thread terminates the process.
unfoldable pub start_end : Refresh → Refresh
start_end r =
    if r.joinable
    then record r { terminated = true }
    else record r { joinable = true; looping = true }

-- refresh_running.store(false)
unfoldable pub stop_begin : Refresh → Refresh
stop_begin r = record r { running = false }

-- A test of the flag in RefreshLoop.
unfoldable pub loop_test : Refresh → Refresh
loop_test r = if r.running then r else record r { looping = false }

-- join() returns when the loop has ended; none where the caller still waits.
unfoldable pub stop_end : Refresh → Option Refresh
stop_end r =
    if not r.joinable
    then some r
    else if r.looping
    then none
    else some (record r { joinable = false })

-- A whole call with no other caller in between.
unfoldable pub start : Refresh → Refresh
start r = let (t, goes_on) = start_begin r in if goes_on then start_end t else t

unfoldable pub stop : Refresh → Option Refresh
stop r = stop_end (loop_test (stop_begin r))
