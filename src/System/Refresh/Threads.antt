-- ===== src/System/Refresh/Threads.antt =====
-- One caller at a time.
use yacul.Common.{refl, arith, some, false, true, ◌≡◌, Option, Bool}
use yacul.System.Refresh.{
  stop_end, loop_test, stop_begin, stop, start_end, start, Refresh, start_begin,
}

-- Between whole calls the flag says whether there is a thread, and the thread loops.
pub record IsSettled (r : Refresh) : Type 0 where
  pub flag : r.joinable ≡ r.running
  pub loops : r.looping ≡ r.running
  pub alive : r.terminated ≡ false

pub data Call : Type 0 where
  starts stops tests : Call

-- The state after a call, and none where it never returns.
abbrev pub call : Call → Refresh → Option Refresh
call starts r = some (start r)
call stops r = stop r
call tests r = some (loop_test r)

-- The flag behind a call.
abbrev pub flag_of : Call → Refresh → Bool
flag_of starts r = true
flag_of stops r = false
flag_of tests r = r.running

-- Calls of StartBackgroundRefresh and StopBackgroundRefresh one behind the other, with tests of the loop
-- between them: each returns, the process goes on, and the thread runs exactly if the last of the calls was a start.
pub call-IsSettled :
    (c : Call) (r : Refresh)
    → IsSettled r
    → (t : Refresh) × (call c r ≡ some t) × IsSettled t × (t.running ≡ flag_of c r)
unfolding start start_begin start_end stop stop_begin stop_end loop_test
call-IsSettled starts r v = (
  start r,
  refl,
  record {
    flag = ground (arith, v.flag, v.loops, v.alive);
    loops = ground (arith, v.flag, v.loops, v.alive);
    alive = ground (arith, v.flag, v.loops, v.alive);
  },
  ground (arith, v.flag, v.loops, v.alive),
)
call-IsSettled stops r v = (
  record r { running = false; looping = false; joinable = false },
  ground (arith, v.flag, v.loops, v.alive),
  record { flag = refl; loops = refl; alive = v.alive },
  refl,
)
call-IsSettled tests r v = (r, ground (arith, v.flag, v.loops, v.alive), v, refl)
