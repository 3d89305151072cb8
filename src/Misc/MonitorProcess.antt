-- ===== src/Misc/MonitorProcess.antt =====
-- Models yacul/misc/monitor_process.h and monitor_process.cc: the monitor thread that restarts a child
-- process, and the calls of its users, one step for each stretch between two accesses that others can see.
-- The system decides whether a fork succeeds, when the child ends and how long it ran. Not modelled:
-- signals that are sent, what the child does, and the length of the pauses. An int is its 32 bits, as a
-- number below 2 ^ 32, and its counters wrap around as those of std::atomic<int> do.
pub mod Children
pub mod Waiting
mod Tests
use yacul.Common.{
  ◌^◌, ◌%◌, not, leb, ◌&&◌, ◌⊎◌, ◌+◌, ◌≡◌, some, none, Option, ◌==◌, ltb, true, false,
  if◌then◌else◌, Bool, ℕ,
}

-- `++` of a std::atomic<int>, and the order of ints: `biased` takes the least int to 0.
abbrev pub count_up : ℕ → ℕ
count_up n = (n + 1) % 2 ^ 32

abbrev pub biased : ℕ → ℕ
biased n = (n + 2 ^ 31) % 2 ^ 32

abbrev pub less_int : ℕ → ℕ → Bool
less_int a b = ltb (biased a) (biased b)

-- The fields of Config that the loop decides by: the size of argv, max_restarts, whether the policy is
-- kStopMonitoring, and stable_run_threshold, where one below 0 counts as 0.
pub record Config : Type 0 where
  pub argc : ℕ
  pub max_restarts : ℕ
  pub stops : Bool
  pub stable_run_threshold : ℕ

pub data Status : Type 0 where
  idle running stopping stopped : Status

-- Where the monitor thread stands: there is none, it is at the test of its loop, has spawned a child, watches
-- it, has reaped it, has cleared child_pid_, sleeps before the next round, or has left the loop.
pub data Phase : Type 0 where
  absent testing settling sleeping ending : Phase
  spawned watching reaped : ℕ → Phase

-- The static members, the thread, the child that is not reaped, and how often a child was spawned since
-- Start.
pub record Monitor : Type 0 where
  pub config : Config
  pub state : Status
  pub child_pid : ℕ
  pub restart_count : ℕ
  pub consecutive : ℕ
  pub thread_valid : Bool
  pub stop_requested : Bool
  pub phase : Phase
  pub alive : Option ℕ
  pub spawns : ℕ

abbrev pub is_active : Status → Bool
is_active running = true
is_active stopping = true
is_active s = false

-- Start; `created` is whether pthread_create succeeds.
unfoldable pub start : Bool → Config → Monitor → Monitor × Bool
start created cfg m =
    if cfg.argc == 0
    then (m, false)
    else if is_active m.state
    then (m, false)
    else let t : Monitor = record m {
      config = cfg;
      stop_requested = false;
      restart_count = 0;
      consecutive = 0;
      child_pid = 0;
      spawns = 0;
    } in
      if created
      then (record t { state = running; thread_valid = true; phase = testing }, true)
      else (record t { state = idle }, false)

-- RequestStop: its test, and its stores.
unfoldable pub already_stopping : Monitor → Bool
already_stopping m = elim m.state [ running ↦ false | s ↦ true ]

unfoldable pub request_stop : Monitor → Monitor
request_stop m = record m { stop_requested = true; state = stopping }

-- WaitForStop behind its join: the flag, if there was a thread, and the state.
unfoldable pub wait_joined : Monitor → Monitor
wait_joined m = record m { thread_valid = false }

unfoldable pub wait_end : Monitor → Monitor
wait_end m = record m { state = idle }

-- consecutive_restart_count_ before it is counted up, where the child ran for `duration` seconds.
unfoldable pub count_before : ℕ → Monitor → ℕ
count_before duration m =
    let threshold = m.config.stable_run_threshold in
    if ltb 0 threshold && leb threshold duration then 0 else m.consecutive

-- The policy on restarts, with the consecutive ones counted up to `count`.
unfoldable pub restarted : ℕ → Monitor → Monitor
restarted count m =
    let n = count_up m.restart_count in
    if less_int 0 m.config.max_restarts && less_int m.config.max_restarts count
    then (if m.config.stops
        then record m { restart_count = n; consecutive = count; phase = ending }
        else record m { restart_count = n; consecutive = 0; phase = sleeping })
    else record m { restart_count = n; consecutive = count; phase = sleeping }

-- MonitorLoop behind the exit of the child.
unfoldable pub settle : ℕ → Monitor → Monitor
settle duration m =
    if m.stop_requested
    then record m { phase = ending }
    else restarted (count_up (count_before duration m)) m

-- What the system does at a step of the thread: a fork with the id of the child, or one that fails; the
-- child is reaped, or lives on; how long it ran; and nothing.
pub data Event : Type 0 where
  forks : ℕ → Event
  fork_fails exits lives nothing : Event
  ran : ℕ → Event

-- A step of MonitorLoop. The pid of a child is not 0.
unfoldable pub advance_at : Phase → Event → Monitor → Monitor
unfolding settle
advance_at testing (forks pid) m =
    if m.stop_requested
    then record m { phase = ending }
    else record m { phase = spawned pid; alive = some pid; spawns = m.spawns + 1 }
advance_at testing e m = if m.stop_requested then record m { phase = ending } else m
advance_at (spawned pid) e m = record m { phase = watching pid; child_pid = pid }
advance_at (watching pid) exits m = record m { phase = reaped pid; alive = none }
advance_at (watching pid) e m = m
advance_at (reaped pid) e m = record m { phase = settling; child_pid = 0 }
advance_at settling (ran duration) m = settle duration m
advance_at settling e m = m
advance_at sleeping e m = record m { phase = testing }
advance_at ending e m = record m { phase = absent; child_pid = 0; state = stopped }
advance_at absent e m = m

unfoldable pub advance : Event → Monitor → Monitor
advance e m = advance_at m.phase e m

-- One user, who calls Start, RequestStop and WaitForStop one behind the other, and the thread. The stores of
-- RequestStop may come behind the end of the thread; the join waits for that end.
pub data Step : Monitor → Monitor → Type 0 where
  starts : (created : Bool) (cfg : Config) (m : Monitor) → Step m (start created cfg m).0
  requests : (m : Monitor) → Step m (request_stop m)
  waits :
      (m : Monitor)
      → (m.thread_valid ≡ false) ⊎ (m.phase ≡ absent)
      → Step m (wait_end (wait_joined m))
  goes_on : (e : Event) (m : Monitor) → Step m (advance e m)

abbrev pub unused : Config → Monitor
unused cfg = record {
  config = cfg;
  state = idle;
  child_pid = 0;
  restart_count = 0;
  consecutive = 0;
  thread_valid = false;
  stop_requested = false;
  phase = absent;
  alive = none;
  spawns = 0;
}

pub data Reach : Monitor → Type 0 where
  here : (cfg : Config) → Reach (unused cfg)
  next : {m t : Monitor} → Reach m → Step m t → Reach t
