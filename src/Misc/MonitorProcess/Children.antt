-- ===== src/Misc/MonitorProcess/Children.antt =====
-- The child of a monitor that one user calls.
use yacul.Common.{
  ◌^◌, ◌%◌, leb, ◌&&◌, sym, ltb, if◌then◌else◌, subst, refl, arith, ap, inr, ◌⊎◌, inl, ◌∙◌, true,
  ◌==◌, Bool-cases, false, ◌≤◌, none, ◌+◌, some, Bool, Option, ◌≡◌, ℕ,
}
use yacul.Misc.MonitorProcess.{
  biased, less_int, count_up, Step, restarted, Reach, advance, count_before, wait_joined, Event,
  advance_at, wait_end, settle, is_active, Config, request_stop, Phase, Monitor, start, starts,
  requests, waits, goes_on, here, next, testing, spawned, watching, reaped, settling, sleeping,
  ending, absent, forks, fork_fails, exits, ran,
}

-- The child that is there, the pid that the members show, and the children not yet counted as restarts.
abbrev pub living : Phase → Option ℕ
living (spawned pid) = some pid
living (watching pid) = some pid
living p = none

abbrev pub shown : Phase → ℕ
shown (watching pid) = pid
shown (reaped pid) = pid
shown p = 0

abbrev owed : Phase → ℕ
owed (spawned pid) = 1
owed (watching pid) = 1
owed (reaped pid) = 1
owed settling = 1
owed p = 0

abbrev slack : Phase → ℕ
slack testing = 0
slack sleeping = 0
slack p = 1

abbrev over : Phase → ℕ
over ending = 1
over absent = 1
over p = 0

slack_le : (p : Phase) → slack p ≤ 1
slack_le testing = omega arith
slack_le p = omega arith

over_le : (p : Phase) → over p ≤ 1
over_le testing = omega arith
over_le p = omega arith

-- The counter is a number of restarts in 32 bits, which is below that of the spawned children by `least` at
-- least and by `most` at most.
abbrev pub IsCounting : ℕ → ℕ → ℕ → ℕ → Type 0
IsCounting counter total least most =
    (n : ℕ) × (counter ≡ n % 2 ^ 32) × (n + least ≤ total) × (total ≤ n + most)

-- What holds in a phase.
record At (p : Phase) (m : Monitor) : Type 0 where
  child : m.alive ≡ living p
  pid : m.child_pid ≡ shown p
  counted : IsCounting (m.restart_count) (m.spawns) (owed p) (slack p)
  bounded :
      less_int 0 m.config.max_restarts ≡ true
      → biased m.consecutive ≤ biased m.config.max_restarts + over p
  quiet : is_active m.state ≡ false → p ≡ absent
  joined : m.thread_valid ≡ false → p ≡ absent

abbrev Inv : Monitor → Type 0
Inv m = At m.phase m

-- A Start that gets past its tests meets no thread.
fresh :
    (created : Bool) (cfg : Config) (m : Monitor)
    → Inv m
    → is_active m.state ≡ false
    → (cfg.argc == 0) ≡ false
    → Inv (start created cfg m).0
unfolding start
fresh true cfg m v calm some_args =
    let gone : m.alive ≡ none = v.child ∙ ap living (v.quiet calm) in
    rw (calm, some_args)
      (record {
        child = gone;
        pid = refl;
        counted = (0, refl, omega arith, omega arith);
        bounded = λ h. ground arith;
        quiet = λ e. cc e;
        joined = λ e. cc e;
      })
fresh false cfg m v calm some_args =
    let none_left = v.quiet calm in
    rw (calm, some_args)
      (record {
        child = v.child;
        pid = rw none_left refl;
        counted = (0, refl, rw none_left (omega arith), omega arith);
        bounded = λ h. ground arith;
        quiet = λ e. none_left;
        joined = λ e. none_left;
      })

start-Inv : (created : Bool) (cfg : Config) (m : Monitor) → Inv m → Inv (start created cfg m).0
start-Inv created cfg m v = elim (Bool-cases (cfg.argc == 0)) [
  | inl bare ↦ unfold start in rw bare v
  | inr some_args ↦ elim (Bool-cases (is_active m.state)) [
    | inl active ↦ unfold start in rw (some_args, active) v
    | inr calm ↦ fresh created cfg m v calm some_args
  ]
]

request_stop-Inv : (m : Monitor) → Inv m → Inv (request_stop m)
unfolding request_stop
request_stop-Inv m v = record {
  child = v.child;
  pid = v.pid;
  counted = v.counted;
  bounded = v.bounded;
  quiet = λ e. cc e;
  joined = v.joined;
}

wait_end-Inv :
    (m : Monitor)
    → (m.thread_valid ≡ false) ⊎ (m.phase ≡ absent)
    → Inv m
    → Inv (wait_end (wait_joined m))
unfolding wait_end wait_joined
wait_end-Inv m (inl off) v = record {
  child = v.child;
  pid = v.pid;
  counted = v.counted;
  bounded = v.bounded;
  quiet = λ e. v.joined off;
  joined = λ e. v.joined off;
}
wait_end-Inv m (inr ended) v = record {
  child = v.child;
  pid = v.pid;
  counted = v.counted;
  bounded = v.bounded;
  quiet = λ e. ended;
  joined = λ e. ended;
}

-- A child counted, on each branch of the policy.
restarted-Inv :
    (count : ℕ) (m : Monitor)
    → (less_int 0 m.config.max_restarts ≡ true → biased count ≤ biased m.config.max_restarts + 1)
    → At settling m
    → Inv (restarted count m)
unfolding restarted
restarted-Inv count m fits v =
    let (n, same, low, high) = v.counted in
    let counted : IsCounting (count_up m.restart_count) m.spawns 0 0 =
      (n + 1, omega (arith, same), omega (arith, low), omega (arith, high)) in
    elim (Bool-cases (less_int 0 m.config.max_restarts && less_int m.config.max_restarts count)) [
      | inl over_max ↦ elim (Bool-cases m.config.stops) [
        | inl stops ↦ rw over_max (
            rw stops (record {
              child = v.child;
              pid = v.pid;
              counted = (n + 1, counted.1, omega (arith, low), omega (arith, high));
              bounded = λ h. fits h;
              quiet = λ e. cc (v.quiet e);
              joined = λ e. cc (v.joined e);
            }))
        | inr resets ↦ rw over_max (
            rw resets (record {
              child = v.child;
              pid = v.pid;
              counted = counted;
              bounded = λ h. ground arith;
              quiet = λ e. cc (v.quiet e);
              joined = λ e. cc (v.joined e);
            }))
      ]
      | inr below ↦ rw below (record {
        child = v.child;
        pid = v.pid;
        counted = counted;
        bounded = λ h. ground arith;
        quiet = λ e. cc (v.quiet e);
        joined = λ e. cc (v.joined e);
      })
    ]

-- One more than a count within the bound is at most one above the bound.
count_up-bounded :
    (duration : ℕ) (m : Monitor)
    → less_int 0 m.config.max_restarts ≡ true
    → biased m.consecutive ≤ biased m.config.max_restarts + 0
    → biased (count_up (count_before duration m)) ≤ biased m.config.max_restarts + 1
unfolding count_before
count_up-bounded duration m positive fits =
    let threshold = m.config.stable_run_threshold in
    elim (Bool-cases (ltb 0 threshold && leb threshold duration)) [
      | inl stable ↦ rw stable (ground arith)
      | inr short ↦ rw short (omega (arith, fits))
    ]

settle-Inv : (duration : ℕ) (m : Monitor) → At settling m → Inv (settle duration m)
unfolding settle
settle-Inv duration m v = elim (Bool-cases m.stop_requested) [
  | inl stop ↦ rw stop (record {
    child = v.child;
    pid = v.pid;
    counted = (v.counted.0, v.counted.1, omega (arith, v.counted.2), omega (arith, v.counted.2));
    bounded = λ h. omega (arith, v.bounded h);
    quiet = λ e. cc (v.quiet e);
    joined = λ e. cc (v.joined e);
  })
  | inr more ↦
      let t = restarted (count_up (count_before duration m)) m in
      subst (λ (b : Bool). Inv (if b then record m { phase = ending } else t)) (sym more)
        (restarted-Inv (count_up (count_before duration m)) m
          (λ h. count_up-bounded duration m h (v.bounded h)) v)
]

-- The test of the loop where no child is spawned.
test-Inv :
    (m : Monitor)
    → m.phase ≡ testing
    → At testing m
    → Inv (if m.stop_requested then record m { phase = ending } else m)
test-Inv m at v = elim (Bool-cases m.stop_requested) [
  | inl stop ↦ rw stop (record {
    child = v.child;
    pid = v.pid;
    counted = (v.counted.0, v.counted.1, omega (arith, v.counted.2), omega (arith, v.counted.2));
    bounded = λ h. omega (arith, v.bounded h);
    quiet = λ e. cc (v.quiet e);
    joined = λ e. cc (v.joined e);
  })
  | inr more ↦
      subst (λ (b : Bool). Inv (if b then record m { phase = ending } else m)) (sym more)
        (subst (λ (q : Phase). At q m) (sym at) v)
]

-- A step of the thread, by its phase.
advance_at-Inv :
    (p : Phase) (e : Event) (m : Monitor) → m.phase ≡ p → At p m → Inv (advance_at p e m)
unfolding advance_at
advance_at-Inv testing (forks pid) m at v = elim (Bool-cases m.stop_requested) [
  | inl stop ↦ rw stop (record {
    child = v.child;
    pid = v.pid;
    counted = (v.counted.0, v.counted.1, omega (arith, v.counted.2), omega (arith, v.counted.2));
    bounded = λ h. omega (arith, v.bounded h);
    quiet = λ e. cc (v.quiet e);
    joined = λ e. cc (v.joined e);
  })
  | inr more ↦ rw more (record {
    child = refl;
    pid = v.pid;
    counted = (v.counted.0, v.counted.1, omega (arith, v.counted.2), omega (arith, v.counted.2));
    bounded = v.bounded;
    quiet = λ e. cc (v.quiet e);
    joined = λ e. cc (v.joined e);
  })
]
advance_at-Inv testing fork_fails m at v = test-Inv m at v
advance_at-Inv testing e m at v = test-Inv m at v
advance_at-Inv (spawned pid) e m at v = record {
  child = v.child;
  pid = refl;
  counted = v.counted;
  bounded = v.bounded;
  quiet = λ e. cc (v.quiet e);
  joined = λ e. cc (v.joined e);
}
advance_at-Inv (watching pid) exits m at v = record {
  child = refl;
  pid = v.pid;
  counted = v.counted;
  bounded = v.bounded;
  quiet = λ e. cc (v.quiet e);
  joined = λ e. cc (v.joined e);
}
advance_at-Inv (watching pid) e m at v = subst (λ (q : Phase). At q m) (sym at) v
advance_at-Inv (reaped pid) e m at v = record {
  child = v.child;
  pid = refl;
  counted = v.counted;
  bounded = v.bounded;
  quiet = λ e. cc (v.quiet e);
  joined = λ e. cc (v.joined e);
}
advance_at-Inv settling (ran duration) m at v = settle-Inv duration m v
advance_at-Inv settling e m at v = subst (λ (q : Phase). At q m) (sym at) v
advance_at-Inv sleeping e m at v = record {
  child = v.child;
  pid = v.pid;
  counted = v.counted;
  bounded = v.bounded;
  quiet = λ e. cc (v.quiet e);
  joined = λ e. cc (v.joined e);
}
advance_at-Inv ending e m at v = record {
  child = v.child;
  pid = refl;
  counted = v.counted;
  bounded = v.bounded;
  quiet = λ e. refl;
  joined = λ e. refl;
}
advance_at-Inv absent e m at v = subst (λ (q : Phase). At q m) (sym at) v

Step-Inv : {m t : Monitor} → Inv m → Step m t → Inv t
unfolding advance
Step-Inv v (starts created cfg m) = start-Inv created cfg m v
Step-Inv v (requests m) = request_stop-Inv m v
Step-Inv v (waits m h) = wait_end-Inv m h v
Step-Inv v (goes_on e m) = advance_at-Inv m.phase e m refl v

Reach-Inv : {m : Monitor} → Reach m → Inv m
Reach-Inv (here cfg) = record {
  child = refl;
  pid = refl;
  counted = (0, refl, omega arith, omega arith);
  bounded = λ h. ground arith;
  quiet = λ e. refl;
  joined = λ e. refl;
}
Reach-Inv (next r st) = Step-Inv (Reach-Inv r) st

-- However one user calls Start, RequestStop and WaitForStop, and whatever the system does: there is one child
-- at most, that of the phase of the thread, so none when the thread has ended; the counter of restarts is,
-- in its 32 bits, the number of children spawned since Start, or one fewer; and with a bound on
-- consecutive restarts above 0, their counter never exceeds it, as an int, by more than one.
pub child_accounted :
    {m : Monitor}
    → Reach m
    → (m.alive ≡ living m.phase)
      × IsCounting m.restart_count m.spawns 0 1
      × ((less_int 0 m.config.max_restarts ≡ false)
          ⊎ (biased m.consecutive ≤ biased m.config.max_restarts + 1))
child_accounted {m} r =
    let v = Reach-Inv r in
    let (n, same, low, high) = v.counted in
    (
      v.child,
      (n, same, omega (arith, low), omega (arith, high, slack_le m.phase)),
      elim (Bool-cases (less_int 0 m.config.max_restarts)) [
        | inl positive ↦ inr (omega (arith, v.bounded positive, over_le m.phase))
        | inr unbounded ↦ inl unbounded
      ],
    )
