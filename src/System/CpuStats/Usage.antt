-- ===== src/System/CpuStats/Usage.antt =====
-- What UsagePercent makes of two snapshots.
use yacul.Common.{◌↔◌, some, arith, ◌≡◌, ◌^◌, ◌*◌, ◌<◌, ◌+◌, ℕ}
use yacul.System.CpuStats.{total, busy, CpuCoreStats, usage_percent}

-- The counters that are not busy time.
abbrev pub other_ticks : CpuCoreStats → ℕ
other_ticks c = c.idle + c.iowait + c.guest + c.guest_nice

abbrev pub all_ticks : CpuCoreStats → ℕ
all_ticks c = c.user + c.nice + c.system_ticks + c.irq + c.softirq + c.steal + other_ticks c

module _ (c : CpuCoreStats) (fits : all_ticks c < 2 ^ 64) where
  total-all_ticks : total c ≡ all_ticks c
  unfolding total
  total-all_ticks = omega arith

  busy-plus : busy c + other_ticks c ≡ all_ticks c
  unfolding busy
  busy-plus = omega arith

-- UsagePercent of two snapshots whose sums do not wrap exceeds 100 exactly where the counters that are not
-- busy time have fallen together; it never divides by 0.
pub usage_percent_bounds :
    (c prev : CpuCoreStats) (b t : ℕ)
    → all_ticks c < 2 ^ 64
    → all_ticks prev < 2 ^ 64
    → usage_percent c prev ≡ some (b, t)
    → (0 < t) × ((t < b) ↔ (other_ticks c < other_ticks prev))
unfolding usage_percent
usage_percent_bounds c prev b t hc hp h =
    let at = total-all_ticks c hc in
    let at' = total-all_ticks prev hp in
    let split = busy-plus c hc in
    let split' = busy-plus prev hp in (ground arith, (λ k. ground arith, λ k. ground arith))

-- A core that only runs a guest for n ticks, which the kernel counts both as user and as guest time, has a
-- usage of n in 2 * n ticks.
pub usage_percent-guest :
    (prev : CpuCoreStats) (n : ℕ)
    → 0 < n
    → all_ticks prev + 2 * n < 2 ^ 64
    → usage_percent (record prev { user = prev.user + n; guest = prev.guest + n }) prev
      ≡ some (n, 2 * n)
unfolding usage_percent
usage_percent-guest prev n h fits =
    let c : CpuCoreStats = record prev { user = prev.user + n; guest = prev.guest + n } in
    let at = total-all_ticks c (omega (arith, fits)) in
    let at' = total-all_ticks prev (omega (arith, fits)) in
    let split = busy-plus c (omega (arith, fits)) in
    let split' = busy-plus prev (omega (arith, fits)) in ground arith
