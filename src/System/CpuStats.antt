-- ===== src/System/CpuStats.antt =====
-- SystemInfo::CpuCoreStats of yacul/system/system_info.h, ParseProcStat and the use of two snapshots in
-- GetCpuUsage and FetchCpuInfo of yacul/system/system_info.cc. The content of /proc/stat is an argument.
-- There are no doubles: a percentage 100.0 * b / t is the pair of b and t, and 0.0 is none.
pub mod Usage
pub mod Snapshots
use mathlib.Core.Option
use yacul.Common.{
  drop, ◌==◌, ◌-◌, ltb, ◌^◌, if◌then◌else◌, some, get_or, ◌∷◌, [], none, ◌%◌, List, ◌+◌, Option, ℕ,
}
use yacul.System.Streams.{
  stoi, negsuc, read_counters, newline, codes, bytes_eq, starts_with, lines, open_stream, read_word,
  ℤ, Bytes,
}

pub record CpuCoreStats : Type 0 where
  pub core_id : ℤ
  pub user : ℕ
  pub nice : ℕ
  pub system_ticks : ℕ
  pub idle : ℕ
  pub iowait : ℕ
  pub irq : ℕ
  pub softirq : ℕ
  pub steal : ℕ
  pub guest : ℕ
  pub guest_nice : ℕ

unfoldable pub total : CpuCoreStats → ℕ
total c =
    (c.user + c.nice + c.system_ticks + c.idle + c.iowait + c.irq + c.softirq + c.steal + c.guest
      + c.guest_nice)
    % 2 ^ 64

unfoldable pub busy : CpuCoreStats → ℕ
busy c = (c.user + c.nice + c.system_ticks + c.irq + c.softirq + c.steal) % 2 ^ 64

-- UsagePercent of a snapshot after `prev`.
unfoldable pub usage_percent : CpuCoreStats → CpuCoreStats → Option (ℕ × ℕ)
usage_percent c prev =
    if ltb (total c) (total prev)
    then none
    else let delta_total = total c - total prev in
      if delta_total == 0
      then none
      else if ltb (busy c) (busy prev)
      then none
      else some (busy c - busy prev, delta_total)

-- core_id of a label; none where stoi throws.
unfoldable pub core_of : Bytes → Option ℤ
core_of label = if bytes_eq label (codes "cpu") then some (negsuc 0) else stoi (drop 3 label)

abbrev pub ten_zeros : List ℕ
ten_zeros = 0 ∷ 0 ∷ 0 ∷ 0 ∷ 0 ∷ 0 ∷ 0 ∷ 0 ∷ 0 ∷ 0 ∷ []

-- The chain of extractions stores into the ten counters.
abbrev pub stats_of : ℤ → List ℕ → CpuCoreStats
stats_of id ns =
    let get = λ (i : ℕ). get_or 0 ns i in
    record {
      core_id = id;
      user = get 0;
      nice = get 1;
      system_ticks = get 2;
      idle = get 3;
      iowait = get 4;
      irq = get 5;
      softirq = get 6;
      steal = get 7;
      guest = get 8;
      guest_nice = get 9;
    }

-- A line that begins with "cpu"; none where the loop goes on.
unfoldable pub parse_cpu_line : Bytes → Option CpuCoreStats
parse_cpu_line line =
    let (i, label) = read_word [] (open_stream line) in
    Option.map (λ (id : ℤ). stats_of id (read_counters ten_zeros i)) (core_of label)

abbrev pub push : Option CpuCoreStats → List CpuCoreStats → List CpuCoreStats
push none cs = cs
push (some c) cs = c ∷ cs

-- The loop over the lines, which ends at the first one that does not begin with "cpu".
unfoldable pub parse_cpu_lines : List Bytes → List CpuCoreStats
parse_cpu_lines [] = []
parse_cpu_lines (l ∷ ls) =
    if starts_with (codes "cpu") l then push (parse_cpu_line l) (parse_cpu_lines ls) else []

unfoldable pub parse_proc_stat : Option Bytes → List CpuCoreStats
parse_proc_stat none = []
parse_proc_stat (some file) = parse_cpu_lines (lines newline file)

-- per_core_usage_percent: the snapshots behind the first one, as far as both go.
unfoldable pub core_usage : List CpuCoreStats → List CpuCoreStats → List (Option (ℕ × ℕ))
core_usage [] before = []
core_usage (c ∷ after) [] = []
core_usage (c ∷ after) (p ∷ before) = usage_percent c p ∷ core_usage after before

-- usage_percent and per_core_usage_percent of two snapshots; none where they are left as they are.
unfoldable pub usages :
    List CpuCoreStats → List CpuCoreStats → Option (Option (ℕ × ℕ) × List (Option (ℕ × ℕ)))
usages [] before = none
usages (c ∷ after) [] = none
usages (c ∷ after) (p ∷ before) = some (usage_percent c p, core_usage after before)
