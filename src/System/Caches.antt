-- ===== src/System/Caches.antt =====
-- CacheEntry of yacul/system/system_info.h, the pattern of the queries GetOsInfo, GetCpuInfo, GetMemoryInfo
-- and the others, and InvalidateCache of yacul/system/system_info.cc. The steady clock is an argument:
-- `now` is read by IsStale, and `done` by Set, behind the fetch.
pub mod Memory
pub mod Domains
use yacul.Common.{◌-◌, ltb, ◌==◌, ◌||◌, not, true, false, Bool, if◌then◌else◌, ℕ}
use yacul.System.Streams.{bytes_eq, codes, Bytes}

pub record CacheEntry (T : Type 0) : Type 0 where
  pub value : T
  pub fetched_at : ℕ
  pub valid : Bool

module _ {T : Type 0} where
  unfoldable pub is_stale : ℕ → ℕ → CacheEntry T → Bool
  is_stale ttl now c = if not c.valid || ttl == 0 then true else ltb ttl (now - c.fetched_at)

  unfoldable pub set_value : ℕ → T → CacheEntry T
  set_value done v = record { value = v; fetched_at = done; valid = true }

  unfoldable pub invalidate : CacheEntry T → CacheEntry T
  invalidate c = record c { valid = false }

  -- A query: the cache afterwards and the answer, where a fetch at this moment gives `v`.
  unfoldable pub get : ℕ → ℕ → ℕ → T → CacheEntry T → CacheEntry T × T
  get ttl now done v c =
      if not (is_stale ttl now c)
      then (c, c.value)
      else (set_value done v, (set_value done v).value)

  -- GetCpuUsage: whether the cache is fresh does not matter, and `changed` is what it makes of the value.
  unfoldable pub get_changed : ℕ → T → (T → T) → CacheEntry T → CacheEntry T × T
  get_changed done v changed c =
      let info = changed (if c.valid then c.value else v) in (set_value done info, info)

-- The caches of the object.
pub data Domain : Type 0 where
  os cpu memory disk disk_io network thermal gpu processes load docker : Domain

abbrev pub domain_name : Domain → Bytes
domain_name os = codes "os"
domain_name cpu = codes "cpu"
domain_name memory = codes "memory"
domain_name disk = codes "disk"
domain_name disk_io = codes "disk_io"
domain_name network = codes "network"
domain_name thermal = codes "thermal"
domain_name gpu = codes "gpu"
domain_name processes = codes "processes"
domain_name load = codes "load"
domain_name docker = codes "docker"

abbrev pub Caches : (Domain → Type 0) → Type 0
Caches T = (d : Domain) → CacheEntry (T d)

abbrev pub same : Domain → Domain → Bool
same d e = bytes_eq (domain_name d) (domain_name e)

module _ (T : Domain → Type 0) where
  -- An assignment to the flag of one of the caches.
  unfoldable pub invalidate_at : Domain → Caches T → Caches T
  invalidate_at d cs e = if same d e then invalidate (cs e) else cs e

  -- InvalidateCache(domain)
  unfoldable pub invalidate_cache : Bytes → Caches T → Caches T
  invalidate_cache name cs =
      if bytes_eq name (codes "os")
      then invalidate_at os cs
      else if bytes_eq name (codes "cpu")
      then invalidate_at cpu cs
      else if bytes_eq name (codes "memory")
      then invalidate_at memory cs
      else if bytes_eq name (codes "disk")
      then invalidate_at disk cs
      else if bytes_eq name (codes "disk_io")
      then invalidate_at disk_io cs
      else if bytes_eq name (codes "network")
      then invalidate_at network cs
      else if bytes_eq name (codes "thermal")
      then invalidate_at thermal cs
      else if bytes_eq name (codes "gpu")
      then invalidate_at gpu cs
      else if bytes_eq name (codes "processes")
      then invalidate_at processes cs
      else if bytes_eq name (codes "load")
      then invalidate_at load cs
      else if bytes_eq name (codes "docker")
      then invalidate_at docker cs
      else cs

  -- InvalidateCache()
  unfoldable pub invalidate_all : Caches T → Caches T
  invalidate_all cs =
      let a = invalidate_cache (codes "cpu") (invalidate_cache (codes "os") cs) in
      let b = invalidate_cache (codes "disk") (invalidate_cache (codes "memory") a) in
      let c = invalidate_cache (codes "network") (invalidate_cache (codes "disk_io") b) in
      let d = invalidate_cache (codes "gpu") (invalidate_cache (codes "thermal") c) in
      let e = invalidate_cache (codes "load") (invalidate_cache (codes "processes") d) in
      invalidate_cache (codes "docker") e
