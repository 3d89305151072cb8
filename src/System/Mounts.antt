-- ===== src/System/Mounts.antt =====
-- FetchDiskInfo of yacul/system/system_info.cc. The content of /proc/mounts and the answers of statvfs are
-- arguments.
pub mod Points
use mathlib.Core.Option
use yacul.Common.{
  ◌-◌, ◌&&◌, ltb, not, ◌||◌, if◌then◌else◌, none, some, ◌∷◌, sub64, false, [], Option, ◌^◌, ◌%◌,
  Bool, ◌*◌, List, ℕ,
}
use yacul.System.Streams.{newline, lines, open_stream, bytes_eq, read_word, Bytes}

pub record DiskPartition : Type 0 where
  pub device : Bytes
  pub mount_point : Bytes
  pub fs_type : Bytes
  pub opts : Bytes
  pub total : ℕ
  pub used : ℕ
  pub free : ℕ
  pub inodes_total : ℕ
  pub inodes_used : ℕ
  pub inodes_free : ℕ

pub record Statvfs : Type 0 where
  pub f_blocks : ℕ
  pub f_bfree : ℕ
  pub f_bavail : ℕ
  pub f_frsize : ℕ
  pub f_files : ℕ
  pub f_ffree : ℕ
  pub f_favail : ℕ

-- The four words of a line; the others are 0.
unfoldable pub parse_mount : Bytes → DiskPartition
parse_mount line =
    let (i, device) = read_word [] (open_stream line) in
    let (j, mount_point) = read_word [] i in
    let (k, fs_type) = read_word [] j in
    let (l, opts) = read_word [] k in
    record {
      device = device;
      mount_point = mount_point;
      fs_type = fs_type;
      opts = opts;
      total = 0;
      used = 0;
      free = 0;
      inodes_total = 0;
      inodes_used = 0;
      inodes_free = 0;
    }

unfoldable pub with_sizes : DiskPartition → Statvfs → DiskPartition
with_sizes p sv = record p {
  total = sv.f_blocks * sv.f_frsize % 2 ^ 64;
  free = sv.f_bavail * sv.f_frsize % 2 ^ 64;
  used = sub64 sv.f_blocks sv.f_bfree * sv.f_frsize % 2 ^ 64;
  inodes_total = sv.f_files;
  inodes_free = sv.f_favail;
  inodes_used = if ltb sv.f_ffree sv.f_files then sv.f_files - sv.f_ffree else 0;
}

-- set::count
abbrev pub member : List Bytes → Bytes → Bool
member [] b = false
member (a ∷ as_) b = bytes_eq a b || member as_ b

module _ (ignored : List Bytes) (include : Bool) (statvfs : Bytes → Option Statvfs) where
  -- The three tests before statvfs; the last one inserts the mount point if it is new.
  unfoldable pub skips : List Bytes → DiskPartition → Bool
  skips seen p =
      bytes_eq p.mount_point []
      || ((not include && member ignored p.fs_type) || member seen p.mount_point)

  abbrev pub push : Option DiskPartition → List DiskPartition → List DiskPartition
  push none ps = ps
  push (some p) ps = p ∷ ps

  -- The partition of a line that passes the tests, if statvfs answers.
  unfoldable pub found : DiskPartition → Option DiskPartition
  found p = Option.map (λ (sv : Statvfs). with_sizes p sv) (statvfs p.mount_point)

  -- The loop, with the mount points that it has seen.
  unfoldable pub collect_mounts : List Bytes → List Bytes → List DiskPartition
  collect_mounts seen [] = []
  collect_mounts seen (l ∷ ls) =
      let p = parse_mount l in
      let skip = skips seen p in
      push (if skip then none else found p)
        (collect_mounts (if skip then seen else p.mount_point ∷ seen) ls)

  unfoldable pub fetch_disk_info : Option Bytes → List DiskPartition
  fetch_disk_info none = []
  fetch_disk_info (some file) = collect_mounts [] (lines newline file)
