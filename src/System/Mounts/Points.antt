-- ===== src/System/Mounts/Points.antt =====
-- The partitions that FetchDiskInfo returns.
use mathlib.Core.Option
use yacul.Common.{
  subst, ap, ◌||◌, Option-cases, refl, or_false, some, none, ◌≢◌, inr, ◌&&◌, not, inl, Bool-cases,
  [], false, All, ◌≡◌, ◌∷◌, Option, Bool, List,
}
use yacul.System.Streams.{newline, lines, bytes_eq, Bytes}
use yacul.System.Mounts.{
  newline, with_sizes, parse_mount, lines, found, push, collect_mounts, skips, fetch_disk_info,
  bytes_eq, member, DiskPartition, Statvfs,
}

module _ (ignored : List Bytes) (include : Bool) (statvfs : Bytes → Option Statvfs) where
  -- A partition that is listed: statvfs answered for its mount point, and its type is wanted.
  pub record IsListed (seen : List Bytes) (p : DiskPartition) : Type 0 where
    pub unseen : member seen p.mount_point ≡ false
    pub named : bytes_eq p.mount_point [] ≡ false
    pub wanted : (not include && member ignored p.fs_type) ≡ false
    pub answered : statvfs p.mount_point ≢ none

  abbrev pub Distinct : List DiskPartition → Type 0
  Distinct [] = Unit
  Distinct (p ∷ ps) =
      All (λ (q : DiskPartition). bytes_eq p.mount_point q.mount_point ≡ false) ps × Distinct ps

  seen-cons :
      (m : Bytes) (seen : List Bytes) (q : DiskPartition)
      → IsListed (m ∷ seen) q
      → IsListed seen q × (bytes_eq m q.mount_point ≡ false)
  seen-cons m seen q v =
      let (other, unseen) =
        or_false (bytes_eq m q.mount_point) (member seen q.mount_point) v.unseen in
      (record { unseen = unseen; named = v.named; wanted = v.wanted; answered = v.answered }, other)

  -- A line that passes the tests and is answered.
  found-IsListed :
      (seen : List Bytes) (p r : DiskPartition)
      → skips ignored include statvfs seen p ≡ false
      → found ignored include statvfs p ≡ some r
      → IsListed seen r × (r.mount_point ≡ p.mount_point)
  unfolding skips with_sizes found
  found-IsListed seen p r passes h =
      let unwanted = not include && member ignored p.fs_type in
      let seen_before = member seen p.mount_point in
      let (named, more) = or_false (bytes_eq p.mount_point []) (unwanted || seen_before) passes in
      let (wanted, unseen) = or_false unwanted seen_before more in
      elim (Option-cases (statvfs p.mount_point)) [
        | inl nothing ↦
            let h' = ap (Option.map (λ (sv : Statvfs). with_sizes p sv)) nothing in cc (h', h)
        | inr (sv, answer) ↦
            let h' = ap (Option.map (λ (sv : Statvfs). with_sizes p sv)) answer in
            let e : with_sizes p sv ≡ r = cc (h', h) in
            subst (λ (t : DiskPartition). IsListed seen t × (t.mount_point ≡ p.mount_point)) e
              (
                record {
                  unseen = unseen;
                  named = named;
                  wanted = wanted;
                  answered = λ nothing. cc (answer, nothing);
                },
                refl,
              )
      ]

  IsListed-first :
      (m : Bytes) (seen : List Bytes) (ps : List DiskPartition)
      → All (IsListed (m ∷ seen)) ps
      → All (IsListed seen) ps × All (λ (q : DiskPartition). bytes_eq m q.mount_point ≡ false) ps
  IsListed-first m seen [] h = (tt, tt)
  IsListed-first m seen (q ∷ qs) h =
      let (now, apart) = seen-cons m seen q h.0 in
      let (rest, aparts) = IsListed-first m seen qs h.1 in ((now, rest), (apart, aparts))

  push-IsListed :
      (m : Bytes) (seen : List Bytes) (o : Option DiskPartition) (ps : List DiskPartition)
      → ((r : DiskPartition) → o ≡ some r → IsListed seen r × (r.mount_point ≡ m))
      → All (IsListed (m ∷ seen)) ps
      → Distinct ps
      → All (IsListed seen) (push ignored include statvfs o ps)
        × Distinct (push ignored include statvfs o ps)
  push-IsListed m seen none ps new h d = ((IsListed-first m seen ps h).0, d)
  push-IsListed m seen (some r) ps new h d =
      let (now, at) = new r refl in
      let (rest, aparts) = IsListed-first m seen ps h in ((now, rest), (rw at aparts, d))

  collect_mounts-IsListed :
      (seen ls : List Bytes)
      → All (IsListed seen) (collect_mounts ignored include statvfs seen ls)
        × Distinct (collect_mounts ignored include statvfs seen ls)
  unfolding collect_mounts
  collect_mounts-IsListed seen [] = (tt, tt)
  collect_mounts-IsListed seen (l ∷ ls) =
      let p = parse_mount l in
      let before = collect_mounts-IsListed seen ls in
      let (later, apart) = collect_mounts-IsListed (p.mount_point ∷ seen) ls in
      elim (Bool-cases (skips ignored include statvfs seen p)) [
        | inl skipped ↦ rw skipped before
        | inr passes ↦ rw passes (
            push-IsListed p.mount_point seen (found ignored include statvfs p) _
              (λ r h. found-IsListed seen p r passes h) later apart)
      ]

  -- FetchDiskInfo lists no mount point twice and none that is empty, no filesystem of an ignored type unless
  -- those are asked for, and only mount points for which statvfs answers.
  pub fetch_disk_info-Distinct :
      (file : Option Bytes)
      → All (IsListed []) (fetch_disk_info ignored include statvfs file)
        × Distinct (fetch_disk_info ignored include statvfs file)
  unfolding fetch_disk_info
  fetch_disk_info-Distinct none = (tt, tt)
  fetch_disk_info-Distinct (some file) = collect_mounts-IsListed [] (lines newline file)
