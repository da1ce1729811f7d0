-- ===== src/Disk/Mounts/Tests.antt =====
-- A table of three mounts, of which two are of a type that is wanted, and one can be asked for its statistics.
use libstatgrab.Base.{
  ◌+◌, refl, arith, ◌≡◌, none, some, Option, List, [], ◌∷◌, length, ap, subst, ◌≤◌,
}
use libstatgrab.Base.Bytes.{Bytes, codes}
use libstatgrab.Error.{calm, sg_get_error}
use libstatgrab.Error.Codes.{error_setmntent, error_diskinfo, error_none}
use libstatgrab.Base.Word.{add64}
use libstatgrab.Stdio.Failures.{Failed}
use libstatgrab.Tools.Chains.{Ends}
use libstatgrab.Vector.{SgVector, live, null}
use libstatgrab.Vector.Append.Growth.{all_made}
use libstatgrab.Disk.{FsStats, fs_unknown, sg_fs_stats_vector_init_info}
use libstatgrab.Disk.Mounts.{
  MountTable, table, no_table, Link, no_link, target, Statvfs, VfsAnswer, vfs, vfs_failed,
  link_fuel, link_size, resolve, sg_get_fs_stats_int, sg_fill_fs_stat_int,
}
use libstatgrab.Disk.Mounts.Links.{Resolves, followed, resolved, renamed, resolve_lem}
use libstatgrab.Disk.Mounts.Copied.{wanted}
use libstatgrab.Disk.Mounts.Stored.{Statted}
use libstatgrab.Disk.Mounts.Wanted.{fs_stats_lem}
use libstatgrab.Disk.Mounts.Space.{Answered, fill_lem}

abbrev raw_item : FsStats
raw_item = record {
  device_name = none;
  device_canonical = none;
  fs_type = none;
  mnt_point = none;
  device_type = fs_unknown;
  size = 0;
  used = 0;
  free = 0;
  avail = 0;
  total_inodes = 0;
  used_inodes = 0;
  free_inodes = 0;
  avail_inodes = 0;
  io_size = 0;
  block_size = 0;
  total_blocks = 0;
  free_blocks = 0;
  used_blocks = 0;
  avail_blocks = 0;
  systime = 0;
}

abbrev empty : SgVector FsStats
empty = record {
  used_count = 0;
  alloc_count = 2;
  block_shift = 1;
  info = sg_fs_stats_vector_init_info raw_item;
  cells = raw_item ∷ raw_item ∷ [];
}

-- A link is a name of one character.
abbrev short_links : Bytes → Link
short_links [] = no_link
short_links (c ∷ []) = target (codes "sda")
short_links (c ∷ d ∷ s) = no_link

short_links-Resolves : Resolves short_links
short_links-Resolves [] p e = cc
short_links-Resolves (c ∷ []) p e =
    let is : codes "sda" ≡ p = ap (followed []) e in
    subst (λ q. (short_links q ≡ no_link) × (length q ≤ link_size)) is (refl, omega arith)
short_links-Resolves (c ∷ d ∷ s) p e = cc

abbrev half_full : Statvfs
half_full = record {
  f_bsize = 4096;
  f_frsize = 1024;
  f_blocks = 100;
  f_bfree = 50;
  f_bavail = 40;
  f_files = 10;
  f_ffree = 5;
  f_favail = 4;
}

-- `statvfs64` fails on a path of more than one character.
abbrev root_only : Option Bytes → VfsAnswer
root_only none = vfs_failed 14
root_only (some []) = vfs_failed 2
root_only (some (c ∷ [])) = vfs half_full
root_only (some (c ∷ d ∷ s)) = vfs_failed 13

abbrev at_root : FsStats
at_root = record raw_item { mnt_point = some (codes "/") }

abbrev mounts : MountTable
mounts = record {
  entries =
      record { mnt_fsname = codes "p"; mnt_dir = codes "/proc"; mnt_type = codes "proc" }
      ∷ record { mnt_fsname = codes "r"; mnt_dir = codes "/"; mnt_type = codes "ext4" }
      ∷ record { mnt_fsname = codes "sdb"; mnt_dir = codes "/b"; mnt_type = codes "ext4" }
      ∷ [];
  read_error = none;
}

abbrev ext4_only : List Bytes
ext4_only = codes "ext4" ∷ []

fs_stats_lem_example :
    Statted (all_made (wanted short_links root_only ext4_only raw_item 6) mounts.entries) calm (
      sg_get_fs_stats_int short_links root_only ext4_only raw_item 5 6
        (table mounts)
        (live empty)
        calm)
    × (let (rc, p, w') =
          sg_get_fs_stats_int short_links root_only ext4_only raw_item 5 6
            (no_table 2)
            (live empty)
            calm in
        (rc ≡ error_setmntent) × (p ≡ null) × (sg_get_error w' ≡ error_none))
fs_stats_lem_example =
    fs_stats_lem short_links root_only ext4_only raw_item 5 6 mounts 2 empty calm (tt, tt)
      short_links-Resolves refl refl
      (record { count_fits = omega arith; item_sized = omega arith; bytes_fit = omega arith })
      (record { used_in = omega arith; alloc_in = omega arith; sized = omega arith }) refl
      (record { count_fits = omega arith; item_sized = omega arith; bytes_fit = omega arith })

fill_lem_example :
    (let (rc, d', w') = sg_fill_fs_stat_int root_only 6 at_root calm in
      (rc ≡ error_none)
      × (w' ≡ calm)
      × (d'.device_name ≡ at_root.device_name)
      × (d'.device_canonical ≡ at_root.device_canonical)
      × (d'.fs_type ≡ at_root.fs_type)
      × (d'.mnt_point ≡ at_root.mnt_point)
      × (d'.device_type ≡ at_root.device_type)
      × (d'.systime ≡ 6)
      × Answered half_full d'
      × (d'.used_blocks + d'.free_blocks ≡ d'.total_blocks)
      × (d'.used_inodes + d'.free_inodes ≡ d'.total_inodes)
      × (add64 d'.used d'.free ≡ d'.size))
    × (let (rc, d', w') = sg_fill_fs_stat_int root_only 6 raw_item calm in
        (d' ≡ raw_item) × Failed error_diskinfo 14 calm (rc, w'))
fill_lem_example =
    fill_lem root_only 6 half_full at_root raw_item 14 calm refl refl (omega arith) (omega arith)
      (omega arith) (omega arith)

resolve_lem_example :
    (resolve short_links 7 (renamed (codes "r") raw_item) calm
      ≡ resolve short_links link_fuel (renamed (codes "r") raw_item) calm)
    × Ends
        (renamed (resolved short_links (codes "r")) raw_item)
        calm
        (resolve short_links link_fuel (renamed (codes "r") raw_item) calm)
resolve_lem_example = resolve_lem short_links 5 (codes "r") raw_item calm short_links-Resolves

-- Just the root is listed.
wanted_test :
    length (all_made (wanted short_links root_only ext4_only raw_item 6) mounts.entries) ≡ 1
wanted_test = refl
