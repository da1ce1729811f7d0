-- ===== src/Disk/Mounts.antt =====
-- The reader of mounted file systems of src/libstatgrab/disk_stats.c, with `getmntent_r` and `statvfs64`.
pub mod Links
pub mod Table
pub mod Copied
pub mod Stored
pub mod Wanted
pub mod Space
mod Tests
use libstatgrab.Base.{
  ℕ, zero, suc, ◌+◌, Bool, true, false, List, [], ◌∷◌, ◌++◌, Option, none, some, take, drop, ◌==◌,
  if◌then◌else◌,
}
use libstatgrab.Base.Word.{sub64, mul64}
use libstatgrab.Base.Bytes.{Bytes, codes}
use libstatgrab.Error.{World, no_error, sg_set_error_with_errno_fmt}
use libstatgrab.Error.Codes.{SgError, error_none, error_setmntent, error_diskinfo}
use libstatgrab.Stdio.{set_errno}
use libstatgrab.Tools.Chains.{and_then}
use libstatgrab.Tools.Strings.{sg_update_string, sg_lupdate_string}
use libstatgrab.Vector.{SgVector, VecPtr, null, live, dangling, faulted, sg_vector_free}
use libstatgrab.Vector.Diff.{items}
use libstatgrab.Vector.Append.{
  Appended, append_loop, Update, filled, no_data, failing, vector_update,
}
use libstatgrab.Disk.{FsStats, fs_unknown, sg_fs_stats_item_copy, sg_fs_stats_vector_init_info}
use libstatgrab.Disk.Filesystems.{is_valid_fs_type}

-- `struct mntent`
pub record MountEntry : Type 0 where
  pub mnt_fsname : Bytes
  pub mnt_dir : Bytes
  pub mnt_type : Bytes

-- A table of mounts that was opened, and the `errno` that `getmntent_r` leaves where it fails after the
-- entries.
pub record MountTable : Type 0 where
  pub entries : List MountEntry
  pub read_error : Option ℕ

-- `setmntent`
pub data Mounted : Type 0 where
  no_table : ℕ → Mounted
  table : MountTable → Mounted

-- What `lstat` and `realpath` tell of a name: it is no symbolic link or cannot be looked at, it is one that
-- `realpath` cannot resolve, or one that it resolves.
pub data Link : Type 0 where
  no_link broken : Link
  target : Bytes → Link

-- `struct statvfs64`, and the call of that name, which fails with an `errno`.
pub record Statvfs : Type 0 where
  pub f_bsize : ℕ
  pub f_frsize : ℕ
  pub f_blocks : ℕ
  pub f_bfree : ℕ
  pub f_bavail : ℕ
  pub f_files : ℕ
  pub f_ffree : ℕ
  pub f_favail : ℕ

pub data VfsAnswer : Type 0 where
  vfs_failed : ℕ → VfsAnswer
  vfs : Statvfs → VfsAnswer

-- `sizeof(lnktgt)`
abbrev pub link_size : ℕ
link_size = 4097

abbrev pub link_fuel : ℕ
link_fuel = 2

module _ (link : Bytes → Link) where
  abbrev pub link_of : Option Bytes → Link
  link_of none = no_link
  link_of (some name) = link name

  -- `while( ( -1 != lstat(…) ) && S_ISLNK(statbuf.st_mode) )`
  unfoldable pub resolve : ℕ → FsStats → World → SgError × FsStats × World
  resolve zero d w = (error_none, d, w)
  resolve (suc fuel) d w = elim (link_of d.device_canonical) [
    | no_link ↦ (error_none, d, w)
    | broken ↦ (error_none, d, w)
    | target name ↦
        and_then (λ n. record d { device_canonical = n })
          (sg_lupdate_string d.device_canonical (some name) link_size w) (resolve fuel)
  ]

module _ (link : Bytes → Link) (raw : FsStats) (now : ℕ) where
  -- The end of the loop's body; an error has returned before it.
  unfoldable pub mount_end : SgError × FsStats × World → SgError × FsStats × World
  mount_end (rc, d, w) =
      if no_error rc
      then (error_none, record d { device_type = fs_unknown; systime = now }, set_errno 0 w)
      else (rc, d, w)

  unfoldable pub mount_fill : MountEntry → FsStats → World → SgError × FsStats × World
  mount_fill m d w =
      and_then (λ n. record d { device_name = n })
        (sg_update_string d.device_name (some m.mnt_fsname) w)
        (λ d1 w1.
          and_then (λ n. record d1 { device_canonical = n })
            (sg_update_string d1.device_canonical (some m.mnt_fsname) w1)
            (λ d2 w2.
              and_then (λ n. record d2 { fs_type = n })
                (sg_update_string d2.fs_type (some m.mnt_type) w2)
                (λ d3 w3.
                  and_then (λ n. record d3 { mnt_point = n })
                    (sg_update_string d3.mnt_point (some m.mnt_dir) w3)
                    (λ d4 w4. mount_end (resolve link link_fuel d4 w4)))))

  abbrev pub mount_record : MountEntry → Option (FsStats → World → SgError × FsStats × World)
  mount_record m = some (mount_fill m)

  -- After the loop, and `endmntent`.
  unfoldable pub list_end : MountTable → World → SgError × World
  list_end t w =
      let w1 : World = elim t.read_error [ none ↦ w | some e ↦ set_errno e w ] in
      if w1.errno == 0
      then (error_none, w1)
      else sg_set_error_with_errno_fmt error_diskinfo (some (codes "getmntent")) w1

  unfoldable pub list_done : MountTable → Appended FsStats → SgError × VecPtr FsStats × World
  list_done t out =
      let (rc, w) = list_end t out.world in
      if no_error out.rc then (rc, out.vector, w) else (out.rc, out.vector, out.world)

  -- `sg_get_fs_list_int`, where `setmntent` of the table returns what is given, and `time` returns `now`.
  unfoldable pub sg_get_fs_list_int :
      Mounted → VecPtr FsStats → World → SgError × VecPtr FsStats × World
  sg_get_fs_list_int (no_table e) p w =
      let (rc, w') = sg_set_error_with_errno_fmt error_setmntent none (set_errno e w) in (rc, p, w')
  sg_get_fs_list_int (table t) p w =
      list_done t
        (append_loop (sg_fs_stats_vector_init_info raw) mount_record t.entries 0 p (set_errno 0 w))

-- `%s`
abbrev pub shown_text : Option Bytes → Bytes
shown_text none = codes "(null)"
shown_text (some text) = text

abbrev pub vfs_text : FsStats → Bytes
vfs_text d =
    codes "statvfs64 for mnt_point at "
    ++ shown_text d.mnt_point
    ++ codes " (device: "
    ++ shown_text d.device_name
    ++ codes ", fs_type: "
    ++ shown_text d.fs_type
    ++ codes ")"

module _ (statvfs : Option Bytes → VfsAnswer) (now : ℕ) where
  abbrev pub vfs_numbers : Statvfs → FsStats → FsStats
  vfs_numbers s d =
      let used = sub64 s.f_blocks s.f_bfree in
      record {
        device_name = d.device_name;
        device_canonical = d.device_canonical;
        fs_type = d.fs_type;
        mnt_point = d.mnt_point;
        device_type = d.device_type;
        size = mul64 s.f_frsize s.f_blocks;
        used = mul64 s.f_frsize used;
        free = mul64 s.f_frsize s.f_bfree;
        avail = mul64 s.f_frsize s.f_bavail;
        total_inodes = s.f_files;
        used_inodes = sub64 s.f_files s.f_ffree;
        free_inodes = s.f_ffree;
        avail_inodes = s.f_favail;
        io_size = s.f_bsize;
        block_size = s.f_frsize;
        total_blocks = s.f_blocks;
        free_blocks = s.f_bfree;
        used_blocks = used;
        avail_blocks = s.f_bavail;
        systime = now;
      }

  -- `sg_fill_fs_stat_int`, where `time` returns `now`.
  unfoldable pub sg_fill_fs_stat_int : FsStats → World → SgError × FsStats × World
  sg_fill_fs_stat_int d w = elim (statvfs d.mnt_point) [
    | vfs_failed e ↦
        let (rc, w') =
          sg_set_error_with_errno_fmt error_diskinfo (some (vfs_text d)) (set_errno e w) in
        (rc, d, w')
    | vfs s ↦ (error_none, vfs_numbers s d, w)
  ]

  module _ (names : List Bytes) where
    -- One item of the list, and whether its bit is set. `names` is `valid_file_systems`.
    unfoldable pub mark_type : Option Bytes → FsStats → World → (Bool × FsStats) × World
    mark_type none d w = ((false, d), faulted w)
    mark_type (some type) d w =
        let (rc, d', w') = sg_fill_fs_stat_int d w in
        if is_valid_fs_type type names then ((no_error rc, d'), w') else ((false, d), w)

    -- `while( i )`, from the last item to the first.
    unfoldable pub mark_valid : List FsStats → World → List (Bool × FsStats) × World
    mark_valid [] w = ([], w)
    mark_valid (d ∷ ds) w =
        let (rest, w1) = mark_valid ds w in
        let (marked, w2) = mark_type d.fs_type d w1 in (marked ∷ rest, w2)

    abbrev pub marked_items : SgError → VecPtr FsStats → World → List (Bool × FsStats) × World
    marked_items rc (live t) w = if no_error rc then mark_valid (items t) w else ([], w)
    marked_items rc p w = ([], w)

abbrev pub count_marked : List (Bool × FsStats) → ℕ
count_marked [] = 0
count_marked ((true, d) ∷ ds) = count_marked ds + 1
count_marked ((false, d) ∷ ds) = count_marked ds

-- `for( j = 0; j < n; ++j, ++i )`, from some `i` and `j` on. A search for a bit that is not there runs
-- out of the bits.
unfoldable pub copy_marked : List (Bool × FsStats) → List FsStats → World → List FsStats × World
copy_marked marked [] w = ([], w)
copy_marked [] (d ∷ ds) w = (d ∷ ds, faulted w)
copy_marked ((false, s) ∷ marked) (d ∷ ds) w = copy_marked marked (d ∷ ds) w
copy_marked ((true, s) ∷ marked) (d ∷ ds) w =
    let (rc, d', w1) = sg_fs_stats_item_copy s d w in
    let (ds', w2) = copy_marked marked ds w1 in (d' ∷ ds', w2)

-- What follows VECTOR_UPDATE: the copies, and the end of the list.
unfoldable pub stats_done :
    SgError
    → VecPtr FsStats
    → List (Bool × FsStats)
    → Update FsStats × VecPtr FsStats × World
    → SgError × VecPtr FsStats × World
stats_done rc tmp marked (failing e, p, w) = (e, p, w)
stats_done rc tmp marked (no_data, p, w) = (rc, p, sg_vector_free tmp w)
stats_done rc tmp marked (filled v, p, w) =
    let n = count_marked marked in
    let (cells, w1) = copy_marked marked (take n v.cells) w in
    (rc, live (record v { cells = cells ++ drop n v.cells }), sg_vector_free tmp w1)

-- `sg_get_fs_stats_int`. `time` returns `now` for the list, and `later` for the statistics.
unfoldable pub sg_get_fs_stats_int :
    (Bytes → Link)
    → (Option Bytes → VfsAnswer)
    → List Bytes
    → FsStats
    → ℕ
    → ℕ
    → Mounted
    → VecPtr FsStats
    → World
    → SgError × VecPtr FsStats × World
sg_get_fs_stats_int link statvfs names raw now later mounted p w =
    let (rc, tmp, w1) = sg_get_fs_list_int link raw now mounted null w in
    let (marked, w2) = marked_items statvfs later names rc tmp w1 in
    let n = count_marked marked in
    stats_done rc tmp marked (vector_update (sg_fs_stats_vector_init_info raw) n (n == 0) p w2)
