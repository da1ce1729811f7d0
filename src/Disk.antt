-- ===== src/Disk.antt =====
-- The items of src/libstatgrab/disk_stats.c: file systems and disk counters, with their functions for
-- vectors.
pub mod Items
pub mod Order
pub mod Filesystems
pub mod Io
pub mod Mounts
use libstatgrab.Base.{ℕ, Option, none, some, Ordering, ltb, ◌==◌, if◌then◌else◌}
use libstatgrab.Base.Word.{add64, sub64}
use libstatgrab.Base.Bytes.{Bytes, strcmp_ptr}
use libstatgrab.Error.{World, sg_get_error, no_error}
use libstatgrab.Error.Codes.{SgError, error_none}
use libstatgrab.Tools.Chains.{and_then}
use libstatgrab.Tools.Strings.{sg_update_string}
use libstatgrab.Vector.{VectorInfo}

pub data FsDeviceType : Type 0 where
  fs_unknown fs_regular fs_special fs_loopback fs_remote : FsDeviceType

-- `sg_fs_stats`; the numbers are 64-bit words.
pub record FsStats : Type 0 where
  pub device_name : Option Bytes
  pub device_canonical : Option Bytes
  pub fs_type : Option Bytes
  pub mnt_point : Option Bytes
  pub device_type : FsDeviceType
  pub size : ℕ
  pub used : ℕ
  pub free : ℕ
  pub avail : ℕ
  pub total_inodes : ℕ
  pub used_inodes : ℕ
  pub free_inodes : ℕ
  pub avail_inodes : ℕ
  pub io_size : ℕ
  pub block_size : ℕ
  pub total_blocks : ℕ
  pub free_blocks : ℕ
  pub used_blocks : ℕ
  pub avail_blocks : ℕ
  pub systime : ℕ

abbrev pub sg_fs_stats_item_init : FsStats → FsStats
sg_fs_stats_item_init d = record d {
  device_name = none;
  device_canonical = none;
  fs_type = none;
  mnt_point = none;
}

-- The end of the copy: the numbers.
abbrev pub fs_numbers : FsStats → FsStats → World → SgError × FsStats × World
fs_numbers s d w = (
  error_none,
  record s {
    device_name = d.device_name;
    device_canonical = d.device_canonical;
    fs_type = d.fs_type;
    mnt_point = d.mnt_point;
  },
  w,
)

unfoldable pub sg_fs_stats_item_copy : FsStats → FsStats → World → SgError × FsStats × World
sg_fs_stats_item_copy s d w =
    and_then (λ n. record d { device_name = n }) (sg_update_string d.device_name s.device_name w)
      (λ d1 w1.
        and_then (λ n. record d1 { device_canonical = n })
          (sg_update_string d1.device_canonical s.device_canonical w1)
          (λ d2 w2.
            and_then (λ n. record d2 { fs_type = n }) (sg_update_string d2.fs_type s.fs_type w2)
              (λ d3 w3.
                and_then (λ n. record d3 { mnt_point = n })
                  (sg_update_string d3.mnt_point s.mnt_point w3) (fs_numbers s))))

-- The source leaves out `free` and `systime`.
abbrev pub sg_fs_stats_item_compute_diff : FsStats → FsStats → FsStats
sg_fs_stats_item_compute_diff s d = record d {
  size = sub64 d.size s.size;
  used = sub64 d.used s.used;
  avail = sub64 d.avail s.avail;
  total_inodes = sub64 d.total_inodes s.total_inodes;
  used_inodes = sub64 d.used_inodes s.used_inodes;
  free_inodes = sub64 d.free_inodes s.free_inodes;
  avail_inodes = sub64 d.avail_inodes s.avail_inodes;
  io_size = sub64 d.io_size s.io_size;
  block_size = sub64 d.block_size s.block_size;
  total_blocks = sub64 d.total_blocks s.total_blocks;
  free_blocks = sub64 d.free_blocks s.free_blocks;
  used_blocks = sub64 d.used_blocks s.used_blocks;
  avail_blocks = sub64 d.avail_blocks s.avail_blocks;
}

-- `rc = strcmp(…); if( 0 != rc ) return rc;`, then the next comparison.
abbrev pub or_else : Ordering → Ordering → Ordering
or_else Ordering.eq next = next
or_else rc next = rc

abbrev pub sg_fs_stats_item_compare : FsStats → FsStats → Ordering
sg_fs_stats_item_compare a b = or_else (strcmp_ptr a.device_name b.device_name) (
    or_else (strcmp_ptr a.device_canonical b.device_canonical)
      (or_else (strcmp_ptr a.mnt_point b.mnt_point) (strcmp_ptr a.fs_type b.fs_type)))

-- `free` of the four strings leaves dangling pointers in an item that nothing reads again.
abbrev pub sg_fs_stats_item_destroy : FsStats → FsStats
sg_fs_stats_item_destroy d = record d {
  device_name = none;
  device_canonical = none;
  fs_type = none;
  mnt_point = none;
}

-- `VECTOR_INIT_INFO_FULL_INIT(sg_fs_stats)`; an item has 20 words.
abbrev pub sg_fs_stats_vector_init_info : FsStats → VectorInfo FsStats
sg_fs_stats_vector_init_info raw = record {
  item_size = 160;
  init_fn = some sg_fs_stats_item_init;
  copy_fn = some sg_fs_stats_item_copy;
  compute_diff_fn = some sg_fs_stats_item_compute_diff;
  compare_fn = some sg_fs_stats_item_compare;
  destroy_fn = some sg_fs_stats_item_destroy;
  raw = raw;
}

-- `sg_disk_io_stats`
pub record DiskIoStats : Type 0 where
  pub disk_name : Option Bytes
  pub read_bytes : ℕ
  pub write_bytes : ℕ
  pub systime : ℕ

abbrev pub sg_disk_io_stats_item_init : DiskIoStats → DiskIoStats
sg_disk_io_stats_item_init d = record d { disk_name = none }

unfoldable pub sg_disk_io_stats_item_copy :
    DiskIoStats → DiskIoStats → World → SgError × DiskIoStats × World
sg_disk_io_stats_item_copy s d w =
    and_then (λ n. record d { disk_name = n }) (sg_update_string d.disk_name s.disk_name w)
      (λ d1 w1. (error_none, record s { disk_name = d1.disk_name }, w1))

abbrev pub sg_disk_io_stats_item_compute_diff : DiskIoStats → DiskIoStats → DiskIoStats
sg_disk_io_stats_item_compute_diff s d = record d {
  read_bytes = sub64 d.read_bytes s.read_bytes;
  write_bytes = sub64 d.write_bytes s.write_bytes;
  systime = sub64 d.systime s.systime;
}

abbrev pub sg_disk_io_stats_item_compare : DiskIoStats → DiskIoStats → Ordering
sg_disk_io_stats_item_compare a b = strcmp_ptr a.disk_name b.disk_name

abbrev pub sg_disk_io_stats_item_destroy : DiskIoStats → DiskIoStats
sg_disk_io_stats_item_destroy d = record d { disk_name = none }

-- `VECTOR_INIT_INFO_FULL_INIT(sg_disk_io_stats)`; an item has four words.
abbrev pub sg_disk_io_stats_vector_init_info : DiskIoStats → VectorInfo DiskIoStats
sg_disk_io_stats_vector_init_info raw = record {
  item_size = 32;
  init_fn = some sg_disk_io_stats_item_init;
  copy_fn = some sg_disk_io_stats_item_copy;
  compute_diff_fn = some sg_disk_io_stats_item_compute_diff;
  compare_fn = some sg_disk_io_stats_item_compare;
  destroy_fn = some sg_disk_io_stats_item_destroy;
  raw = raw;
}

-- The comparisons for sorting.
abbrev pub sg_fs_compare_device_name : FsStats → FsStats → Ordering
sg_fs_compare_device_name a b = strcmp_ptr a.device_name b.device_name

abbrev pub sg_fs_compare_mnt_point : FsStats → FsStats → Ordering
sg_fs_compare_mnt_point a b = strcmp_ptr a.mnt_point b.mnt_point

abbrev pub sg_disk_io_compare_name : DiskIoStats → DiskIoStats → Ordering
sg_disk_io_compare_name a b = strcmp_ptr a.disk_name b.disk_name

-- `(tot_a == tot_b) ? 0 : (tot_a > tot_b) ? -1 : 1`
abbrev pub most_first : ℕ → ℕ → Ordering
most_first a b = if a == b then Ordering.eq else if ltb b a then Ordering.lt else Ordering.gt

abbrev pub sg_disk_io_compare_traffic : DiskIoStats → DiskIoStats → Ordering
sg_disk_io_compare_traffic a b =
    most_first (add64 a.read_bytes a.write_bytes) (add64 b.read_bytes b.write_bytes)
