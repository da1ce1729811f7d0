-- ===== src/Disk/Order.antt =====
-- The comparison functions of src/libstatgrab/disk_stats.c.
use libstatgrab.Base.{ℕ, ◌≡◌, arith, Ordering}
use libstatgrab.Base.Bytes.{IsOrder, by_string-IsOrder, flip}
use libstatgrab.Base.Word.{add64}
use libstatgrab.Disk.{
  sg_fs_compare_device_name, sg_fs_compare_mnt_point, sg_disk_io_compare_name,
  sg_disk_io_compare_traffic, most_first, sg_disk_io_stats_item_compare,
}

most_first-flip : (a b : ℕ) → most_first b a ≡ flip (most_first a b)
most_first-flip a b = ground arith

most_first_trans :
    (a b c : ℕ)
    → most_first a b ≡ Ordering.lt
    → most_first b c ≡ Ordering.lt
    → most_first a c ≡ Ordering.lt
most_first_trans a b c h k = ground arith

most_first_eq :
    (a b c : ℕ)
    → most_first a b ≡ Ordering.eq
    → most_first b c ≡ Ordering.eq
    → most_first a c ≡ Ordering.eq
most_first_eq a b c h k = ground arith

by_traffic-IsOrder : {T : Type 0} (key : T → ℕ) → IsOrder (λ (a b : T). most_first (key a) (key b))
by_traffic-IsOrder key = record {
  flips = λ a b. most_first-flip (key a) (key b);
  lt_trans = λ a b c h k. most_first_trans (key a) (key b) (key c) h k;
  eq_trans = λ a b c h k. most_first_eq (key a) (key b) (key c) h k;
}

-- The comparison functions for file systems and disks are orders that `qsort` can rely on: swapping
-- the items flips the sign, and less and equal are transitive. For the traffic of disks this
-- includes sums that wrap around.
pub disk_orders :
    IsOrder sg_fs_compare_device_name
    × IsOrder sg_fs_compare_mnt_point
    × IsOrder sg_disk_io_compare_name
    × IsOrder sg_disk_io_compare_traffic
    × IsOrder sg_disk_io_stats_item_compare
disk_orders = (
  by_string-IsOrder (λ s. s.device_name),
  by_string-IsOrder (λ s. s.mnt_point),
  by_string-IsOrder (λ s. s.disk_name),
  by_traffic-IsOrder (λ s. add64 s.read_bytes s.write_bytes),
  by_string-IsOrder (λ s. s.disk_name),
)
