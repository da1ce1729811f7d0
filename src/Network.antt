-- ===== src/Network.antt =====
-- src/libstatgrab/network_stats.c: the counters of a network interface, as items of a vector, in the
-- build for Linux.
pub mod Transfer
pub mod Items
pub mod Reader
pub mod Ifaces
mod Tests
use libstatgrab.Base.{ℕ, Bool, ◌+◌, ◌%◌, ◌^◌, Option, none, some, Ordering, leb, if◌then◌else◌}
use libstatgrab.Base.Word.{u64_mod, add64, sub64}
use libstatgrab.Base.Bytes.{Bytes, strcmp_ptr}
use libstatgrab.Error.{World, sg_get_error, no_error}
use libstatgrab.Error.Codes.{SgError, error_none}
use libstatgrab.Tools.Strings.{sg_update_string}
use libstatgrab.Vector.{VectorInfo}

-- `sg_network_io_stats`; the numbers are 64-bit words.
pub record NetworkIoStats : Type 0 where
  pub interface_name : Option Bytes
  pub tx : ℕ
  pub rx : ℕ
  pub ipackets : ℕ
  pub opackets : ℕ
  pub ierrors : ℕ
  pub oerrors : ℕ
  pub collisions : ℕ
  pub systime : ℕ

abbrev pub sg_network_io_stats_item_init : NetworkIoStats → NetworkIoStats
sg_network_io_stats_item_init d = record {
  interface_name = none;
  tx = 0;
  rx = 0;
  ipackets = 0;
  opackets = 0;
  ierrors = 0;
  oerrors = 0;
  collisions = 0;
  systime = 0;
}

-- The end of the copy, once `sg_update_string` has returned.
unfoldable pub network_io_copied :
    NetworkIoStats
    → NetworkIoStats
    → SgError × Option Bytes × World
    → SgError × NetworkIoStats × World
network_io_copied s d (rc, name, w) =
    if no_error rc
    then (error_none, record s { interface_name = name }, w)
    else (sg_get_error w, record d { interface_name = name }, w)

unfoldable pub sg_network_io_stats_item_copy :
    NetworkIoStats → NetworkIoStats → World → SgError × NetworkIoStats × World
sg_network_io_stats_item_copy s d w =
    network_io_copied s d (sg_update_string d.interface_name s.interface_name w)

-- The order of two words read as `long long`.
abbrev pub signed_le : ℕ → ℕ → Bool
signed_le a b = leb (add64 a (2 ^ 63)) (add64 b (2 ^ 63))

-- `transfer_diff`, on a system whose counters have 32 bits.
unfoldable pub transfer_diff : ℕ → ℕ → ℕ
transfer_diff new old = if signed_le old new then sub64 new old else sub64 (add64 (2 ^ 32) new) old

abbrev pub sg_network_io_stats_item_compute_diff : NetworkIoStats → NetworkIoStats → NetworkIoStats
sg_network_io_stats_item_compute_diff s d = record {
  interface_name = d.interface_name;
  tx = transfer_diff d.tx s.tx;
  rx = transfer_diff d.rx s.rx;
  ipackets = transfer_diff d.ipackets s.ipackets;
  opackets = transfer_diff d.opackets s.opackets;
  ierrors = transfer_diff d.ierrors s.ierrors;
  oerrors = transfer_diff d.oerrors s.oerrors;
  collisions = transfer_diff d.collisions s.collisions;
  systime = sub64 d.systime s.systime;
}

abbrev pub sg_network_io_stats_item_compare : NetworkIoStats → NetworkIoStats → Ordering
sg_network_io_stats_item_compare a b = strcmp_ptr a.interface_name b.interface_name

abbrev pub sg_network_io_stats_item_destroy : NetworkIoStats → NetworkIoStats
sg_network_io_stats_item_destroy d = record d { interface_name = none }

-- `VECTOR_INIT_INFO_FULL_INIT(sg_network_io_stats)`; an item has nine words.
abbrev pub sg_network_io_stats_vector_init_info : NetworkIoStats → VectorInfo NetworkIoStats
sg_network_io_stats_vector_init_info raw = record {
  item_size = 72;
  init_fn = some sg_network_io_stats_item_init;
  copy_fn = some sg_network_io_stats_item_copy;
  compute_diff_fn = some sg_network_io_stats_item_compute_diff;
  compare_fn = some sg_network_io_stats_item_compare;
  destroy_fn = some sg_network_io_stats_item_destroy;
  raw = raw;
}
