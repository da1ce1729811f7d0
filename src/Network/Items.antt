-- ===== src/Network/Items.antt =====
-- The functions that the vectors of src/libstatgrab/network_stats.c are given do what the vectors
-- expect of them.
use libstatgrab.Base.{◌≡◌, refl, subst, Option, inl, inr, true, Ordering}
use libstatgrab.Base.Bytes.{Bytes, strcmp_ptr, strcmp_ptr_refl, strcmp_ptr_eq}
use libstatgrab.Error.{World, no_error}
use libstatgrab.Error.Codes.{SgError}
use libstatgrab.Tools.Strings.Updates.{Updated, update_string_any}
use libstatgrab.Vector.Copies.{Copies}
use libstatgrab.Vector.Matching.{Keyed}
use libstatgrab.Network.{
  NetworkIoStats, network_io_copied, sg_network_io_stats_item_copy,
  sg_network_io_stats_item_compute_diff, sg_network_io_stats_item_compare,
}

copied_lem :
    (s d : NetworkIoStats) (w : World) (out : SgError × Option Bytes × World)
    → Updated d.interface_name s.interface_name w out
    → let (rc, d', w') = network_io_copied s d out in
      (no_error rc ≡ true → d' ≡ s) × (w'.fault ≡ w.fault)
unfolding network_io_copied
copied_lem s d w (rc, name, w') (fault, inl (e, set, kept)) = rw (e, set) (λ h. cc, fault)
copied_lem s d w (rc, name, w') (fault, inr (e, new)) = rw (e, new) (λ h. refl, fault)

-- `sg_network_io_stats_item_copy` copies the whole item where it reports no error, and writes nothing
-- outside of its blocks in any case.
pub network_io-Copies : Copies (λ (s : NetworkIoStats). s) sg_network_io_stats_item_copy
unfolding sg_network_io_stats_item_copy
network_io-Copies = record {
  content_copied =
      λ s d w h. (copied_lem s d w _ (update_string_any d.interface_name s.interface_name w)).0 h;
  clean = λ s d w. (copied_lem s d w _ (update_string_any d.interface_name s.interface_name w)).1;
}

-- The items of a vector of network counters are told apart by the name of the interface, and a
-- difference keeps it.
pub network_io-Keyed :
    Keyed sg_network_io_stats_item_compare sg_network_io_stats_item_compute_diff
      (λ s. s.interface_name)
network_io-Keyed = record {
  eq_of_key = λ a b h.
      subst (λ n. strcmp_ptr a.interface_name n ≡ Ordering.eq) h (strcmp_ptr_refl a.interface_name);
  key_of_eq = λ a b h. strcmp_ptr_eq a.interface_name b.interface_name h;
  key_kept = λ a b. refl;
}
