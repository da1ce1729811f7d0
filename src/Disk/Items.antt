-- ===== src/Disk/Items.antt =====
-- The functions that the vectors of src/libstatgrab/disk_stats.c are given do what the vectors expect
-- of them.
use libstatgrab.Base.{◌≡◌, refl, subst, ◌∙◌, Option, Ordering, inl, inr, true}
use libstatgrab.Base.Bytes.{Bytes, strcmp_ptr, strcmp_ptr_refl, strcmp_ptr_eq}
use libstatgrab.Error.{World, no_error}
use libstatgrab.Error.Codes.{SgError}
use libstatgrab.Tools.Strings.Updates.{Updated, update_string_any}
use libstatgrab.Vector.Copies.{Copies}
use libstatgrab.Vector.Matching.{Keyed}
use libstatgrab.Tools.Chains.{and_then}
use libstatgrab.Disk.{
  FsStats, DiskIoStats, sg_fs_stats_item_copy, sg_fs_stats_item_compute_diff, or_else,
  sg_fs_stats_item_compare, sg_disk_io_stats_item_copy, sg_disk_io_stats_item_compute_diff,
  sg_disk_io_stats_item_compare,
}

-- A copy of `s`, where no error is reported, and no fault.
abbrev IsCopy : {T : Type 0} → T → World → SgError × T × World → Type 0
IsCopy s w out = (no_error out.0 ≡ true → out.1 ≡ s) × (out.2.fault ≡ w.fault)

and_then_lem :
    {T : Type 0} (s : T) (set : Option Bytes → T) (before name : Option Bytes) (w : World)
    (out : SgError × Option Bytes × World) (rest : T → World → SgError × T × World)
    → Updated before name w out
    → ((w' : World) → IsCopy s w' (rest (set name) w'))
    → IsCopy s w (and_then set out rest)
unfolding and_then
and_then_lem s set before name w (rc, n, w') rest (fault, inl (e, is_set, kept)) next =
    rw (e, is_set) (λ h. cc, fault)
and_then_lem s set before name w (rc, n, w') rest (fault, inr (e, new)) next =
    let (same, clean) = next w' in rw (e, new) (same, clean ∙ fault)

fs_copied : (s d : FsStats) (w : World) → IsCopy s w (sg_fs_stats_item_copy s d w)
unfolding sg_fs_stats_item_copy
fs_copied s d w =
    and_then_lem s _ d.device_name s.device_name w _ _
      (update_string_any d.device_name s.device_name w)
      (λ w1.
        and_then_lem s _ d.device_canonical s.device_canonical w1 _ _
          (update_string_any d.device_canonical s.device_canonical w1)
          (λ w2.
            and_then_lem s _ d.fs_type s.fs_type w2 _ _ (update_string_any d.fs_type s.fs_type w2)
              (λ w3.
                and_then_lem s _ d.mnt_point s.mnt_point w3 _ _
                  (update_string_any d.mnt_point s.mnt_point w3) (λ w4. (λ h. refl, refl)))))

-- `sg_fs_stats_item_copy` copies the whole item where it reports no error, and writes nothing outside
-- of its blocks in any case.
pub fs-Copies : Copies (λ (s : FsStats). s) sg_fs_stats_item_copy
fs-Copies = record {
  content_copied = λ s d w h. (fs_copied s d w).0 h;
  clean = λ s d w. (fs_copied s d w).1;
}

disk_io_copied : (s d : DiskIoStats) (w : World) → IsCopy s w (sg_disk_io_stats_item_copy s d w)
unfolding sg_disk_io_stats_item_copy
disk_io_copied s d w =
    and_then_lem s _ d.disk_name s.disk_name w _ _ (update_string_any d.disk_name s.disk_name w)
      (λ w1. (λ h. refl, refl))

pub disk_io-Copies : Copies (λ (s : DiskIoStats). s) sg_disk_io_stats_item_copy
disk_io-Copies = record {
  content_copied = λ s d w h. (disk_io_copied s d w).0 h;
  clean = λ s d w. (disk_io_copied s d w).1;
}

-- The four strings that tell file systems apart.
abbrev pub fs_key : FsStats → Option Bytes × Option Bytes × Option Bytes × Option Bytes
fs_key s = (s.device_name, s.device_canonical, s.mnt_point, s.fs_type)

or_else_eq : (a b : Ordering) → or_else a b ≡ Ordering.eq → (a ≡ Ordering.eq) × (b ≡ Ordering.eq)
or_else_eq Ordering.eq b h = (refl, h)
or_else_eq Ordering.lt b h = cc
or_else_eq Ordering.gt b h = cc

fs_eq_of_key : (a b : FsStats) → fs_key a ≡ fs_key b → sg_fs_stats_item_compare a b ≡ Ordering.eq
fs_eq_of_key a b h =
    subst
      (λ (k : Option Bytes × Option Bytes × Option Bytes × Option Bytes).
        or_else (strcmp_ptr a.device_name k.0) (
          or_else (strcmp_ptr a.device_canonical k.1)
            (or_else (strcmp_ptr a.mnt_point k.2) (strcmp_ptr a.fs_type k.3)))
        ≡ Ordering.eq)
      h
      (rw
        (
          strcmp_ptr_refl a.device_name,
          strcmp_ptr_refl a.device_canonical,
          strcmp_ptr_refl a.mnt_point,
          strcmp_ptr_refl a.fs_type,
        )
        refl)

fs_key_of_eq : (a b : FsStats) → sg_fs_stats_item_compare a b ≡ Ordering.eq → fs_key a ≡ fs_key b
fs_key_of_eq a b h =
    let (e1, r1) = or_else_eq (strcmp_ptr a.device_name b.device_name) _ h in
    let (e2, r2) = or_else_eq (strcmp_ptr a.device_canonical b.device_canonical) _ r1 in
    let (e3, e4) = or_else_eq (strcmp_ptr a.mnt_point b.mnt_point) _ r2 in
    let p1 = strcmp_ptr_eq _ _ e1 in
    let p2 = strcmp_ptr_eq _ _ e2 in
    let p3 = strcmp_ptr_eq _ _ e3 in let p4 = strcmp_ptr_eq _ _ e4 in cc

-- File systems are told apart by their two device names, mount point and type together, and a
-- difference keeps all four.
pub fs-Keyed : Keyed sg_fs_stats_item_compare sg_fs_stats_item_compute_diff fs_key
fs-Keyed = record { eq_of_key = fs_eq_of_key; key_of_eq = fs_key_of_eq; key_kept = λ a b. refl }

-- Disks are told apart by their name, and a difference keeps it.
pub disk_io-Keyed :
    Keyed sg_disk_io_stats_item_compare sg_disk_io_stats_item_compute_diff (λ s. s.disk_name)
disk_io-Keyed = record {
  eq_of_key =
      λ a b h. subst (λ n. strcmp_ptr a.disk_name n ≡ Ordering.eq) h (strcmp_ptr_refl a.disk_name);
  key_of_eq = λ a b h. strcmp_ptr_eq a.disk_name b.disk_name h;
  key_kept = λ a b. refl;
}
