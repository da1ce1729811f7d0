-- ===== src/Disk/Mounts/Copied.antt =====
-- The items whose bits are set, and their copies.
use libstatgrab.Base.{
  ℕ, ◌*◌, ◌%◌, ◌≡◌, refl, ap, subst, sym, ◌∙◌, arith, Bool, true, false, List, [], ◌∷◌, Option,
  none, some, ◌⊎◌, inl, inr, length, Bool-cases, if◌then◌else◌,
}
use libstatgrab.Base.Bytes.{Bytes}
use libstatgrab.Error.{World, no_error, sg_set_error_with_errno_fmt}
use libstatgrab.Error.Slot.{set_SameRest}
use libstatgrab.Error.Codes.{error_none, error_diskinfo}
use libstatgrab.Stdio.{set_errno}
use libstatgrab.Stdio.Failures.{set_with_errno-Failed}
use libstatgrab.Tools.Chains.{and_then-done}
use libstatgrab.Tools.Strings.Updates.{update_string-plenty}
use libstatgrab.Vector.Append.Growth.{AllShow, all_made, add_made}
use libstatgrab.Disk.{FsStats, fs_unknown, sg_fs_stats_item_copy}
use libstatgrab.Base.Word.{u64_mod, sub64}
use libstatgrab.Disk.Filesystems.Search.{IsSorted, named_in, is_valid_fs_type_lem}
use libstatgrab.Disk.Mounts.{
  MountEntry, Link, Statvfs, VfsAnswer, vfs_failed, vfs, vfs_numbers, vfs_text, sg_fill_fs_stat_int,
  mark_type, mark_valid, count_marked, copy_marked,
}
use libstatgrab.Disk.Mounts.Links.{resolved}
use libstatgrab.Disk.Mounts.Table.{ShowsEntry}

Vfs-cases : (a : VfsAnswer) → ((e : ℕ) × (a ≡ vfs_failed e)) ⊎ ((s : Statvfs) × (a ≡ vfs s))
Vfs-cases (vfs_failed e) = inl (e, refl)
Vfs-cases (vfs s) = inr (s, refl)

-- With memory, a copy is the item.
fs_copy-plenty :
    (s d : FsStats) (w : World) → w.oom ≡ [] → sg_fs_stats_item_copy s d w ≡ (error_none, s, w)
unfolding sg_fs_stats_item_copy
fs_copy-plenty s d w h =
    and_then-done _ _ w _ _ (update_string-plenty d.device_name s.device_name w h)
    ∙ and_then-done _ _ w _ _ (update_string-plenty d.device_canonical s.device_canonical w h)
    ∙ and_then-done _ _ w _ _ (update_string-plenty d.fs_type s.fs_type w h)
    ∙ and_then-done _ _ w _ _ (update_string-plenty d.mnt_point s.mnt_point w h)

-- The items whose bits are set.
abbrev pub picked : List (Bool × FsStats) → List FsStats
picked [] = []
picked ((true, d) ∷ ds) = d ∷ picked ds
picked ((false, d) ∷ ds) = picked ds

pub length-picked : (ds : List (Bool × FsStats)) → length (picked ds) ≡ count_marked ds
length-picked [] = refl
length-picked ((true, d) ∷ ds) = omega (arith, length-picked ds)
length-picked ((false, d) ∷ ds) = length-picked ds

pub no_items : {A : Type 0} → (xs : List A) → length xs ≡ 0 → xs ≡ []
no_items [] h = refl
no_items (x ∷ xs) h = absurd (omega (arith, h))

-- With memory, and as many items as there are bits, the copies are those of the items whose bits are set, in
-- their order, and no bit is looked for that is not there.
pub copy_marked-picked :
    (marked : List (Bool × FsStats)) (cells : List FsStats) (w : World)
    → w.oom ≡ []
    → length cells ≡ count_marked marked
    → copy_marked marked cells w ≡ (picked marked, w)
unfolding copy_marked
copy_marked-picked marked [] w h count =
    ap (λ (l : List FsStats). (l, w))
      (sym (no_items (picked marked) (length-picked marked ∙ sym count)))
copy_marked-picked [] (d ∷ ds) w h count = absurd (omega (arith, count))
copy_marked-picked ((false, s) ∷ marked) (d ∷ ds) w h count =
    copy_marked-picked marked (d ∷ ds) w h count
copy_marked-picked ((true, s) ∷ marked) (d ∷ ds) w h count =
    rw (fs_copy-plenty s d w h, copy_marked-picked marked ds w h (omega (arith, count)))

module _ (link : Bytes → Link) (statvfs : Option Bytes → VfsAnswer) (names : List Bytes)
    (raw : FsStats) (later : ℕ) where
  -- The item of an entry, with its names and the numbers of the answer of `statvfs64`, in bytes and as they are.
  abbrev pub fs_told : MountEntry → VfsAnswer → Option FsStats
  fs_told m (vfs_failed e) = none
  fs_told m (vfs s) = some (record {
    device_name = some m.mnt_fsname;
    device_canonical = some (resolved link m.mnt_fsname);
    fs_type = some m.mnt_type;
    mnt_point = some m.mnt_dir;
    device_type = fs_unknown;
    size = (s.f_frsize * s.f_blocks) % u64_mod;
    used = (s.f_frsize * sub64 s.f_blocks s.f_bfree) % u64_mod;
    free = (s.f_frsize * s.f_bfree) % u64_mod;
    avail = (s.f_frsize * s.f_bavail) % u64_mod;
    total_inodes = s.f_files;
    used_inodes = sub64 s.f_files s.f_ffree;
    free_inodes = s.f_ffree;
    avail_inodes = s.f_favail;
    io_size = s.f_bsize;
    block_size = s.f_frsize;
    total_blocks = s.f_blocks;
    free_blocks = s.f_bfree;
    used_blocks = sub64 s.f_blocks s.f_bfree;
    avail_blocks = s.f_bavail;
    systime = later;
  })

  -- What an entry gives: nothing where its type is none of the names, whatever their case, or `statvfs64` fails.
  abbrev pub wanted : MountEntry → Option FsStats
  wanted m = if named_in m.mnt_type names then fs_told m (statvfs (some m.mnt_dir)) else none

  -- A bit says whether there is an item.
  abbrev pub Marks : Option FsStats → Bool × FsStats → Type 0
  Marks o (b, d) = ((b ≡ true) × (o ≡ some d)) ⊎ ((b ≡ false) × (o ≡ none))

  numbers_told :
      (d : FsStats) (m : MountEntry) (s : Statvfs)
      → ShowsEntry link d m
      → fs_told m (vfs s) ≡ some (vfs_numbers statvfs later s d)
  numbers_told d m s (name, canonical, type, point, device) =
      rw (name, canonical, type, point, device)

  told_failed : (m : MountEntry) (a : VfsAnswer) (e : ℕ) → a ≡ vfs_failed e → fs_told m a ≡ none
  told_failed m a e h = rw h

  fill_told :
      (d : FsStats) (m : MountEntry) (w : World)
      → ShowsEntry link d m
      → let (rc, d', w') = sg_fill_fs_stat_int statvfs later d w in
        Marks (fs_told m (statvfs (some m.mnt_dir))) (no_error rc, d')
        × (w'.oom ≡ w.oom)
        × (w'.fault ≡ w.fault)
  unfolding sg_fill_fs_stat_int sg_set_error_with_errno_fmt
  fill_told d m w shows =
      let point : statvfs d.mnt_point ≡ statvfs (some m.mnt_dir) = ap statvfs shows.3 in
      elim (Vfs-cases (statvfs d.mnt_point)) [
        | inl (e, h) ↦
            let (rc, _, _, fault) = set_with_errno-Failed error_diskinfo (vfs_text d) e w in
            let rest = set_SameRest error_diskinfo e (some (vfs_text d)) (set_errno e w) in
            rw (h, sg_fill_fs_stat_int)
              (inr (ap no_error rc, told_failed m _ e (sym point ∙ h)), rest.oom_kept, fault)
        | inr (s, h) ↦
            rw (h, sg_fill_fs_stat_int)
              (inl (refl, ap (fs_told m) (sym point ∙ h) ∙ numbers_told d m s shows), refl, refl)
      ]

  mark_type-Marks :
      (d : FsStats) (m : MountEntry) (w : World)
      → IsSorted names
      → ShowsEntry link d m
      → let (marked, w') = mark_type statvfs later names d.fs_type d w in
        Marks (wanted m) marked × (w'.oom ≡ w.oom) × (w'.fault ≡ w.fault)
  unfolding mark_type
  mark_type-Marks d m w sorted shows =
      subst
        (λ o.
          let (marked, w') = mark_type statvfs later names o d w in
          Marks (wanted m) marked × (w'.oom ≡ w.oom) × (w'.fault ≡ w.fault))
        (sym shows.2)
        (rw (is_valid_fs_type_lem m.mnt_type names sorted)
          (elim (Bool-cases (named_in m.mnt_type names)) [
            | inl h ↦ rw h (fill_told d m w shows)
            | inr h ↦ rw h (inr (refl, refl), refl, refl)
          ]))

  pick_one :
      (o : Option FsStats) (x : Bool × FsStats) (xs : List (Bool × FsStats)) (ys : List FsStats)
      → Marks o x
      → picked xs ≡ ys
      → picked (x ∷ xs) ≡ add_made o ys
  pick_one o (b, d) xs ys (inl (set, is)) same = rw (set, is, same)
  pick_one o (b, d) xs ys (inr (clear, is)) same = rw (clear, is, same)

  -- The items whose bits are set are those that the entries give.
  pub mark_valid-picked :
      (ds : List FsStats) (ms : List MountEntry) (w : World)
      → IsSorted names
      → AllShow (ShowsEntry link) ds ms
      → let (marked, w') = mark_valid statvfs later names ds w in
        (picked marked ≡ all_made wanted ms) × (w'.oom ≡ w.oom) × (w'.fault ≡ w.fault)
  unfolding mark_valid
  mark_valid-picked [] [] w sorted all = (refl, refl, refl)
  mark_valid-picked [] (m ∷ ms) w sorted all = absurd all
  mark_valid-picked (d ∷ ds) [] w sorted all = absurd all
  mark_valid-picked (d ∷ ds) (m ∷ ms) w sorted all =
      let (same, oom, fault) = mark_valid-picked ds ms w sorted all.1 in
      let (marks, oom_d, fault_d) =
        mark_type-Marks d m (mark_valid statvfs later names ds w).1 sorted all.0 in
      (pick_one (wanted m) _ _ _ marks same, oom_d ∙ oom, fault_d ∙ fault)
