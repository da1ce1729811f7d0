-- ===== src/Disk/Mounts/Wanted.antt =====
-- The file systems that `sg_get_fs_stats_int` lists where memory is plenty.
use libstatgrab.Base.{
  ℕ, ◌≤◌, ◌≡◌, refl, ap, subst, sym, ◌∙◌, arith, List, [], Option, none, true, inl, inr, length,
  ◌==◌, ==_iff, Bool, Bool-cases, Option-cases, ◌∷◌,
}
use libstatgrab.Base.Bytes.{Bytes}
use libstatgrab.Error.{World, no_error, sg_get_error, sg_set_error_with_errno_fmt, sg_set_error_int}
use libstatgrab.Error.Codes.{SgError, error_none, error_setmntent}
use libstatgrab.Stdio.{set_errno}
use libstatgrab.Vector.{SgVector, VecPtr, null, live, dangling, sg_vector_resize, sg_vector_free}
use libstatgrab.Vector.Grow.{IsValid}
use libstatgrab.Vector.Resize.{resize_zero}
use libstatgrab.Vector.Append.{vector_update, update_end, create_or_resize}
use libstatgrab.Vector.Append.Growth.{Room, Room-Fits, all_made}
use libstatgrab.Vector.Append.Plenty.{Holds}
use libstatgrab.Disk.{FsStats, sg_fs_stats_item_init, sg_fs_stats_vector_init_info}
use libstatgrab.Disk.Mounts.{
  MountTable, table, no_table, Link, VfsAnswer, marked_items, mark_valid, count_marked, stats_done,
  sg_get_fs_list_int, sg_get_fs_stats_int,
}
use libstatgrab.Disk.Mounts.Stored.{Statted, Statted-from, none_marked, some_marked}
use libstatgrab.Disk.Filesystems.Search.{IsSorted}
use libstatgrab.Disk.Mounts.Links.{Resolves}
use libstatgrab.Disk.Mounts.Table.{fs_list-plenty}
use libstatgrab.Disk.Mounts.Copied.{picked, length-picked, no_items, wanted, mark_valid-picked}

length-all_made :
    {R V : Type 0} → (made : R → Option V) (rs : List R) → length (all_made made rs) ≤ length rs
length-all_made made [] = omega arith
length-all_made made (r ∷ rs) = elim (Option-cases (made r)) [
  | inl e ↦ rw e (omega (arith, length-all_made made rs))
  | inr (y, e) ↦ rw e (omega (arith, length-all_made made rs))
]

module _ (link : Bytes → Link) (statvfs : Option Bytes → VfsAnswer) (names : List Bytes)
    (raw : FsStats) (now later : ℕ) where
  marked_items-held :
      (rc : SgError) (p : VecPtr FsStats) (n : ℕ) (ds : List FsStats) (w : World)
      → no_error rc ≡ true
      → Holds (sg_fs_stats_vector_init_info raw) sg_fs_stats_item_init refl 0 p n ds
      → marked_items statvfs later names rc p w ≡ mark_valid statvfs later names ds w
  unfolding mark_valid
  marked_items-held rc null n ds w ok (_, empty, _) = rw empty
  marked_items-held rc (live v) n ds w ok held = rw (ok, held.4)
  marked_items-held rc dangling n ds w ok held = absurd held

  -- The items with bits, whether there are any or not.
  all_marked :
      (tmp : VecPtr FsStats) (k : ℕ) (ds : List FsStats) (marked : List (Bool × FsStats))
      (v : SgVector FsStats) (w : World)
      → Holds (sg_fs_stats_vector_init_info raw) sg_fs_stats_item_init refl 0 tmp k ds
      → w.oom ≡ []
      → IsValid v
      → v.info ≡ sg_fs_stats_vector_init_info raw
      → (n : ℕ) → count_marked marked ≤ n
      → Room v.block_shift n 160
      → Statted (picked marked) w (
          stats_done error_none tmp marked (
            vector_update
              (sg_fs_stats_vector_init_info raw)
              (count_marked marked)
              (count_marked marked == 0)
              (live v)
              w))
  all_marked tmp k ds marked v w held h valid same n le room =
      elim (Bool-cases (count_marked marked == 0)) [
        | inl e ↦
            let zero_there = (==_iff (count_marked marked) 0).0 e in
            subst
              (λ c. Statted (picked marked) w (
                stats_done error_none tmp marked
                  (vector_update (sg_fs_stats_vector_init_info raw) c (c == 0) (live v) w)))
              (sym zero_there)
              (none_marked raw tmp k ds marked v w held valid
                (no_items (picked marked) (length-picked marked ∙ zero_there)))
        | inr e ↦
            some_marked raw tmp k ds marked (count_marked marked == 0) v w held h valid same
              (Room-Fits v.block_shift (count_marked marked) n 160 (ground (arith, e)) le room)
      ]

  all_listed :
      (t : MountTable) (v : SgVector FsStats) (w : World)
      → IsSorted names
      → Resolves link
      → t.read_error ≡ none
      → w.oom ≡ []
      → Room 0 (length t.entries) 160
      → IsValid v
      → v.info ≡ sg_fs_stats_vector_init_info raw
      → Room v.block_shift (length t.entries) 160
      → Statted
          (all_made (wanted link statvfs names raw later) t.entries)
          w
          (sg_get_fs_stats_int link statvfs names raw now later (table t) (live v) w)
  unfolding sg_get_fs_stats_int
  all_listed t v w sorted real ended h room valid same room_v =
      let (rc, tmp, w1) = sg_get_fs_list_int link raw now (table t) null w in
      let ys = all_made (wanted link statvfs names raw later) t.entries in
      let (ok, oom, fault, (ds, n, all, held)) =
        fs_list-plenty link raw now t w real ended h room in
      let marked = (mark_valid statvfs later names ds w1).0 in
      let w2 = (mark_valid statvfs later names ds w1).1 in
      let (same_items, oom2, fault2) =
        mark_valid-picked link statvfs names raw later ds t.entries w1 sorted all in
      let fewer : count_marked marked ≤ length t.entries = omega (
        arith,
        length-picked marked,
        ap length same_items,
        length-all_made (wanted link statvfs names raw later) t.entries,
      ) in
      let stat =
        all_marked tmp n ds marked v w2 held (oom2 ∙ oom) valid same (length t.entries) fewer
          room_v in
      rw (marked_items-held rc tmp n ds w1 (ap no_error ok) held, ok)
        (Statted-from ys (picked marked) w w2
          (stats_done error_none tmp marked (
            vector_update (sg_fs_stats_vector_init_info raw) (count_marked marked)
              (count_marked marked == 0) (live v) w2))
          (sym same_items) (fault2 ∙ fault) stat)

  no_table_lem :
      (e : ℕ) (v : SgVector FsStats) (w : World)
      → IsValid v
      → let (rc, p, w') =
          sg_get_fs_stats_int link statvfs names raw now later (no_table e) (live v) w in
        (rc ≡ error_setmntent) × (p ≡ null) × (sg_get_error w' ≡ error_none)
  unfolding sg_get_fs_stats_int sg_get_fs_list_int stats_done vector_update create_or_resize
      update_end sg_vector_resize sg_vector_free sg_set_error_with_errno_fmt sg_set_error_int
  no_table_lem e v w valid = (
    refl,
    refl,
    (resize_zero v (sg_set_error_with_errno_fmt error_setmntent none (set_errno e w)).1 valid).1,
  )

  -- `sg_get_fs_stats_int` where memory is plenty, the list of types is sorted, the table of mounts is opened and
  -- read to its end, what `realpath` gives is no symbolic link and fits in its buffer, and there is room for all entries: no
  -- error is returned, and the vector that was there gets one item for every entry whose type is one of the
  -- list, whatever their case, and of which `statvfs64` tells, in the order of the table, with its names, the
  -- resolved name of the device, the blocks and inodes of the answer of `statvfs64`, what is used as their
  -- difference, and the bytes as so many blocks of `f_frsize`, as 64-bit words. Where there is no such entry, the vector is freed. Where the table
  -- is not opened, `SG_ERROR_SETMNTENT` is returned, but the vector is freed and the error cleared.
  pub fs_stats_lem :
      (t : MountTable) (e : ℕ) (v : SgVector FsStats) (w : World)
      → IsSorted names
      → Resolves link
      → t.read_error ≡ none
      → w.oom ≡ []
      → Room 0 (length t.entries) 160
      → IsValid v
      → v.info ≡ sg_fs_stats_vector_init_info raw
      → Room v.block_shift (length t.entries) 160
      → Statted
          (all_made (wanted link statvfs names raw later) t.entries)
          w
          (sg_get_fs_stats_int link statvfs names raw now later (table t) (live v) w)
        × (let (rc, p, w') =
              sg_get_fs_stats_int link statvfs names raw now later (no_table e) (live v) w in
            (rc ≡ error_setmntent) × (p ≡ null) × (sg_get_error w' ≡ error_none))
  unfolding sg_get_fs_stats_int
  fs_stats_lem t e v w sorted real ended h room valid same room_v =
      (all_listed t v w sorted real ended h room valid same room_v, no_table_lem e v w valid)
