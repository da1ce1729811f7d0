-- ===== src/Disk/Mounts/Stored.antt =====
-- What `sg_get_fs_stats_int` stores in its vector, once the items with bits are known.
use libstatgrab.Base.{
  ℕ, ◌≡◌, refl, ap, subst, sym, ◌∙◌, arith, List, [], ◌++◌, true, ◌⊎◌, inl, inr, length, take, drop,
  Bool, length-append, length-take, take-append, take-length, length-drop,
}
use libstatgrab.Error.{World}
use libstatgrab.Error.Codes.{SgError, error_none}
use libstatgrab.Vector.{
  SgVector, VectorInfo, VecPtr, null, live, dangling, sg_vector_resize, sg_vector_free,
}
use libstatgrab.Vector.Grow.{IsValid, Fits}
use libstatgrab.Vector.Resize.{free_lem, resize_zero}
use libstatgrab.Vector.Plenty.{resize-plenty}
use libstatgrab.Vector.Diff.{items}
use libstatgrab.Vector.Append.{vector_update, update_end, create_or_resize}
use libstatgrab.Vector.Append.Plenty.{Holds}
use libstatgrab.Disk.{FsStats, sg_fs_stats_item_init, sg_fs_stats_vector_init_info}
use libstatgrab.Disk.Mounts.{count_marked, stats_done}
use libstatgrab.Disk.Mounts.Copied.{picked, length-picked, copy_marked-picked}

-- No error, and the vector has just the items `ys`; for none of them there is no vector.
abbrev pub Statted : List FsStats → World → SgError × VecPtr FsStats × World → Type 0
Statted ys w out =
    (out.0 ≡ error_none)
    × (out.2.fault ≡ w.fault)
    × (((ys ≡ []) × (out.1 ≡ null))
        ⊎ ((v : SgVector FsStats) × (out.1 ≡ live v) × IsValid v × (items v ≡ ys)))

pub Statted-from :
    (ys xs : List FsStats) (w w1 : World) (out : SgError × VecPtr FsStats × World)
    → ys ≡ xs
    → w1.fault ≡ w.fault
    → Statted xs w1 out
    → Statted ys w out
Statted-from ys xs w w1 out same fault (rc, clean, inl (none_there, gone)) =
    (rc, clean ∙ fault, inl (same ∙ none_there, gone))
Statted-from ys xs w w1 out same fault (rc, clean, inr (v, is, valid, has)) =
    (rc, clean ∙ fault, inr (v, is, valid, has ∙ sym same))

module _ (raw : FsStats) where
  -- The list is freed in the end.
  free-held :
      (p : VecPtr FsStats) (n : ℕ) (xs : List FsStats) (w : World)
      → Holds (sg_fs_stats_vector_init_info raw) sg_fs_stats_item_init refl 0 p n xs
      → sg_vector_free p w ≡ w
  unfolding sg_vector_free
  free-held null n xs w held = refl
  free-held (live v) n xs w held = free_lem v w held.0.used_in
  free-held dangling n xs w held = absurd held

  stored_items :
      (v : SgVector FsStats) (xs : List FsStats)
      → IsValid v
      → v.used_count ≡ length xs
      → let v' : SgVector FsStats = record v { cells = xs ++ drop (length xs) v.cells } in
        IsValid v' × (items v' ≡ xs)
  stored_items v xs valid used =
      let size : length (xs ++ drop (length xs) v.cells) ≡ length v.cells = omega (
        arith,
        length-append xs (drop (length xs) v.cells),
        length-drop (length xs) v.cells,
        valid,
        used,
      ) in
      (
        record {
          used_in = omega (arith, size, valid);
          alloc_in = omega (arith, size, valid);
          sized = valid.sized;
        },
        take-append v.used_count xs (drop (length xs) v.cells) (omega (arith, used))
            ∙ take-length v.used_count xs (omega (arith, used)),
      )

  -- No bit is set: VECTOR_UPDATE for no items frees the vector.
  pub none_marked :
      (tmp : VecPtr FsStats) (k : ℕ) (ds : List FsStats) (marked : List (Bool × FsStats))
      (v : SgVector FsStats) (w : World)
      → Holds (sg_fs_stats_vector_init_info raw) sg_fs_stats_item_init refl 0 tmp k ds
      → IsValid v
      → picked marked ≡ []
      → Statted (picked marked) w (
          stats_done error_none tmp marked
            (vector_update (sg_fs_stats_vector_init_info raw) 0 true (live v) w))
  unfolding stats_done vector_update create_or_resize update_end sg_vector_resize
  none_marked tmp k ds marked v w held valid none_there =
      let (_, _, fault) = resize_zero v w valid in
      let freed = free-held tmp k ds (sg_vector_resize (live v) 0 w).1 held in
      (refl, ap (λ (x : World). x.fault) freed ∙ fault, inl (none_there, refl))

  pub some_marked :
      (tmp : VecPtr FsStats) (k : ℕ) (ds : List FsStats) (marked : List (Bool × FsStats))
      (negated : Bool) (v : SgVector FsStats) (w : World)
      → Holds (sg_fs_stats_vector_init_info raw) sg_fs_stats_item_init refl 0 tmp k ds
      → w.oom ≡ []
      → IsValid v
      → v.info ≡ sg_fs_stats_vector_init_info raw
      → Fits v.block_shift (count_marked marked) 160
      → Statted (picked marked) w (
          stats_done error_none tmp marked (
            vector_update
              (sg_fs_stats_vector_init_info raw)
              (count_marked marked)
              negated
              (live v)
              w))
  unfolding stats_done vector_update create_or_resize update_end
  some_marked tmp k ds marked negated v w held h valid same fits =
      let n = count_marked marked in
      let xs = picked marked in
      let fits_v : Fits v.block_shift n v.info.item_size =
        subst (λ (i : VectorInfo FsStats). Fits v.block_shift n i.item_size) (sym same) fits in
      let (u, is, valid_u, used, _, _, _, _) = resize-plenty v n w h valid fits_v in
      let count = length-picked marked in
      let copies =
        copy_marked-picked marked (take n u.cells) w h
          (omega (arith, length-take n u.cells, valid_u, used)) in
      let freed = free-held tmp k ds w held in
      let (valid_end, items_end) = stored_items u xs valid_u (used ∙ sym count) in
      rw (is, copies, freed)
        (
          refl,
          refl,
          inr (
            record u { cells = xs ++ drop n u.cells },
            refl,
            subst (λ k. IsValid (record u { cells = xs ++ drop k u.cells })) count valid_end,
            subst (λ k. items (record u { cells = xs ++ drop k u.cells }) ≡ xs) count items_end,
          ),
        )
