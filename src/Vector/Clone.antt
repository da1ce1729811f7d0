-- ===== src/Vector/Clone.antt =====
-- src/libstatgrab/vector.c: `sg_vector_clone_into_int`, `sg_vector_clone_into` and `sg_vector_clone`.
use libstatgrab.Base.{
  ℕ, zero, suc, ◌+◌, List, Option, none, some, get_elem?, modify, ◌==◌, if◌then◌else◌,
}
use libstatgrab.Error.{World, sg_get_error, no_error}
use libstatgrab.Error.Codes.{SgError, error_none}
use libstatgrab.Vector.{
  SgVector, VecPtr, null, live, dangling, faulted, sg_vector_free, sg_vector_resize,
  sg_vector_create_int,
}

abbrev pub CopyFn : Type 0 → Type 0
CopyFn T = T → T → World → SgError × T × World

module _ {T : Type 0} where
  -- `for( i = 0; i < src->used_count; ++i )` with `k` items left. The copy may fail half-way, and
  -- what it has written stays.
  unfoldable pub copy_loop : CopyFn T → ℕ → ℕ → List T → List T → World → SgError × List T × World
  copy_loop copy_fn zero i src dest w = (error_none, dest, w)
  copy_loop copy_fn (suc k) i src dest w = elim (get_elem? src i) [
    | none ↦ (error_none, dest, faulted w)
    | some s ↦ elim (get_elem? dest i) [
      | none ↦ (error_none, dest, faulted w)
      | some d ↦
          let rc = (copy_fn s d w).0 in
          let dest' = modify dest i (λ _. (copy_fn s d w).1) in
          let rest = copy_loop copy_fn k (i + 1) src dest' (copy_fn s d w).2 in
          if no_error rc then rest else (rc, dest', (copy_fn s d w).2)
    ]
  ]

  -- The end of `sg_vector_clone_into_int`: the result, the new `*dest` and the world.
  unfoldable pub copied : SgVector T → SgError × List T × World → SgError × VecPtr T × World
  copied d (rc, cells, w) =
      if no_error rc
      then (error_none, live (record d { cells = cells }), w)
      else (rc, null, sg_vector_free (live (record d { cells = cells })) w)

  unfoldable pub copy_all :
      Option (CopyFn T) → SgVector T → SgVector T → World → SgError × VecPtr T × World
  copy_all (some copy_fn) d src w =
      copied d (copy_loop copy_fn src.used_count 0 src.cells d.cells w)
  copy_all none d src w =
      if src.used_count == 0 then (error_none, live d, w) else (error_none, live d, faulted w)

  -- The body from the test of `tmp` on. Where `sg_vector_resize` has returned NULL it has freed the
  -- vector, but `*dest` still points there.
  unfoldable pub clone_items : VecPtr T → SgVector T → World → SgError × VecPtr T × World
  clone_items null src w = (sg_get_error w, dangling, w)
  clone_items (live d) src w = copy_all src.info.copy_fn d src w
  clone_items dangling src w = (error_none, dangling, faulted w)

  unfoldable pub sg_vector_clone_into_int :
      SgVector T → SgVector T → World → SgError × VecPtr T × World
  sg_vector_clone_into_int dest src w =
      let (tmp, w1) =
        (if dest.used_count == src.used_count
          then (live dest, w)
          else sg_vector_resize (live dest) src.used_count w) in
      clone_items tmp src w1

  -- `sg_vector_clone`: the new vector, NULL on failure.
  unfoldable pub clone_created : SgVector T → VecPtr T × World → VecPtr T × World
  clone_created src (null, w) = (null, w)
  clone_created src (live d, w) =
      let (rc, p, w1) = sg_vector_clone_into_int d src w in
      if no_error rc then (p, w1) else (null, sg_vector_free p w1)
  clone_created src (dangling, w) = (null, faulted w)

  unfoldable pub sg_vector_clone : VecPtr T → World → VecPtr T × World
  sg_vector_clone null w = (null, w)
  sg_vector_clone (live src) w =
      clone_created src
        (sg_vector_create_int src.block_shift src.alloc_count src.used_count src.info w)
  sg_vector_clone dangling w = (null, faulted w)

  -- The end of `sg_vector_clone_into` after a failure.
  unfoldable pub drop_dest : VecPtr T → World → SgError × VecPtr T × World
  drop_dest p w = (sg_get_error (sg_vector_free p w), null, sg_vector_free p w)

  unfoldable pub clone_new : VecPtr T × World → SgError × VecPtr T × World
  clone_new (null, w) = drop_dest null w
  clone_new (live v, w) = (error_none, live v, w)
  clone_new (dangling, w) = (error_none, dangling, w)

  -- `sg_vector_clone_into(dest, src)` for a `dest` that is not NULL: the result, the new `*dest` and
  -- the world.
  unfoldable pub sg_vector_clone_into : VecPtr T → VecPtr T → World → SgError × VecPtr T × World
  sg_vector_clone_into dest null w = (error_none, null, sg_vector_free dest w)
  sg_vector_clone_into null (live src) w = clone_new (sg_vector_clone (live src) w)
  sg_vector_clone_into (live dest) (live src) w =
      let (rc, p, w1) = sg_vector_clone_into_int dest src w in
      if no_error rc then (error_none, p, w1) else drop_dest p w1
  sg_vector_clone_into dangling (live src) w = (error_none, dangling, faulted w)
  sg_vector_clone_into dest dangling w = (error_none, dest, faulted w)
