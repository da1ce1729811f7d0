-- ===== src/Vector/Resize.antt =====
-- `sg_vector_resize`, `sg_vector_clear` and `sg_vector_free` on valid vectors.
use libstatgrab.Base.{
  ℕ, ◌-◌, ◌^◌, ◌≤◌, ◌<◌, ◌≡◌, refl, ap, subst, sym, ◌∙◌, arith, min, List, false, ◌⊎◌, inl, inr,
  ◌==◌, ==_iff, Bool-cases, length, take, length-replicate, length-append, length-take, take-append,
  take-take, replicate,
}
use libstatgrab.Error.{World, sg_get_error}
use libstatgrab.Error.Slot.{clear-get}
use libstatgrab.Error.Codes.{error_malloc, error_none}
use libstatgrab.Tools.Alloc.{sg_realloc, realloc-fault, realloc-error}
use libstatgrab.Vector.{
  SgVector, VectorInfo, VecPtr, null, live, sg_vector_destroy_unused, sg_vector_init_new,
  sg_vector_free, sg_vector_clear, sg_vector_resize, resize_live, resize_block, init_rest, regrow,
  next_power2_in, block_size, items_of_block,
}
use libstatgrab.Vector.Grow.{
  IsValid, SameBlock, Initialised, Fits, block_room, destroy_unused_lem, init_new_lem,
}

module _ {T : Type 0} where
  -- Freeing a vector that is within its block touches nothing outside.
  pub free_lem :
      (v : SgVector T) (w : World) → v.used_count ≤ length v.cells → sg_vector_free (live v) w ≡ w
  unfolding sg_vector_free
  free_lem v w h = (destroy_unused_lem v 0 w h).0

  pub regrow_lem :
      (n : ℕ) (raw : T) (cells : List T)
      → (length (regrow n raw cells) ≡ n)
        × ((k : ℕ) → k ≤ n → k ≤ length cells → take k (regrow n raw cells) ≡ take k cells)
  regrow_lem n raw cells = (
    omega (
      arith,
      length-append (take n cells) (replicate (n - length cells) raw),
      length-take n cells,
      length-replicate (n - length cells) raw,
    ),
    λ k h g.
        take-append k (take n cells) (replicate (n - length cells) raw)
          (omega (arith, length-take n cells))
        ∙ take-take k n cells h,
  )

  -- The outcome of resizing `v` to `n` items.
  abbrev pub Resized : SgVector T → ℕ → World → VecPtr T × World → Type 0
  Resized v n w out =
      (out.1.fault ≡ w.fault)
      × (((out.0 ≡ null) × (sg_get_error out.1 ≡ error_malloc))
          ⊎ ((v' : SgVector T) × (out.0 ≡ live v')
              × IsValid v'
              × (v'.used_count ≡ n)
              × (v'.info ≡ v.info)
              × (v'.block_shift ≡ v.block_shift)
              × (take (min n v.used_count) v'.cells ≡ take (min n v.used_count) v.cells)
              × Initialised v' v.used_count n))

  -- The last step: the vector has its block, and `min n v.used_count` items that are kept.
  init_rest_lem :
      (v u : SgVector T) (n : ℕ) (w w' : World)
      → w'.fault ≡ w.fault
      → u.used_count ≡ min n v.used_count
      → u.info ≡ v.info
      → u.block_shift ≡ v.block_shift
      → n ≤ length u.cells
      → u.alloc_count ≤ length u.cells
      → 0 < v.info.item_size
      → take (min n v.used_count) u.cells ≡ take (min n v.used_count) v.cells
      → Resized v n w (init_rest n (live u, w'))
  unfolding init_rest
  init_rest_lem v u n w w' fault count info shift room alloc sized kept =
      let (same, used, block, low, fresh) = init_new_lem u n w' (omega arith) room in
      (
        ap (λ (x : World). x.fault) same ∙ fault,
        inr (
          (sg_vector_init_new u n w').0,
          refl,
          record {
            used_in = omega (arith, used, block);
            alloc_in = omega (arith, block);
            sized =
                subst (λ (i : VectorInfo T). 0 < i.item_size) (sym (block.info_kept ∙ info)) sized;
          },
          used,
          block.info_kept ∙ info,
          block.shift_kept ∙ shift,
          subst (λ (k : ℕ). take k (sg_vector_init_new u n w').0.cells ≡ take k u.cells) count low
              ∙ kept,
          λ f j g a b. fresh f j g (omega arith) b,
        ),
      )

  keep_fewer : (k n : ℕ) (xs ys : List T) → k ≤ n → take n xs ≡ take n ys → take k xs ≡ take k ys
  keep_fewer k n xs ys h e = sym (take-take k n xs h) ∙ ap (take k) e ∙ take-take k n ys h

  -- The block is replaced by one for `next_power2_in n`, and the rest of the steps follow.
  resize_block_lem :
      (v u : SgVector T) (n : ℕ) (w : World)
      → Fits v.block_shift n v.info.item_size
      → 0 < v.info.item_size
      → u.used_count ≡ min n v.used_count
      → u.used_count ≤ length u.cells
      → u.info ≡ v.info
      → u.block_shift ≡ v.block_shift
      → take (min n v.used_count) u.cells ≡ take (min n v.used_count) v.cells
      → Resized v n w (init_rest n (resize_block u (next_power2_in n v.block_shift) w))
  unfolding resize_block init_rest
  resize_block_lem v u n w fits sized count inside info shift kept =
      let r = next_power2_in n v.block_shift in
      let size = block_size r u.info.item_size in
      let f = realloc-fault size w in
      let (room, enough, power, some_bytes, some_round) =
        subst
          (λ (i : VectorInfo T).
            (items_of_block (block_size r i.item_size) i.item_size ≡ r)
            × (n ≤ r)
            × (2 ^ v.block_shift ≤ r)
            × ((block_size r i.item_size == 0) ≡ false)
            × ((r == 0) ≡ false))
          (sym info) (block_room v.block_shift n v.info.item_size fits) in
      let (l, k) = regrow_lem (items_of_block size u.info.item_size) u.info.raw u.cells in
      elim (Bool-cases (sg_realloc size w).0) [
        | inl ok ↦ rw ok (
            init_rest_lem v _ n w (sg_realloc size w).1 f count info shift (omega (arith, l, room))
              (omega (arith, l, room)) sized
              (k (min n v.used_count) (omega (arith, room)) (omega arith) ∙ kept))
        | inr refused ↦
            let freed = free_lem u (sg_realloc size w).1 inside in
            rw (refused, some_round, some_bytes)
              (
                ap (λ (x : World). x.fault) freed ∙ f,
                inl (refl, ap sg_get_error freed ∙ realloc-error size w some_bytes refused),
              )
      ]

  -- `sg_vector_resize` of a valid vector to one item or more that a block can hold: it returns NULL
  -- with `SG_ERROR_MALLOC` set, or a valid vector with exactly `n` items, of which those that were
  -- there before are kept and the others are initialised. Nothing outside of a block is touched.
  pub resize_lem :
      (v : SgVector T) (n : ℕ) (w : World)
      → IsValid v
      → Fits v.block_shift n v.info.item_size
      → Resized v n w (sg_vector_resize (live v) n w)
  unfolding sg_vector_resize resize_live
  resize_lem v n w valid fits =
      let (same, count, block, kept) = destroy_unused_lem v n w valid.used_in in
      let r = next_power2_in n v.block_shift in
      let v1 = (sg_vector_destroy_unused v n w).0 in
      let w1 = (sg_vector_destroy_unused v n w).1 in
      let (_, enough, power, _, _) = block_room v.block_shift n v.info.item_size fits in
      let low = keep_fewer (min n v.used_count) n v1.cells v.cells (omega arith) kept in
      let inside : v1.used_count ≤ length v1.cells = omega (arith, count, block, valid) in
      let some_n : (n == 0) ≡ false = ground (arith, fits.some_items) in
      rw some_n (elim (Bool-cases (r == v.alloc_count)) [
        | inl fit ↦ rw fit (
            init_rest_lem v v1 n w w1 (ap (λ (x : World). x.fault) same) count block.info_kept
              block.shift_kept (omega (arith, block, valid, enough, (==_iff r v.alloc_count).0 fit))
              (omega (arith, block, valid)) valid.sized low)
        | inr other ↦ rw other (
            subst (λ (x : World). Resized v n x (init_rest n (resize_block v1 r w1))) same
              (resize_block_lem v v1 n w1 fits valid.sized count inside block.info_kept
                block.shift_kept low))
      ])

  -- `sg_vector_resize` to no items frees the vector, clears the error and returns NULL.
  pub resize_zero :
      (v : SgVector T) (w : World)
      → IsValid v
      → let (p, w') = sg_vector_resize (live v) 0 w in
        (p ≡ null) × (sg_get_error w' ≡ error_none) × (w'.fault ≡ w.fault)
  unfolding sg_vector_resize
  resize_zero v w valid =
      let (none_set, _, _, rest) = clear-get (sg_vector_free (live v) w) in
      (refl, none_set, rest.fault_kept ∙ ap (λ (x : World). x.fault) (free_lem v w valid.used_in))

  -- `sg_vector_clear` of a valid vector keeps it valid and its block as it is, leaves no item in
  -- use, and touches nothing outside of the block.
  pub clear_lem :
      (v : SgVector T) (w : World)
      → IsValid v
      → let v' = (sg_vector_destroy_unused v 0 w).0 in
        (sg_vector_clear (live v) w ≡ (live v', w))
        × IsValid v'
        × (v'.used_count ≡ 0)
        × SameBlock v v'
  unfolding sg_vector_clear
  clear_lem v w valid =
      let (same, count, block, _) = destroy_unused_lem v 0 w valid.used_in in
      (
        ap (λ (x : World). (live (sg_vector_destroy_unused v 0 w).0, x)) same,
        record {
          used_in = omega (arith, count);
          alloc_in = omega (arith, block, valid);
          sized = subst (λ (i : VectorInfo T). 0 < i.item_size) (sym block.info_kept) valid.sized;
        },
        omega (arith, count),
        block,
      )
