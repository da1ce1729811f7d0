-- ===== src/Vector/Plenty.antt =====
-- Vectors where memory is plenty: `sg_vector_create` and `sg_vector_resize` give a vector, and leave
-- the world as it is.
use native.Mathlib.Nat.{le-max_right}
use mathlib.Core.Path.{ap₂}
use libstatgrab.Base.{
  ℕ, ◌≤◌, ◌≡◌, ap, sym, subst, ◌∙◌, arith, max, min, take, [], false, length, inl, inr, ◌==◌,
  ==_iff, Bool-cases,
}
use libstatgrab.Error.{World}
use libstatgrab.Tools.Alloc.{realloc-plenty}
use libstatgrab.Vector.{
  SgVector, VectorInfo, VecPtr, null, live, sg_vector_destroy_unused, sg_vector_init_new,
  sg_vector_create_int, sg_vector_resize, resize_live, resize_block, init_rest, regrow, new_vector,
  next_power2_in, block_size, items_of_block,
}
use libstatgrab.Vector.Grow.{
  IsValid, Initialised, Fits, block_room, destroy_unused_lem, init_new_lem, new_vector_lem,
}
use libstatgrab.Vector.Resize.{Resized, resize_lem, regrow_lem}

module _ {T : Type 0} where
  init_rest-plenty :
      (u : SgVector T) (n : ℕ) (w : World)
      → u.used_count ≤ n
      → n ≤ length u.cells
      → (v' : SgVector T) × (init_rest n (live u, w) ≡ (live v', w))
  unfolding init_rest
  init_rest-plenty u n w le room =
      let same = (init_new_lem u n w le room).0 in
      (
        (sg_vector_init_new u n w).0,
        ap (λ (x : World). (live (sg_vector_init_new u n w).0, x)) same,
      )

  resize_block-plenty :
      (v u : SgVector T) (n : ℕ) (w : World)
      → w.oom ≡ []
      → Fits v.block_shift n v.info.item_size
      → u.info ≡ v.info
      → u.used_count ≤ n
      → (v' : SgVector T) × (init_rest n (resize_block u (next_power2_in n v.block_shift) w)
          ≡ (live v', w))
  unfolding resize_block
  resize_block-plenty v u n w h fits info le =
      let fits_u : Fits v.block_shift n u.info.item_size =
        subst (λ (i : VectorInfo T). Fits v.block_shift n i.item_size) (sym info) fits in
      let (room, enough, power, some_bytes, some_round) =
        block_room v.block_shift n u.info.item_size fits_u in
      let r = next_power2_in n v.block_shift in
      let size = block_size r u.info.item_size in
      let (l, _) = regrow_lem (items_of_block size u.info.item_size) u.info.raw u.cells in
      let grown : SgVector T = record u {
        alloc_count = r;
        cells = regrow (items_of_block size u.info.item_size) u.info.raw u.cells;
      } in
      rw (realloc-plenty size w some_bytes h)
        (init_rest-plenty grown n w le (omega (arith, l, room)))

  live_resized :
      (v : SgVector T) (n : ℕ) (w : World)
      → w.oom ≡ []
      → IsValid v
      → Fits v.block_shift n v.info.item_size
      → (v' : SgVector T) × (sg_vector_resize (live v) n w ≡ (live v', w))
  unfolding sg_vector_resize resize_live
  live_resized v n w h valid fits =
      let (same, count, block, kept) = destroy_unused_lem v n w valid.used_in in
      let r = next_power2_in n v.block_shift in
      let v1 = (sg_vector_destroy_unused v n w).0 in
      let (_, enough, power, _, _) = block_room v.block_shift n v.info.item_size fits in
      let le : v1.used_count ≤ n = omega (arith, count) in
      let some_n : (n == 0) ≡ false = ground (arith, fits.some_items) in
      rw (some_n, same)
        (elim (Bool-cases (r == v.alloc_count)) [
          | inl fit ↦ rw fit (
              init_rest-plenty v1 n w le
                (omega (arith, block, valid, enough, (==_iff r v.alloc_count).0 fit)))
          | inr other ↦ rw other (resize_block-plenty v v1 n w h fits block.info_kept le)
        ])

  -- A vector after an operation that leaves the world.
  abbrev pub LiveFrom : SgVector T → ℕ → World → VecPtr T × World → Type 0
  LiveFrom v n w out =
      (v' : SgVector T) × (out ≡ (live v', w))
      × IsValid v'
      × (v'.used_count ≡ n)
      × (v'.info ≡ v.info)
      × (v'.block_shift ≡ v.block_shift)
      × (take (min n v.used_count) v'.cells ≡ take (min n v.used_count) v.cells)
      × Initialised v' v.used_count n

  Resized-LiveFrom :
      (v u : SgVector T) (n : ℕ) (w : World) (out : VecPtr T × World)
      → out ≡ (live u, w)
      → Resized v n w out
      → LiveFrom v n w out
  Resized-LiveFrom v u n w out is (fault, inl (gone, error)) =
      let e : live u ≡ null = sym (ap (λ (o : VecPtr T × World). o.0) is) ∙ gone in cc
  Resized-LiveFrom v u n w out is (fault, inr (v', e, valid, used, info, shift, kept, fresh)) = (
    v',
    ap₂ (λ p x. (p, x)) e (ap (λ (o : VecPtr T × World). o.1) is),
    valid,
    used,
    info,
    shift,
    kept,
    fresh,
  )

  -- `sg_vector_resize` to one item or more.
  pub resize-plenty :
      (v : SgVector T) (n : ℕ) (w : World)
      → w.oom ≡ []
      → IsValid v
      → Fits v.block_shift n v.info.item_size
      → LiveFrom v n w (sg_vector_resize (live v) n w)
  resize-plenty v n w h valid fits =
      let (u, is) = live_resized v n w h valid fits in
      Resized-LiveFrom v u n w _ is (resize_lem v n w valid fits)

  -- `sg_vector_create_int`
  pub create-plenty :
      (bs alloc used : ℕ) (info : VectorInfo T) (w : World)
      → w.oom ≡ []
      → Fits bs (max alloc used) info.item_size
      → (v : SgVector T) × (sg_vector_create_int bs alloc used info w ≡ (live v, w))
        × IsValid v
        × (v.used_count ≡ used)
        × (v.info ≡ info)
        × (v.block_shift ≡ bs)
        × Initialised v 0 used
  unfolding sg_vector_create_int
  create-plenty bs alloc used info w h fits =
      let (room, enough, power, some_bytes, _) =
        block_room bs (max alloc used) info.item_size fits in
      let size = block_size (next_power2_in (max alloc used) bs) info.item_size in
      let (same, valid, count, many, kept, shift, fresh) =
        new_vector_lem bs (max alloc used) used size info w (omega (arith, room))
          (omega (arith, room)) (le-max_right alloc used) fits.item_sized in
      rw (realloc-plenty size w some_bytes h) (
        (sg_vector_init_new (new_vector bs size info) used w).0,
        ap (λ (x : World). (live (sg_vector_init_new (new_vector bs size info) used w).0, x)) same,
        valid,
        count,
        kept,
        shift,
        fresh,
      )
