-- ===== src/Vector/Grow.antt =====
-- `sg_vector_destroy_unused`, `sg_vector_init_new` and the creation of vectors keep within the
-- blocks that they have.
use native.Mathlib.Nat.{mod-eq_of_lt, le-max_right}
use libstatgrab.Base.{
  ℕ, ◌+◌, ◌-◌, ◌*◌, ◌^◌, ◌≤◌, ◌<◌, ◌≡◌, refl, ap, subst, sym, ◌∙◌, arith, min, max, List, Option,
  none, some, false, ◌⊎◌, inl, inr, ltb, ltb→lt, ◌==◌, Bool-cases, length, take, get_elem?,
  length-replicate,
}
use libstatgrab.Base.Word.{u64_mod}
use libstatgrab.Error.{World, sg_get_error}
use libstatgrab.Error.Codes.{error_malloc}
use libstatgrab.Tools.Alloc.{sg_realloc, realloc-fault, realloc-error}
use libstatgrab.Vector.{
  SgVector, VectorInfo, VecPtr, null, live, sg_vector_destroy_unused, sg_vector_init_new,
  sg_vector_create_int, sg_vector_create, destroy_items, init_items, new_vector, next_power2_in,
  block_size, items_of_block, vector_size, shift_loop,
}
use libstatgrab.Vector.Sizes.{next_power2_in_lem, items-block, shift_loop_lem}
use libstatgrab.Vector.Cells.{
  init_loop-world, length-init_loop, take-init_loop, get-init_loop, destroy_loop-world,
  length-destroy_loop, take-destroy_loop,
}

-- What keeps a vector inside its block: the items in use, and the count that `sg_vector_resize`
-- trusts when it leaves the block as it is, are no more than the block has room for.
pub record IsValid {T : Type 0} (v : SgVector T) : Type 0 where
  pub used_in : v.used_count ≤ length v.cells
  pub alloc_in : v.alloc_count ≤ length v.cells
  pub sized : 0 < v.info.item_size

-- What `sg_vector_destroy_unused` and `sg_vector_init_new` leave alone.
pub record SameBlock {T : Type 0} (v v' : SgVector T) : Type 0 where
  pub alloc_kept : v'.alloc_count ≡ v.alloc_count
  pub shift_kept : v'.block_shift ≡ v.block_shift
  pub info_kept : v'.info ≡ v.info
  pub room_kept : length v'.cells ≡ length v.cells

-- The items from `i` up to `n` are results of the vector's `init_fn`.
abbrev pub Initialised : {T : Type 0} → SgVector T → ℕ → ℕ → Type 0
Initialised {T} v i n =
    (f : T → T) (j : ℕ)
    → v.info.init_fn ≡ some f
    → i ≤ j
    → j < n
    → (x : T) × (get_elem? v.cells j ≡ some (f x))

-- A block for `n` items, rounded up, is within what `size_t` counts.
pub record Fits (bs n item_size : ℕ) : Type 0 where
  pub some_items : 1 ≤ n
  pub count_fits : n + 2 ^ bs ≤ u64_mod
  pub item_sized : 0 < item_size
  pub bytes_fit : vector_size + (n + 2 ^ bs) * item_size ≤ u64_mod

rounded_bytes :
    (r m s : ℕ) → r < m → 0 < s → vector_size + m * s ≤ u64_mod → vector_size + r * s < u64_mod
rounded_bytes r m s lt pos h = grind arith

block-ne-zero : (r s : ℕ) → vector_size + r * s < u64_mod → (block_size r s == 0) ≡ false
block-ne-zero r s h =
    let e : block_size r s ≡ vector_size + r * s =
      rw (mod-eq_of_lt {n = r * s} {m = u64_mod} (omega arith)) (omega arith) in
    rw e (ground arith)

-- Such a block has room for the rounded count, which is enough.
pub block_room :
    (bs n s : ℕ)
    → Fits bs n s
    → let r = next_power2_in n bs in
      (items_of_block (block_size r s) s ≡ r)
      × (n ≤ r)
      × (2 ^ bs ≤ r)
      × ((block_size r s == 0) ≡ false)
      × ((r == 0) ≡ false)
block_room bs n s fits =
    let (_, enough, power, less) = next_power2_in_lem n bs fits.some_items fits.count_fits in
    let bytes : vector_size + next_power2_in n bs * s < u64_mod =
      rounded_bytes (next_power2_in n bs) (n + 2 ^ bs) s less fits.item_sized fits.bytes_fit in
    (
      items-block (next_power2_in n bs) s fits.item_sized bytes,
      enough,
      power,
      block-ne-zero (next_power2_in n bs) s bytes,
      ground (arith, fits.some_items, enough),
    )

module _ {T : Type 0} where
  destroy_items_lem :
      (o : Option (T → T)) (k n : ℕ) (cells : List T) (w : World)
      → n + k ≤ length cells
      → let (cells', w') = destroy_items o k n cells w in
        (w' ≡ w) × (length cells' ≡ length cells) × (take n cells' ≡ take n cells)
  unfolding destroy_items
  destroy_items_lem none k n cells w h = (refl, refl, refl)
  destroy_items_lem (some f) k n cells w h = (
    destroy_loop-world f k n cells w h,
    length-destroy_loop f k n cells w h,
    take-destroy_loop f k n cells w h,
  )

  init_items_lem :
      (o : Option (T → T)) (k i : ℕ) (cells : List T) (w : World)
      → i + k ≤ length cells
      → let (cells', w') = init_items o k i cells w in
        (w' ≡ w)
        × (length cells' ≡ length cells)
        × (take i cells' ≡ take i cells)
        × ((f : T → T) (j : ℕ)
            → o ≡ some f
            → i ≤ j
            → j < i + k
            → (x : T) × (get_elem? cells' j ≡ some (f x)))
  unfolding init_items
  init_items_lem none k i cells w h = (refl, refl, refl, λ f j e. cc)
  init_items_lem (some g) k i cells w h = (
    init_loop-world g k i cells w h,
    length-init_loop g k i cells w h,
    take-init_loop g i k i cells w h (omega arith),
    λ f j e le lt. let (x, _, r) = get-init_loop g k i j cells w h le lt in (x, cc),
  )

  pub destroy_unused_lem :
      (v : SgVector T) (n : ℕ) (w : World)
      → v.used_count ≤ length v.cells
      → let (v', w') = sg_vector_destroy_unused v n w in
        (w' ≡ w)
        × (v'.used_count ≡ min n v.used_count)
        × SameBlock v v'
        × (take n v'.cells ≡ take n v.cells)
  unfolding sg_vector_destroy_unused
  destroy_unused_lem v n w h = elim (Bool-cases (ltb n v.used_count)) [
    | inl e ↦
        let lt = ltb→lt n v.used_count e in
        let (same, room, kept) =
          destroy_items_lem v.info.destroy_fn (v.used_count - n) n v.cells w (omega arith) in
        rw e (
          same,
          omega arith,
          record { alloc_kept = refl; shift_kept = refl; info_kept = refl; room_kept = room },
          kept,
        )
    | inr e ↦ rw e (
      refl,
      ground arith,
      record { alloc_kept = refl; shift_kept = refl; info_kept = refl; room_kept = refl },
      refl,
    )
  ]

  pub init_new_lem :
      (v : SgVector T) (n : ℕ) (w : World)
      → v.used_count ≤ n
      → n ≤ length v.cells
      → let (v', w') = sg_vector_init_new v n w in
        (w' ≡ w)
        × (v'.used_count ≡ n)
        × SameBlock v v'
        × (take v.used_count v'.cells ≡ take v.used_count v.cells)
        × Initialised v' v.used_count n
  unfolding sg_vector_init_new
  init_new_lem v n w le h = elim (Bool-cases (ltb v.used_count n)) [
    | inl e ↦
        let lt = ltb→lt v.used_count n e in
        let (same, room, kept, fresh) =
          init_items_lem v.info.init_fn (n - v.used_count) v.used_count v.cells w (omega arith) in
        rw e (
          same,
          refl,
          record { alloc_kept = refl; shift_kept = refl; info_kept = refl; room_kept = room },
          kept,
          λ f j g a b. fresh f j g a (omega arith),
        )
    | inr e ↦ rw e (
      refl,
      ground arith,
      record { alloc_kept = refl; shift_kept = refl; info_kept = refl; room_kept = refl },
      refl,
      λ f j g a b. absurd (ground arith),
    )
  ]

  -- The outcome of creating a vector for `initial_used` items in a block for `n` items or more.
  abbrev pub Created : ℕ → ℕ → ℕ → VectorInfo T → World → VecPtr T × World → Type 0
  Created bs n initial_used info w out =
      (out.1.fault ≡ w.fault)
      × (((out.0 ≡ null) × (sg_get_error out.1 ≡ error_malloc))
          ⊎ ((v : SgVector T) × (out.0 ≡ live v)
              × IsValid v
              × (v.used_count ≡ initial_used)
              × (n ≤ length v.cells)
              × (v.info ≡ info)
              × (v.block_shift ≡ bs)
              × Initialised v 0 initial_used))

  pub new_vector_lem :
      (bs n used size : ℕ) (info : VectorInfo T) (w : World)
      → n ≤ items_of_block size info.item_size
      → 2 ^ bs ≤ items_of_block size info.item_size
      → used ≤ n
      → 0 < info.item_size
      → let (v, w') = sg_vector_init_new (new_vector bs size info) used w in
        (w' ≡ w)
        × IsValid v
        × (v.used_count ≡ used)
        × (n ≤ length v.cells)
        × (v.info ≡ info)
        × (v.block_shift ≡ bs)
        × Initialised v 0 used
  new_vector_lem bs n used size info w room power le sized =
      let l = length-replicate (items_of_block size info.item_size) info.raw in
      let (same, count, block, _, fresh) =
        init_new_lem (new_vector bs size info) used w (omega arith) (omega (arith, l)) in
      (
        same,
        record {
          used_in = omega (arith, l, count, block);
          alloc_in = omega (arith, l, block);
          sized = subst (λ (i : VectorInfo T). 0 < i.item_size) (sym block.info_kept) sized;
        },
        count,
        omega (arith, l, block),
        block.info_kept,
        block.shift_kept,
        fresh,
      )

  -- `sg_vector_create_int` for one item or more that a block can hold: it returns NULL with
  -- `SG_ERROR_MALLOC` set, or a valid vector with the items asked for in use, all initialised, and
  -- room for the larger of the two counts; and nothing outside of a block is touched.
  pub create_int_lem :
      (bs alloc used : ℕ) (info : VectorInfo T) (w : World)
      → Fits bs (max alloc used) info.item_size
      → Created bs (max alloc used) used info w (sg_vector_create_int bs alloc used info w)
  unfolding sg_vector_create_int
  create_int_lem bs alloc used info w fits =
      let (room, enough, power, some_bytes, _) =
        block_room bs (max alloc used) info.item_size fits in
      let size = block_size (next_power2_in (max alloc used) bs) info.item_size in
      let f = realloc-fault size w in
      elim (Bool-cases (sg_realloc size w).0) [
        | inl ok ↦
            let (same, valid, count, many, kept, shift, fresh) =
              new_vector_lem bs (max alloc used) used size info (sg_realloc size w).1
                (omega (arith, room)) (omega (arith, room)) (le-max_right alloc used)
                fits.item_sized in
            rw ok (
              ap (λ (u : World). u.fault) same ∙ f,
              inr (_, refl, valid, count, many, kept, shift, fresh),
            )
        | inr refused ↦ rw refused (f, inl (refl, realloc-error size w some_bytes refused))
      ]

  -- `sg_vector_create` for a block size up to 2 ^ 31, and for at least one item that a block can
  -- hold: the shift is the least whose power of 2 reaches the block size, and the call returns NULL
  -- with `SG_ERROR_MALLOC` set or a valid vector with `initial_used` items in use, all of them
  -- initialised, and room for the larger of `alloc_count` and `initial_used`. Nothing outside of a
  -- block is touched.
  pub create_lem :
      (size alloc used : ℕ) (info : VectorInfo T) (w : World)
      → size ≤ 2 ^ 31
      → Fits (shift_loop 32 0 size) (max alloc used) info.item_size
      → let bs = shift_loop 32 0 size in
        (size ≤ 2 ^ bs)
        × ((bs ≡ 0) ⊎ (2 ^ (bs - 1) < size))
        × Created bs (max alloc used) used info w (sg_vector_create size alloc used info w)
  unfolding sg_vector_create
  create_lem size alloc used info w small fits =
      let (_, enough, least) = shift_loop_lem size small in
      (enough, least, create_int_lem (shift_loop 32 0 size) alloc used info w fits)
