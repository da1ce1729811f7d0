-- ===== src/Vector.antt =====
-- src/libstatgrab/vector.c and vector.h: vectors of items behind a header, in a build with NDEBUG,
-- where `sg_prove_vector` and `sg_prove_vector_compat` always succeed. The children define cloning
-- and differences, and hold the proofs.
pub mod Clone
pub mod Diff
pub mod Sizes
pub mod Cells
pub mod Grow
pub mod Resize
pub mod Plenty
pub mod Copies
pub mod Matching
pub mod Into
pub mod Differences
pub mod Append
mod Tests
use libstatgrab.Base.{
  ℕ, zero, suc, ◌+◌, ◌-◌, ◌*◌, ◌/◌, ◌%◌, ◌^◌, max, Bool, true, false, List, Option, none, some,
  ◌++◌, Ordering, length, modify, take, replicate, ltb, ◌==◌, if◌then◌else◌, not, ◌&&◌,
}
use libstatgrab.Base.Word.{u64_mod, add64, sub64, mul64}
use libstatgrab.Base.Bytes.{codes}
use libstatgrab.Error.{World, sg_clear_error, sg_set_error_fmt}
use libstatgrab.Error.Codes.{SgError, error_invalid_argument}
use libstatgrab.Tools.Alloc.{sg_realloc}

-- `sg_vector_init_info` with its function pointers, `none` for NULL. `raw` is what a fresh block
-- holds where an item will stand.
pub record VectorInfo (T : Type 0) : Type 0 where
  pub item_size : ℕ
  pub init_fn : Option (T → T)
  pub copy_fn : Option (T → T → World → SgError × T × World)
  pub compute_diff_fn : Option (T → T → T)
  pub compare_fn : Option (T → T → Ordering)
  pub destroy_fn : Option (T → T)
  pub raw : T

-- `struct sg_vector` and the cells behind it, as many as the block really has room for.
pub record SgVector (T : Type 0) : Type 0 where
  pub used_count : ℕ
  pub alloc_count : ℕ
  pub block_shift : ℕ
  pub info : VectorInfo T
  pub cells : List T

-- A pointer to a vector. A dangling one is not NULL, and its vector is freed.
pub data VecPtr (T : Type 0) : Type 0 where
  null : VecPtr T
  live : SgVector T → VecPtr T
  dangling : VecPtr T

abbrev pub faulted : World → World
faulted w = record w { fault = true }

-- `VECTOR_SIZE` on an LP64 machine: three counters, `sg_vector_init_info`.
abbrev pub vector_size : ℕ
vector_size = 72

-- The size of a block for `round_count` items, and the items that a block of some size holds.
abbrev pub block_size : ℕ → ℕ → ℕ
block_size round_count item_size = add64 vector_size (mul64 round_count item_size)

abbrev pub items_of_block : ℕ → ℕ → ℕ
items_of_block size item_size = (size - vector_size) / item_size

-- `NEXT_POWER2_IN(x, bs)`
unfoldable pub next_power2_in : ℕ → ℕ → ℕ
next_power2_in x bs = mul64 (add64 (sub64 x 1 / 2 ^ bs) 1) (2 ^ bs)

-- `while( ((unsigned)1 << block_shift) < block_size ) ++block_shift;`. The fuel is the width of
-- `unsigned`: a longer run would shift by its width.
unfoldable pub shift_loop : ℕ → ℕ → ℕ → ℕ
shift_loop zero block_shift size = block_shift
shift_loop (suc fuel) block_shift size =
    let more = shift_loop fuel (block_shift + 1) size in
    if ltb (2 ^ block_shift) size then more else block_shift

module _ {T : Type 0} where
  -- A call of `init_fn` or `destroy_fn` on the item at `i`.
  unfoldable pub touch : (T → T) → ℕ → List T → World → List T × World
  touch f i cells w = if ltb i (length cells) then (modify cells i f, w) else (cells, faulted w)

  -- `while( i > new_count ) { --i; destroy_fn(…); }`, with `k` items left.
  unfoldable pub destroy_loop : (T → T) → ℕ → ℕ → List T → World → List T × World
  destroy_loop f zero new_count cells w = (cells, w)
  destroy_loop f (suc k) new_count cells w =
      let (cells', w') = touch f (new_count + k) cells w in destroy_loop f k new_count cells' w'

  -- `for( i = used_count; i < new_count; ++i ) init_fn(…);`, with `k` items left.
  unfoldable pub init_loop : (T → T) → ℕ → ℕ → List T → World → List T × World
  init_loop f zero i cells w = (cells, w)
  init_loop f (suc k) i cells w =
      let (cells', w') = touch f i cells w in init_loop f k (i + 1) cells' w'

  -- The loop where the function pointer is there.
  unfoldable pub destroy_items : Option (T → T) → ℕ → ℕ → List T → World → List T × World
  destroy_items none k new_count cells w = (cells, w)
  destroy_items (some f) k new_count cells w = destroy_loop f k new_count cells w

  unfoldable pub init_items : Option (T → T) → ℕ → ℕ → List T → World → List T × World
  init_items none k i cells w = (cells, w)
  init_items (some f) k i cells w = init_loop f k i cells w

  unfoldable pub sg_vector_destroy_unused : SgVector T → ℕ → World → SgVector T × World
  sg_vector_destroy_unused v new_count w =
      let (cells, w') =
        destroy_items v.info.destroy_fn (v.used_count - new_count) new_count v.cells w in
      if ltb new_count v.used_count
      then (record v { used_count = new_count; cells = cells }, w')
      else (v, w)

  unfoldable pub sg_vector_init_new : SgVector T → ℕ → World → SgVector T × World
  sg_vector_init_new v new_count w =
      let (cells, w') =
        init_items v.info.init_fn (new_count - v.used_count) v.used_count v.cells w in
      if ltb v.used_count new_count
      then (record v { used_count = new_count; cells = cells }, w')
      else (v, w)

  -- The header as `sg_vector_create_int` fills it in.
  abbrev pub new_vector : ℕ → ℕ → VectorInfo T → SgVector T
  new_vector block_shift size info = record {
    used_count = 0;
    alloc_count = 2 ^ block_shift;
    block_shift = block_shift;
    info = info;
    cells = replicate (items_of_block size info.item_size) info.raw;
  }

  unfoldable pub sg_vector_create_int : ℕ → ℕ → ℕ → VectorInfo T → World → VecPtr T × World
  sg_vector_create_int block_shift alloc_count initial_used info w =
      let round_count = next_power2_in (max alloc_count initial_used) block_shift in
      let size = block_size round_count info.item_size in
      let (ok, w1) = sg_realloc size w in
      if ok
      then (let (v, w2) = sg_vector_init_new (new_vector block_shift size info) initial_used w1 in
          (live v, w2))
      else (null, w1)

  unfoldable pub sg_vector_create : ℕ → ℕ → ℕ → VectorInfo T → World → VecPtr T × World
  sg_vector_create size alloc_count initial_used info w =
      sg_vector_create_int (shift_loop 32 0 size) alloc_count initial_used info w

  -- `free` of the vector itself leaves nothing to see but the world.
  unfoldable pub sg_vector_free : VecPtr T → World → World
  sg_vector_free null w = w
  sg_vector_free (live v) w = (sg_vector_destroy_unused v 0 w).1
  sg_vector_free dangling w = faulted w

  unfoldable pub sg_vector_clear : VecPtr T → World → VecPtr T × World
  sg_vector_clear null w = (null, w)
  sg_vector_clear (live v) w = let (v', w') = sg_vector_destroy_unused v 0 w in (live v', w')
  sg_vector_clear dangling w = (dangling, faulted w)

  -- What `realloc` leaves in a block for `n` items: the old items that fit, then fresh memory.
  abbrev pub regrow : ℕ → T → List T → List T
  regrow n raw cells = take n cells ++ replicate (n - length cells) raw

  -- The resizing step of `sg_vector_resize`. A refused block for no items gives a NULL that is
  -- followed; `sg_realloc` has freed the vector already where the size wraps to 0.
  unfoldable pub resize_block : SgVector T → ℕ → World → VecPtr T × World
  resize_block v round_count w =
      let size = block_size round_count v.info.item_size in
      let (ok, w') = sg_realloc size w in
      if ok
      then (
        live (record v {
          alloc_count = round_count;
          cells = regrow (items_of_block size v.info.item_size) v.info.raw v.cells;
        }),
        w',
      )
      else if round_count == 0
      then (null, faulted w')
      else (null, sg_vector_free (if size == 0 then dangling else live v) w')

  unfoldable pub init_rest : ℕ → VecPtr T × World → VecPtr T × World
  init_rest new_count (null, w) = (null, w)
  init_rest new_count (live v, w) = let (v', w') = sg_vector_init_new v new_count w in (live v', w')
  init_rest new_count (dangling, w) = (dangling, w)

  unfoldable pub resize_live : SgVector T → ℕ → World → VecPtr T × World
  resize_live v new_count w =
      let (v1, w1) = sg_vector_destroy_unused v new_count w in
      let round_count = next_power2_in new_count v.block_shift in
      init_rest new_count
        (if round_count == v.alloc_count then (live v1, w1) else resize_block v1 round_count w1)

  -- `sg_vector_resize`; the result is the new pointer.
  unfoldable pub sg_vector_resize : VecPtr T → ℕ → World → VecPtr T × World
  sg_vector_resize null new_count w = (
    null,
    (sg_set_error_fmt error_invalid_argument
        (some (codes "sg_vector_resize: invalid argument value for vector")) w).1,
  )
  sg_vector_resize (live v) new_count w =
      if new_count == 0
      then (null, sg_clear_error (sg_vector_free (live v) w))
      else resize_live v new_count w
  sg_vector_resize dangling new_count w = (dangling, faulted w)

  -- `VECTOR_ITEM_COUNT` and `sg_get_nelements`
  abbrev pub sg_get_nelements : VecPtr T → ℕ
  sg_get_nelements null = 0
  sg_get_nelements (live v) = v.used_count
  sg_get_nelements dangling = 0

  -- `sg_free_stats_buf`
  unfoldable pub sg_free_stats_buf : VecPtr T → World → World
  sg_free_stats_buf p w = sg_vector_free p w
