-- ===== src/Vector/Diff.antt =====
-- src/libstatgrab/vector.c: `sg_vector_compute_diff`, with the bit array of tools.h.
use libstatgrab.Base.{
  ℕ, zero, suc, ◌+◌, ◌*◌, ◌/◌, Bool, true, false, not, ◌&&◌, List, [], ◌∷◌, ◌++◌, Option, some,
  Ordering, take, drop, modify, replicate, length, ltb, if◌then◌else◌,
}
use libstatgrab.Base.Bytes.{codes}
use libstatgrab.Error.{World, no_error, sg_set_error_fmt}
use libstatgrab.Error.Codes.{SgError, error_none, error_invalid_argument}
use libstatgrab.Vector.{SgVector, VecPtr, null, live, dangling, faulted, sg_vector_free}
use libstatgrab.Vector.Clone.{sg_vector_clone_into}

-- `BIT_ISSET` and `BIT_SET` on an array of words, as the list of its bits, lowest first.
abbrev pub bit_isset : List Bool → ℕ → Bool
bit_isset [] j = false
bit_isset (b ∷ bits) zero = b
bit_isset (b ∷ bits) (suc j) = bit_isset bits j

abbrev pub bit_set : List Bool → ℕ → List Bool
bit_set bits j = modify bits j (λ _. true)

-- `unsigned matched[(used_count / (8 * sizeof(unsigned))) + 1]`, cleared.
abbrev pub no_bits : ℕ → List Bool
no_bits count = replicate (32 * (count / 32 + 1)) false

-- The items in use.
abbrev pub items : {T : Type 0} → SgVector T → List T
items v = take v.used_count v.cells

abbrev pub is_eq : Ordering → Bool
is_eq Ordering.eq = true
is_eq _ = false

module _ {T : Type 0} (compare_fn : T → T → Ordering) (compute_diff_fn : T → T → T) where
  -- The inner loop, at item `j` of the last vector: `last` holds the items from there on, `d` is the
  -- item of the difference. It does not stop at a match.
  unfoldable pub diff_item : List T → ℕ → List Bool → T → List Bool × T
  diff_item [] j matched d = (matched, d)
  diff_item (l ∷ last) j matched d =
      let hit = not (bit_isset matched j) && is_eq (compare_fn l d) in
      diff_item last (j + 1) (if hit then bit_set matched j else matched)
        (if hit then compute_diff_fn l d else d)

  -- The outer loop.
  unfoldable pub diff_items : List T → List Bool → List T → List T
  diff_items last matched [] = []
  diff_items last matched (d ∷ ds) =
      let (matched', d') = diff_item last 0 matched d in d' ∷ diff_items last matched' ds

module _ {T : Type 0} where
  -- The source asserts that both functions are there.
  unfoldable pub diff_cells :
      Option (T → T → Ordering)
      → Option (T → T → T)
      → SgVector T
      → SgVector T
      → World
      → VecPtr T × World
  diff_cells (some compare_fn) (some compute_diff_fn) d last w = (
    live (record d {
      cells =
          diff_items compare_fn compute_diff_fn (items last) (no_bits last.used_count) (items d)
          ++ drop d.used_count d.cells;
    }),
    if ltb (length last.cells) last.used_count
        then faulted w
        else if ltb (length d.cells) d.used_count
        then faulted w
        else w,
  )
  diff_cells _ _ d last w = (live d, faulted w)

  -- From the test of `last_vector` on.
  unfoldable pub diff_cloned : VecPtr T → VecPtr T → World → VecPtr T × World
  diff_cloned null last w = (null, w)
  diff_cloned (live d) null w = (live d, w)
  diff_cloned (live d) (live last) w =
      diff_cells last.info.compare_fn last.info.compute_diff_fn d last w
  diff_cloned (live d) dangling w = (live d, faulted w)
  diff_cloned dangling null w = (dangling, w)
  diff_cloned dangling _ w = (dangling, faulted w)

  unfoldable pub diff_from : SgError × VecPtr T × World → VecPtr T → SgError × VecPtr T × World
  diff_from (rc, d, w) last =
      let (d', w') = diff_cloned d last w in
      if no_error rc then (error_none, d', w') else (rc, d, w)

  -- `sg_vector_compute_diff` for a pointer that is not NULL: the result, the new `*dest_vector_ptr`
  -- and the world.
  unfoldable pub sg_vector_compute_diff :
      VecPtr T → VecPtr T → VecPtr T → World → SgError × VecPtr T × World
  sg_vector_compute_diff dest null last w =
      let (rc, w') =
        sg_set_error_fmt error_invalid_argument (some (codes "sg_vector_compute_diff(cur_vector)"))
          (sg_vector_free dest w) in
      (rc, null, w')
  sg_vector_compute_diff dest (live cur) last w =
      diff_from (sg_vector_clone_into dest (live cur) w) last
  sg_vector_compute_diff dest dangling last w = (error_none, dest, faulted w)
