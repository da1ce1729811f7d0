-- ===== src/Vector/Append.antt =====
-- The macros VECTOR_CREATE_OR_RESIZE and VECTOR_UPDATE of src/libstatgrab/vector.h, and the loop by which
-- readers add one item after another with them.
pub mod Growth
pub mod Listing
pub mod Plenty
mod Tests
use libstatgrab.Base.{
  ℕ, ◌+◌, Bool, List, [], ◌∷◌, Option, none, some, modify, get_elem?, ltb, ◌==◌, if◌then◌else◌,
}
use libstatgrab.Error.{World, no_error, sg_get_error}
use libstatgrab.Error.Codes.{SgError, error_none}
use libstatgrab.Vector.{
  SgVector, VectorInfo, VecPtr, null, live, dangling, faulted, sg_vector_create, sg_vector_resize,
}

-- What VECTOR_UPDATE leaves in `data`: the items of the vector, NULL, or nothing, since it returned
-- with an error after the clean-up.
pub data Update (T : Type 0) : Type 0 where
  filled : SgVector T → Update T
  no_data : Update T
  failing : SgError → Update T

-- Where the count is written `n + 1`, `!n + 1` is read as `(!n) + 1`, which is never 0.
abbrev pub not_plus_one : ℕ → Bool
not_plus_one n = ltb 0 ((if n == 0 then 1 else 0) + 1)

-- The end of a reader's loop: what it returns if it has to stop, the vector, and the counter of
-- the items.
pub record Appended (T : Type 0) : Type 0 where
  pub rc : SgError
  pub vector : VecPtr T
  pub count : ℕ
  pub world : World

module _ {T : Type 0} (info : VectorInfo T) where
  unfoldable pub create_or_resize : ℕ → VecPtr T → World → VecPtr T × World
  create_or_resize new_count null w = sg_vector_create new_count new_count new_count info w
  create_or_resize new_count (live v) w = sg_vector_resize (live v) new_count w
  create_or_resize new_count dangling w = sg_vector_resize dangling new_count w

  unfoldable pub update_end : Bool → VecPtr T × World → Update T × VecPtr T × World
  update_end negated (live v, w) = (filled v, live v, w)
  update_end negated (dangling, w) = (no_data, dangling, w)
  update_end negated (null, w) = (if negated then no_data else failing (sg_get_error w), null, w)

  -- `negated` is the value of `!new_count`, where the macro does not put its argument in parentheses.
  unfoldable pub vector_update : ℕ → Bool → VecPtr T → World → Update T × VecPtr T × World
  vector_update new_count negated p w = update_end negated (create_or_resize new_count p w)

  -- A store into the item at `n` of `data`, by code that may fail. Through NULL it is a fault.
  unfoldable pub fill_item :
      (T → World → SgError × T × World)
      → ℕ
      → Update T × VecPtr T × World
      → SgError × VecPtr T × World
  fill_item f n (no_data, p, w) = (sg_get_error w, p, faulted w)
  fill_item f n (failing rc, p, w) = (rc, p, w)
  fill_item f n (filled v, p, w) = elim (get_elem? v.cells n) [
    | none ↦ (error_none, p, faulted w)
    | some x ↦
        let (rc, x', w') = f x w in (rc, live (record v { cells = modify v.cells n (λ _. x') }), w')
  ]

  unfoldable pub append_one :
      (T → World → SgError × T × World) → ℕ → VecPtr T → World → SgError × VecPtr T × World
  append_one f n p w = fill_item f n (vector_update (n + 1) (not_plus_one n) p w)

  -- A loop over records, where `fill` skips a record or tells how its item is filled in: the vector
  -- gets one item more, and that item is filled in.
  module _ {R : Type 0} (fill : R → Option (T → World → SgError × T × World)) where
    unfoldable pub append_loop : List R → ℕ → VecPtr T → World → Appended T
    append_loop [] n p w = record { rc = error_none; vector = p; count = n; world = w }
    append_loop (r ∷ rs) n p w = elim (fill r) [
      | none ↦ append_loop rs n p w
      | some f ↦
          let (rc, p', w') = append_one f n p w in
          let rest = append_loop rs (n + 1) p' w' in
          if no_error rc then rest else record { rc = rc; vector = p'; count = n; world = w' }
    ]
