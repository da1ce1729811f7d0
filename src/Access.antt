-- ===== src/Access.antt =====
-- src/libstatgrab/globals.h: the macros EASY_COMP_ACCESS, MULTI_COMP_ACCESS, EASY_COMP_DIFF and
-- MULTI_COMP_DIFF, which define the public functions of every component over the vectors in its
-- thread storage.
pub mod Items
pub mod Snapshots
mod Tests
use libstatgrab.Base.{ℕ, Bool, Option, none, some, get_elem?, modify, if◌then◌else◌}
use libstatgrab.Error.{World, no_error, sg_clear_error}
use libstatgrab.Error.Codes.{SgError, error_none}
use libstatgrab.Vector.{
  SgVector, VectorInfo, VecPtr, null, live, dangling, faulted, sg_vector_create, sg_vector_clear,
  sg_vector_free, sg_get_nelements,
}
use libstatgrab.Vector.Clone.{sg_vector_clone}
use libstatgrab.Vector.Diff.{sg_vector_compute_diff}

-- What a function returns: the data pointer, as the vector that it lies in, and what it stores in
-- `*entries` where the caller wants it.
pub record Answer (T : Type 0) : Type 0 where
  pub stats : VecPtr T
  pub entries : ℕ

-- The two vectors of a component in its thread storage.
pub record Slots (T : Type 0) : Type 0 where
  pub now : VecPtr T
  pub diff : VecPtr T

abbrev pub failed : {T : Type 0} → Answer T
failed = record { stats = null; entries = 0 }

abbrev pub answered : {T : Type 0} → VecPtr T → Answer T
answered p = record { stats = p; entries = sg_get_nelements p }

-- `sg_vector_create` with the counts given, where the slot is NULL.
unfoldable pub or_create :
    {T : Type 0} → VectorInfo T → ℕ → ℕ → ℕ → VecPtr T → World → VecPtr T × World
or_create info size alloc_count used null w = sg_vector_create size alloc_count used info w
or_create info size alloc_count used p w = (p, w)

-- The first item of a vector, given to a function that may fail.
unfoldable pub at_first :
    {T : Type 0}
    → (T → World → SgError × T × World)
    → SgVector T
    → World
    → SgError × SgVector T × World
at_first f v w = elim (get_elem? v.cells 0) [
  | none ↦ (error_none, v, faulted w)
  | some x ↦ ((f x w).0, record v { cells = modify v.cells 0 (λ _. (f x w).1) }, (f x w).2)
]

-- EASY_COMP_ACCESS, for a component with the reader `fn_int` of one item. The argument of `easy_run` is
-- the vector in the slot, after it was created where there was none.
module _ {T : Type 0} (info : VectorInfo T) (fn_int : T → World → SgError × T × World) where
  unfoldable pub easy_run : VecPtr T × World → Answer T × VecPtr T × World
  easy_run (null, w) = (failed, null, w)
  easy_run (live v, w) =
      let (rc, v', w') = at_first fn_int v w in
      if no_error rc
      then (answered (live v'), live v', sg_clear_error w')
      else (failed, live v', w')
  easy_run (dangling, w) = (failed, dangling, faulted w)

  -- `fn` of EASY_COMP_ACCESS: the answer, the new slot and the world.
  unfoldable pub easy_access : VecPtr T → World → Answer T × VecPtr T × World
  easy_access slot w = easy_run (or_create info 1 1 1 slot w)

  -- `fn_r`: the vector is the caller's, or freed on an error.
  unfoldable pub easy_run_r : VecPtr T × World → Answer T × World
  easy_run_r (null, w) = (failed, w)
  easy_run_r (live v, w) =
      let (rc, v', w') = at_first fn_int v w in
      if no_error rc
      then (answered (live v'), sg_clear_error w')
      else (failed, sg_vector_free (live v') w')
  easy_run_r (dangling, w) = (failed, faulted w)

  unfoldable pub easy_access_r : World → Answer T × World
  easy_access_r w = easy_run_r (sg_vector_create 1 1 1 info w)

  -- EASY_COMP_DIFF, with the function `diff_int` that fills in a difference from the item before
  -- and the item now.
  module _ (diff_int : T → T → T → World → SgError × T × World) where
    -- The vector of the difference and the item of the last call are there.
    unfoldable pub easy_diff_now :
        SgVector T → T → Answer T × VecPtr T × World → Answer T × Slots T × World
    easy_diff_now d last (now, slot, w) = elim now.stats [
      | null ↦ (failed, record { now = slot; diff = live d }, w)
      | dangling ↦ (failed, record { now = slot; diff = live d }, faulted w)
      | live v ↦ elim (get_elem? v.cells 0) [
        | none ↦ (failed, record { now = slot; diff = live d }, faulted w)
        | some x ↦
            let (rc, d', w') = at_first (λ tgt. diff_int tgt x last) d w in
            if no_error rc
            then (answered (live d'), record { now = slot; diff = live d' }, sg_clear_error w')
            else (failed, record { now = slot; diff = live d' }, w')
      ]
    ]

    unfoldable pub easy_diff_run : SgVector T → VecPtr T × World → Answer T × Slots T × World
    easy_diff_run now (null, w) = (failed, record { now = live now; diff = null }, w)
    easy_diff_run now (dangling, w) =
        (failed, record { now = live now; diff = dangling }, faulted w)
    easy_diff_run now (live d, w) = elim (get_elem? now.cells 0) [
      | none ↦ (failed, record { now = live now; diff = live d }, faulted w)
      | some last ↦ easy_diff_now d last (easy_access (live now) w)
    ]

    -- `fn` of EASY_COMP_DIFF. Without a last call it answers like the reader.
    unfoldable pub easy_diff : Slots T → World → Answer T × Slots T × World
    easy_diff slots w = elim slots.now [
      | null ↦ let (a, slot, w') = easy_access null w in (a, record slots { now = slot }, w')
      | live now ↦ easy_diff_run now (or_create info 1 1 1 slots.diff w)
      | dangling ↦ (failed, slots, faulted w)
    ]

-- `fn_between` of EASY_COMP_DIFF, for two items of the caller's, or NULL.
unfoldable pub easy_between :
    {T : Type 0}
    → VectorInfo T
    → (T → Option T → Option T → World → SgError × T × World)
    → Option T
    → Option T
    → World
    → Answer T × World
easy_between info diff_int now last w =
    easy_run_r info (λ tgt. diff_int tgt now last) (sg_vector_create 1 1 1 info w)

-- The end of MULTI_COMP_DIFF.
unfoldable pub multi_diff_end :
    {T : Type 0} → VecPtr T → VecPtr T → SgError × VecPtr T × World → Answer T × Slots T × World
multi_diff_end now last (rc, d, w) =
    let w' = sg_vector_free last w in
    if no_error rc
    then (answered d, record { now = now; diff = d }, sg_clear_error w')
    else (failed, record { now = now; diff = d }, w')

-- MULTI_COMP_ACCESS, for a component with the reader `fn_int` of a vector.
module _ {T : Type 0} (info : VectorInfo T)
    (fn_int : SgVector T → World → SgError × VecPtr T × World) where
  unfoldable pub multi_run : VecPtr T × World → Answer T × VecPtr T × World
  multi_run (null, w) = (failed, null, w)
  multi_run (live v, w) =
      let (rc, p, w') = fn_int v w in
      if no_error rc then (answered p, p, sg_clear_error w') else (failed, p, w')
  multi_run (dangling, w) = (failed, dangling, faulted w)

  unfoldable pub create_or_clear : VecPtr T → World → VecPtr T × World
  create_or_clear null w = sg_vector_create 16 16 0 info w
  create_or_clear p w = sg_vector_clear p w

  -- `fn` of MULTI_COMP_ACCESS.
  unfoldable pub multi_access : VecPtr T → World → Answer T × VecPtr T × World
  multi_access slot w = multi_run (create_or_clear slot w)

  -- `fn_r`: the vector is the caller's, or freed on an error.
  unfoldable pub multi_run_r : VecPtr T × World → Answer T × World
  multi_run_r (null, w) = (failed, w)
  multi_run_r (live v, w) =
      let (rc, p, w') = fn_int v w in
      if no_error rc then (answered p, sg_clear_error w') else (failed, sg_vector_free p w')
  multi_run_r (dangling, w) = (failed, faulted w)

  unfoldable pub multi_access_r : World → Answer T × World
  multi_access_r w = multi_run_r (sg_vector_create 16 16 0 info w)

  -- From the clone of the last call's vector on: `getfn(NULL)` overwrites that vector, whatever it
  -- returns.
  unfoldable pub multi_diff_last :
      SgVector T → VecPtr T → VecPtr T × World → Answer T × Slots T × World
  multi_diff_last now d (null, w) = (failed, record { now = live now; diff = d }, w)
  multi_diff_last now d (last, w) =
      let (a, slot, w') = multi_access (live now) w in
      multi_diff_end slot last (sg_vector_compute_diff d slot last w')

  unfoldable pub multi_diff_run : SgVector T → VecPtr T × World → Answer T × Slots T × World
  multi_diff_run now (null, w) = (failed, record { now = live now; diff = null }, w)
  multi_diff_run now (d, w) = multi_diff_last now d (sg_vector_clone (live now) w)

  -- `fn` of MULTI_COMP_DIFF.
  unfoldable pub multi_diff : Slots T → World → Answer T × Slots T × World
  multi_diff slots w = elim slots.now [
    | null ↦ let (a, slot, w') = multi_access null w in (a, record slots { now = slot }, w')
    | live now ↦ multi_diff_run now (or_create info now.used_count now.used_count 0 slots.diff w)
    | dangling ↦ (failed, slots, faulted w)
  ]

-- `fn_between` of MULTI_COMP_DIFF, for vectors that the caller has.
module _ {T : Type 0} (info : VectorInfo T) where
  unfoldable pub multi_between_run : VecPtr T → VecPtr T → VecPtr T × World → Answer T × World
  multi_between_run cur last (null, w) = (failed, w)
  multi_between_run cur last (d, w) =
      let (rc, d', w') = sg_vector_compute_diff d cur last w in
      if no_error rc then (answered d', sg_clear_error w') else (failed, sg_vector_free d' w')

  unfoldable pub multi_between : VecPtr T → VecPtr T → World → Answer T × World
  multi_between cur last w = multi_between_run cur last (sg_vector_create 1 1 0 info w)
