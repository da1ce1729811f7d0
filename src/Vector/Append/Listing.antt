-- ===== src/Vector/Append/Listing.antt =====
-- What a reader returns that fills a vector with no item in use.
use libstatgrab.Base.{
  ◌+◌, ◌≡◌, ap, subst, sym, ◌∙◌, arith, List, ◌++◌, Option, some, true, false, length, take, inl,
  inr, Bool-cases, if◌then◌else◌,
}
use libstatgrab.Error.{World, no_error, sg_get_error}
use libstatgrab.Error.Codes.{SgError, error_none, error_malloc}
use libstatgrab.Vector.{SgVector, VectorInfo, VecPtr, null, live}
use libstatgrab.Vector.Grow.{IsValid}
use libstatgrab.Vector.Diff.{items}
use libstatgrab.Vector.Append.{append_loop}
use libstatgrab.Vector.Append.Growth.{
  Room, Makes, AllShow, Extended, all_there, not_filled, all_made, append_loop_lem,
}

-- The items show `ys`; or one could not be filled in, and the error that is set is returned; or there
-- was no memory for one, and it was stored through NULL.
pub data Listing {T V : Type 0} (Shows : T → V → Type 0) (ys : List V) (w : World)
    (out : SgError × VecPtr T × World) : Type 0 where
  listed :
      (v : SgVector T)
      → out.0 ≡ error_none
      → out.1 ≡ live v
      → IsValid v
      → AllShow Shows (items v) ys
      → out.2.fault ≡ w.fault
      → Listing Shows ys w out
  stopped :
      (v : SgVector T)
      → no_error out.0 ≡ false
      → sg_get_error out.2 ≡ out.0
      → out.1 ≡ live v
      → IsValid v
      → out.2.fault ≡ w.fault
      → Listing Shows ys w out
  through_null :
      out.0 ≡ error_malloc
      → out.1 ≡ null
      → sg_get_error out.2 ≡ error_malloc
      → out.2.fault ≡ true
      → Listing Shows ys w out

module _ {T R V : Type 0} (info : VectorInfo T) (init : T → T)
    (init_given : info.init_fn ≡ some init) (fill : R → Option (T → World → SgError × T × World))
    (Shows : T → V → Type 0) (made : R → Option V) where
  -- The loop over records, on a valid vector with no item in use.
  pub append_loop-Listing :
      (rs : List R) (v : SgVector T) (w : World)
      → ((r : R) → Makes info init init_given fill Shows made r)
      → IsValid v
      → v.info ≡ info
      → v.used_count ≡ 0
      → Room v.block_shift (length rs) info.item_size
      → let out = append_loop info fill rs 0 (live v) w in
        Listing Shows (all_made made rs) w (out.rc, out.vector, out.world)
  append_loop-Listing rs v w makes valid same unused room =
      let grown : length rs ≡ 0 + length rs = omega arith in
      from_loop (
        append_loop_lem info init init_given fill Shows made rs v 0 w makes valid same (sym unused)
          (subst (λ k. Room v.block_shift k info.item_size) grown room))
    where
      from_loop :
          Extended info init init_given fill Shows made rs v w
            (append_loop info fill rs 0 (live v) w)
          → let out = append_loop info fill rs 0 (live v) w in
            Listing Shows (all_made made rs) w (out.rc, out.vector, out.world)
      from_loop (all_there v' a b c d s n new m all f) =
          listed v' a b c
            (subst (λ l. AllShow Shows l (all_made made rs))
              (sym (m ∙ ap (λ k. take k v.cells ++ new) unused)) all)
            f
      from_loop (not_filled v' a g b c d f) = stopped v' a g b c f
      from_loop (Extended.through_null a b c d) = through_null a b c d

-- More that happens after the loop, and does not touch the vector.
Listing-after :
    {T V : Type 0} (Shows : T → V → Type 0) (ys : List V) (w w' : World) (rc : SgError)
    (p : VecPtr T) (w1 : World)
    → w'.fault ≡ w1.fault
    → sg_get_error w' ≡ sg_get_error w1
    → Listing Shows ys w (rc, p, w1)
    → Listing Shows ys w (rc, p, w')
Listing-after Shows ys w w' rc p w1 fault error (listed v a b c d e) = listed v a b c d (fault ∙ e)
Listing-after Shows ys w w' rc p w1 fault error (stopped v a b c d e) =
    stopped v a (error ∙ b) c d (fault ∙ e)
Listing-after Shows ys w w' rc p w1 fault error (through_null a b c d) =
    through_null a b (error ∙ c) (fault ∙ d)

-- The same where it happens only after a loop that went to its end.
pub Listing-ended :
    {T V : Type 0} (Shows : T → V → Type 0) (ys : List V) (w w' : World) (rc : SgError)
    (p : VecPtr T) (w1 : World)
    → w'.fault ≡ w1.fault
    → sg_get_error w' ≡ sg_get_error w1
    → Listing Shows ys w (rc, p, w1)
    → Listing Shows ys w (rc, p, if no_error rc then w' else w1)
Listing-ended Shows ys w w' rc p w1 fault error read = elim (Bool-cases (no_error rc)) [
  | inl ok ↦ rw ok (Listing-after Shows ys w w' rc p w1 fault error read)
  | inr bad ↦ rw bad read
]
