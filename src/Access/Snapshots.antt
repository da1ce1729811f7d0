-- ===== src/Access/Snapshots.antt =====
-- MULTI_COMP_DIFF of src/libstatgrab/globals.h: the difference of two snapshots of a component.
use libstatgrab.Base.{
  ℕ, ◌≡◌, refl, ap, subst, sym, ◌∙◌, arith, [], some, inl, inr, Ordering, take, map, max,
}
use libstatgrab.Error.{World, sg_get_error, sg_clear_error}
use libstatgrab.Error.Slot.{clear-get}
use libstatgrab.Error.Codes.{SgError, error_none}
use libstatgrab.Vector.{
  SgVector, VectorInfo, VecPtr, null, live, sg_vector_free, sg_vector_destroy_unused,
}
use libstatgrab.Vector.Grow.{IsValid, Fits}
use libstatgrab.Vector.Resize.{clear_lem, free_lem}
use libstatgrab.Vector.Clone.{CopyFn}
use libstatgrab.Vector.Copies.{Copies, IsClone, clone_lem}
use libstatgrab.Vector.Diff.{items, sg_vector_compute_diff}
use libstatgrab.Vector.Matching.{Keyed, Distinct, diff_with}
use libstatgrab.Vector.Differences.{take_of_same}
use libstatgrab.Vector.Differences.Plenty.{CopiesWhole, clone-plenty, compute_diff-plenty}
use libstatgrab.Access.{
  Answer, Slots, answered, or_create, create_or_clear, multi_run, multi_access, multi_diff_end,
  multi_diff_last, multi_diff_run, multi_diff,
}

-- What a reader makes of a vector with no item in use: no error, and a valid vector with the same
-- functions and items of distinct keys, for which there is a block of the given shift. It leaves memory.
pub record Reads {T K : Type 0} (compare_fn : T → T → Ordering) (diff_fn : T → T → T) (key : T → K)
    (info : VectorInfo T) (shift : ℕ) (w : World) (out : SgError × VecPtr T × World) : Type 0 where
  pub cur : SgVector T
  pub succeeds : out.0 ≡ error_none
  pub fills : out.1 ≡ live cur
  pub clean : out.2.fault ≡ w.fault
  pub plenty : out.2.oom ≡ []
  pub cur_valid : IsValid cur
  pub cur_info : cur.info ≡ info
  pub keys : Distinct compare_fn diff_fn key (items cur)
  pub block : Fits shift cur.used_count info.item_size

module _ {T K : Type 0} (compare_fn : T → T → Ordering) (diff_fn : T → T → T) (key : T → K)
    (keyed : Keyed compare_fn diff_fn key) (copy_fn : CopyFn T) (copies : Copies (λ x. x) copy_fn)
    (whole : CopiesWhole copy_fn) (fn_int : SgVector T → World → SgError × VecPtr T × World)
    (now d : SgVector T) (now_valid : IsValid now) (d_valid : IsValid d)
    (same_info : d.info ≡ now.info) (copy_given : now.info.copy_fn ≡ some copy_fn)
    (compare_given : now.info.compare_fn ≡ some compare_fn)
    (diff_given : now.info.compute_diff_fn ≡ some diff_fn) where
  -- What the reader makes of the vector of the last snapshot, once its items are destroyed.
  abbrev pub reading : World → SgError × VecPtr T × World
  reading w = fn_int (sg_vector_destroy_unused now 0 w).0 w

  -- The difference of the snapshot `cur`, which the reader made, to the one before, whose place it takes.
  abbrev pub Compared : World → Answer T × Slots T × World → Type 0
  Compared w out =
      (cur d' : SgVector T) × ((reading w).1 ≡ live cur)
      × (out.0 ≡ answered (live d'))
      × (out.1 ≡ record { now = live cur; diff = live d' })
      × IsValid cur
      × IsValid d'
      × (items d' ≡ map (diff_with compare_fn diff_fn key (items now)) (items cur))
      × (sg_get_error out.2 ≡ error_none)
      × (out.2.fault ≡ w.fault)

  ended_live :
      (last cur d' : SgVector T) (w : World) (rc : SgError) (p : VecPtr T) (w2 : World)
      → (reading w).1 ≡ live cur
      → w2.fault ≡ w.fault
      → IsValid last
      → IsValid cur
      → rc ≡ error_none
      → p ≡ live d'
      → IsValid d'
      → items d' ≡ map (diff_with compare_fn diff_fn key (items now)) (items cur)
      → Compared w (multi_diff_end (live cur) (live last) (rc, p, w2))
  unfolding multi_diff_end
  ended_live last cur d' w rc p w2 from fault valid cur_valid ok e d'_valid got =
      let freed = free_lem last w2 valid.used_in in
      let (cleared, _, _, rest) = clear-get (sg_vector_free (live last) w2) in
      rw (ok, e)
        (
          cur,
          d',
          from,
          refl,
          refl,
          cur_valid,
          d'_valid,
          got,
          cleared,
          rest.fault_kept ∙ ap (λ (x : World). x.fault) freed ∙ fault,
        )

  -- The end, once the new snapshot `cur` is there.
  end_lem :
      (last cur : SgVector T) (w w1 : World)
      → (reading w).1 ≡ live cur
      → w1.fault ≡ w.fault
      → w1.oom ≡ []
      → IsValid last
      → IsValid cur
      → items last ≡ items now
      → cur.info ≡ now.info
      → last.info ≡ now.info
      → Distinct compare_fn diff_fn key (items now)
      → Distinct compare_fn diff_fn key (items cur)
      → Fits d.block_shift cur.used_count now.info.item_size
      → Compared w (
          multi_diff_end
            (live cur)
            (live last)
            (sg_vector_compute_diff (live d) (live cur) (live last) w1))
  end_lem last cur w w1 from fault plenty valid cur_valid same cur_info last_info dn dc fits =
      let (kept, (d', ok, e, d'_valid, got)) =
        compute_diff-plenty compare_fn diff_fn key keyed copy_fn copies whole cur last cur_valid
          valid (ap (λ (i : VectorInfo T). i.copy_fn) cur_info ∙ copy_given)
          (ap (λ (i : VectorInfo T). i.compare_fn) last_info ∙ compare_given)
          (ap (λ (i : VectorInfo T). i.compute_diff_fn) last_info ∙ diff_given) d w1 plenty d_valid
          (same_info ∙ sym cur_info)
          (inr (
            subst (λ (i : VectorInfo T). Fits d.block_shift cur.used_count i.item_size)
              (sym same_info) fits))
          (subst (Distinct compare_fn diff_fn key) (sym same) dn) dc in
      ended_live last cur d' w _ _ _ from (kept ∙ fault) valid cur_valid ok e d'_valid
        (got ∙ ap (λ l. map (diff_with compare_fn diff_fn key l) (items cur)) same)

  -- The new snapshot, read into the vector of the last one.
  multi_access_filled :
      (w : World) (read : Reads compare_fn diff_fn key now.info d.block_shift w (reading w))
      → multi_access now.info fn_int (live now) w
        ≡ (answered (live read.cur), live read.cur, sg_clear_error (reading w).2)
  unfolding multi_access create_or_clear multi_run
  multi_access_filled w read =
      let (cleared, _, _, _) = clear_lem now w now_valid in
      ap (multi_run now.info fn_int) cleared ∙ rw (read.succeeds, read.fills) refl

  from_clone :
      (w : World) (last : SgVector T)
      → Reads compare_fn diff_fn key now.info d.block_shift w (reading w)
      → Distinct compare_fn diff_fn key (items now)
      → IsClone (λ x. x) copy_fn copies now now_valid copy_given (live last)
      → Compared w (multi_diff_last now.info fn_int now (live d) (live last, w))
  unfolding multi_diff_last
  from_clone w p read dn (last, e, valid, count, info, same) =
      let (_, _, _, rest) = clear-get (reading w).2 in
      let equal : items last ≡ items now =
        ap (λ n. take n last.cells) count
        ∙ take_of_same now.used_count now.cells last.cells now_valid.used_in
            (λ j s lt g. let (x, at, eq) = same j s (omega arith) lt g in at ∙ ap some eq) in
      subst (λ q. Compared w (multi_diff_last now.info fn_int now (live d) (q, w))) (sym e)
        (subst
          (λ (q : Answer T × VecPtr T × World).
            Compared w (
              multi_diff_end q.1 (live last) (sg_vector_compute_diff (live d) q.1 (live last) q.2)))
          (sym (multi_access_filled w read))
          (end_lem last read.cur w (sg_clear_error (reading w).2) read.fills
            (rest.fault_kept ∙ read.clean) (rest.oom_kept ∙ read.plenty) valid read.cur_valid equal
            read.cur_info info dn read.keys read.block))

  -- The function that MULTI_COMP_DIFF defines, where both slots hold a valid vector with the same
  -- functions, memory is plenty, and the reader, called with the emptied vector of the old snapshot, succeeds with
  -- one item or more of distinct keys that a block can hold: it answers the difference of the snapshot that the
  -- reader made to the one before, item by item of the same key. The new snapshot takes the place of the old one,
  -- both vectors are valid, no error is set, and nothing is touched that is not the callee's. The old snapshot has
  -- distinct keys and fits a block too; and the functions of the items compare by key and, with memory, copy whole
  -- items.
  pub multi_diff_lem :
      (w : World)
      → w.oom ≡ []
      → Reads compare_fn diff_fn key now.info d.block_shift w (reading w)
      → Distinct compare_fn diff_fn key (items now)
      → Fits now.block_shift (max now.alloc_count now.used_count) now.info.item_size
      → Compared w (multi_diff now.info fn_int (record { now = live now; diff = live d }) w)
  unfolding multi_diff multi_diff_run or_create
  multi_diff_lem w plenty read dn fits =
      let (last, is) = clone-plenty copy_fn whole now w copy_given plenty now_valid fits in
      elim (clone_lem (λ x. x) copy_fn copies now now_valid copy_given w fits).1 [
        | inl gone ↦
            let e : live last ≡ null = sym (ap (λ (o : VecPtr T × World). o.0) is) ∙ gone in
            absurd (cc)
        | inr clone ↦ rw is (
            from_clone w last read dn (
              subst (IsClone (λ x. x) copy_fn copies now now_valid copy_given)
                (ap (λ (o : VecPtr T × World). o.0) is) clone))
      ]
