-- ===== src/Access/Items.antt =====
-- EASY_COMP_ACCESS and EASY_COMP_DIFF of src/libstatgrab/globals.h: components of a single item.
use mathlib.Core.Path.{ap₂}
use libstatgrab.Base.{
  ◌≡◌, refl, ap, subst, sym, ◌∙◌, arith, some, true, false, ◌⊎◌, inl, inr, Bool-cases, get_elem?,
  length-modify, get_elem?-modify_self,
}
use libstatgrab.Error.{World, no_error, sg_get_error}
use libstatgrab.Error.Slot.{clear-get}
use libstatgrab.Error.Codes.{SgError, error_none}
use libstatgrab.Vector.{SgVector, VectorInfo, VecPtr, live}
use libstatgrab.Vector.Grow.{IsValid}
use libstatgrab.Access.{
  Answer, Slots, failed, answered, or_create, at_first, easy_run, easy_access, easy_diff_now,
  easy_diff_run, easy_diff,
}

-- A valid vector with the one item `x`.
pub record Holds {T : Type 0} (v : SgVector T) (x : T) : Type 0 where
  pub valid : IsValid v
  pub one_item : v.used_count ≡ 1
  pub item : get_elem? v.cells 0 ≡ some x

module _ {T : Type 0} where
  at_first_lem :
      (f : T → World → SgError × T × World) (v : SgVector T) (x : T) (w : World)
      → Holds v x
      → let (rc, v', w') = at_first f v w in
        (rc ≡ (f x w).0) × (w' ≡ (f x w).2) × Holds v' (f x w).1
  unfolding at_first
  at_first_lem f v x w holds =
      let l = length-modify v.cells 0 (λ _. (f x w).1) in
      rw (holds.item, at_first)
        (
          refl,
          refl,
          record {
            valid = record {
              used_in = omega (arith, l, holds.valid);
              alloc_in = omega (arith, l, holds.valid);
              sized = holds.valid.sized;
            };
            one_item = holds.one_item;
            item = get_elem?-modify_self v.cells 0 (λ _. (f x w).1) x holds.item;
          },
        )

  module _ (info : VectorInfo T) (fn_int : T → World → SgError × T × World) where
    -- The outcome of reading over the item `x`: the slot keeps a vector of what the reader left.
    abbrev pub ReadOver : T → World → Answer T × VecPtr T × World → Type 0
    ReadOver x w out =
        (v : SgVector T) × (out.1 ≡ live v)
        × Holds v (fn_int x w).1
        × (out.2.fault ≡ (fn_int x w).2.fault)
        × (((no_error (fn_int x w).0 ≡ true)
              × (out.0 ≡ answered (live v))
              × (out.0.entries ≡ 1)
              × (sg_get_error out.2 ≡ error_none))
            ⊎ ((no_error (fn_int x w).0 ≡ false) × (out.0 ≡ failed) × (out.2 ≡ (fn_int x w).2)))

    -- The function that EASY_COMP_ACCESS defines, on a slot that holds a vector of one item: the
    -- reader is given that item, and what it leaves there stays in the slot. Where it reports no
    -- error the answer is that item with 1 entry, and the error is cleared. Else the answer is NULL
    -- with 0 entries, and the reader's error stays.
    pub easy_access_lem :
        (v : SgVector T) (x : T) (w : World)
        → Holds v x
        → ReadOver x w (easy_access info fn_int (live v) w)
    unfolding easy_access easy_run or_create
    easy_access_lem v x w holds =
        let (rc, world, held) = at_first_lem fn_int v x w holds in
        let (cleared, _, _, rest) = clear-get (at_first fn_int v w).2 in
        elim (Bool-cases (no_error (fn_int x w).0)) [
          | inl ok ↦ rw (ap no_error rc ∙ ok) (
            (at_first fn_int v w).1,
            refl,
            held,
            rest.fault_kept ∙ ap (λ (u : World). u.fault) world,
            inl (ok, refl, held.one_item, cleared),
          )
          | inr bad ↦ rw (ap no_error rc ∙ bad) (
            (at_first fn_int v w).1,
            refl,
            held,
            ap (λ (u : World). u.fault) world,
            inr (bad, refl, world),
          )
        ]

    module _ (diff_int : T → T → T → World → SgError × T × World) where
      -- The outcome of making a difference that leaves `made`, from the new item `x`.
      abbrev pub Diffed : T → SgError × T × World → Answer T × Slots T × World → Type 0
      Diffed x made out =
          (now' d' : SgVector T) × (out.1 ≡ record { now = live now'; diff = live d' })
          × Holds now' x
          × Holds d' made.1
          × (out.2.fault ≡ made.2.fault)
          × (((no_error made.0 ≡ true)
                × (out.0 ≡ answered (live d'))
                × (out.0.entries ≡ 1)
                × (sg_get_error out.2 ≡ error_none))
              ⊎ ((no_error made.0 ≡ false) × (out.0 ≡ failed)))

      diff_now_lem :
          (now' d : SgVector T) (x old last : T) (w : World)
          → Holds now' x
          → Holds d old
          → Diffed x
              (diff_int old x last w)
              (easy_diff_now info fn_int diff_int d last (answered (live now'), live now', w))
      unfolding easy_diff_now
      diff_now_lem now' d x old last w holds d_holds =
          let f = λ (tgt : T). diff_int tgt x last in
          let (rc, world, held) = at_first_lem f d old w d_holds in
          let (cleared, _, _, rest) = clear-get (at_first f d w).2 in
          elim (Bool-cases (no_error (diff_int old x last w).0)) [
            | inl ok ↦
                rw (holds.item, easy_diff_now, ap no_error rc ∙ ok)
                  (
                    now',
                    (at_first f d w).1,
                    refl,
                    holds,
                    held,
                    rest.fault_kept ∙ ap (λ (u : World). u.fault) world,
                    inl (ok, refl, held.one_item, cleared),
                  )
            | inr bad ↦
                rw (holds.item, easy_diff_now, ap no_error rc ∙ bad)
                  (
                    now',
                    (at_first f d w).1,
                    refl,
                    holds,
                    held,
                    ap (λ (u : World). u.fault) world,
                    inr (bad, refl),
                  )
          ]

      read_then_diff :
          (d : SgVector T) (x old : T) (w : World) (out : Answer T × VecPtr T × World)
          → Holds d old
          → no_error (fn_int x w).0 ≡ true
          → ReadOver x w out
          → Diffed
              (fn_int x w).1
              (diff_int old (fn_int x w).1 x out.2)
              (easy_diff_now info fn_int diff_int d x out)
      read_then_diff d x old w (a, slot, w1) d_holds ok (v, e, held, fault, inl (_, ea, _, _)) =
          subst
            (λ (q : Answer T × VecPtr T).
              Diffed (fn_int x w).1 (diff_int old (fn_int x w).1 x w1)
                (easy_diff_now info fn_int diff_int d x (q.0, q.1, w1)))
            (sym (ap₂ (λ b c. (b, c)) ea e)) (diff_now_lem v d (fn_int x w).1 old x w1 held d_holds)
      read_then_diff d x old w (a, slot, w1) d_holds ok (v, e, held, fault, inr (bad, _, _)) =
          absurd (ground arith)

      -- The function that EASY_COMP_DIFF defines, where both slots hold a vector of one item and the
      -- reader reports no error: the difference is made from the new item and the one before
      -- it, and the new item takes the place of the old one. Where making the difference reports no
      -- error the answer is that difference with 1 entry and the error is cleared, else it is NULL
      -- with 0 entries.
      pub easy_diff_lem :
          (now d : SgVector T) (x old : T) (w : World)
          → Holds now x
          → Holds d old
          → no_error (fn_int x w).0 ≡ true
          → Diffed
              (fn_int x w).1
              (diff_int old (fn_int x w).1 x (easy_access info fn_int (live now) w).2)
              (easy_diff info fn_int diff_int (record { now = live now; diff = live d }) w)
      unfolding easy_diff easy_diff_run or_create
      easy_diff_lem now d x old w holds d_holds ok =
          rw (holds.item, easy_diff_run)
            (read_then_diff d x old w (easy_access info fn_int (live now) w) d_holds ok
              (easy_access_lem now x w holds))
