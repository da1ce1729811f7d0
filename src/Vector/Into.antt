-- ===== src/Vector/Into.antt =====
-- `sg_vector_clone_into`: what it does with the destination on every branch.
use libstatgrab.Base.{
  ◌≡◌, ◌≢◌, refl, ap, subst, sym, ◌∙◌, arith, max, some, true, false, ◌⊎◌, inl, inr, Bool-cases,
  ◌==◌, ==_iff, if◌then◌else◌,
}
use libstatgrab.Error.{World, no_error, sg_get_error}
use libstatgrab.Error.Codes.{SgError, error_none}
use libstatgrab.Vector.{SgVector, VecPtr, null, live, dangling, sg_vector_free, sg_vector_resize}
use libstatgrab.Vector.Grow.{IsValid, Fits}
use libstatgrab.Vector.Resize.{resize_zero, resize_lem, Resized}
use libstatgrab.Vector.Clone.{
  CopyFn, clone_items, sg_vector_clone_into_int, drop_dest, clone_new, sg_vector_clone_into,
}
use libstatgrab.Vector.Copies.{
  Copies, ItemsCopied, IsClone, clone_items_lem, same_count_lem, clone_lem, Cloned,
}

module _ {T C : Type 0} (content : T → C) (copy_fn : CopyFn T) (copies : Copies content copy_fn)
    (src : SgVector T) (src_valid : IsValid src) (given : src.info.copy_fn ≡ some copy_fn) where
  -- The block of the destination could not be replaced.
  abbrev pub Refused : SgVector T → World → Type 0
  Refused d w =
      (d.used_count ≢ src.used_count) × ((sg_vector_resize (live d) src.used_count w).0 ≡ null)

  -- A clone with no error, or NULL, and nothing is touched that is not the callee's.
  abbrev pub ClonedInto : World → SgError × VecPtr T × World → Type 0
  ClonedInto w out =
      (out.2.fault ≡ w.fault)
      × ((out.1 ≡ null)
          ⊎ (out.0 ≡ error_none) × IsClone content copy_fn copies src src_valid given out.1)

  abbrev IntoInt : SgVector T → World → SgError × VecPtr T × World → Type 0
  IntoInt d w out =
      (Refused d w × (no_error out.0 ≡ false) × (out.1 ≡ dangling))
      ⊎ ItemsCopied content copy_fn copies src w (out.0, out.1, out.2)

  resized_lem :
      (d : SgVector T) (w : World) (p : VecPtr T) (w1 : World)
      → d.info ≡ src.info
      → d.used_count ≢ src.used_count
      → (sg_vector_resize (live d) src.used_count w).0 ≡ p
      → Resized d src.used_count w (p, w1)
      → IntoInt d w (clone_items p src w1)
  unfolding clone_items
  resized_lem d w p w1 info ne from (fault, inl (e, error)) =
      subst (λ q. IntoInt d w (clone_items q src w1)) (sym e)
        (inl ((ne, from ∙ e), ap no_error error, refl))
  resized_lem d w p w1 info ne from (fault, inr (v, e, valid, count, kept, _, _, _)) =
      let (f, out) =
        clone_items_lem content copy_fn copies src src_valid given v w1 valid count (kept ∙ info) in
      subst (λ q. IntoInt d w (clone_items q src w1)) (sym e) (inr (f ∙ fault, out))

  into_int_lem :
      (d : SgVector T) (w : World)
      → IsValid d
      → d.info ≡ src.info
      → (d.used_count ≡ src.used_count) ⊎ Fits d.block_shift src.used_count d.info.item_size
      → IntoInt d w (sg_vector_clone_into_int d src w)
  unfolding sg_vector_clone_into_int
  into_int_lem d w valid info (inl count) =
      inr (same_count_lem content copy_fn copies src src_valid given d w valid count info)
  into_int_lem d w valid info (inr fits) = elim (Bool-cases (d.used_count == src.used_count)) [
    | inl same ↦ inr (
        same_count_lem content copy_fn copies src src_valid given d w valid
          ((==_iff d.used_count src.used_count).0 same) info)
    | inr other ↦
        rw other
          (resized_lem d w _ _ info (ground arith) refl (resize_lem d src.used_count w valid fits))
  ]

  finish_into :
      (d : SgVector T) (w : World) (rc : SgError) (p : VecPtr T) (w' : World)
      → IntoInt d w (rc, p, w')
      → let out = (if no_error rc then (error_none, p, w') else drop_dest p w') in
        (Refused d w × (out.1 ≡ null) × (out.2.fault ≡ true)) ⊎ ClonedInto w out
  unfolding drop_dest sg_vector_free
  finish_into d w rc p w' (inl (refused, bad, e)) = rw (bad, e) (inl (refused, refl, refl))
  finish_into d w rc p w' (inr (fault, inl (bad, e))) = rw (bad, e) (inr (fault, inl refl))
  finish_into d w rc p w' (inr (fault, inr (v, ok, e, valid, count, info, same))) =
      rw (ok, e) (inr (fault, inr (refl, (v, refl, valid, count, info, same))))

  -- `sg_vector_clone_into` of a valid vector into a valid one with the same functions: the
  -- destination becomes NULL, or there is no error and it is a valid vector with the content of the
  -- source, and nothing is touched that is not the callee's. This has one exception: where the
  -- counts differ and `sg_vector_resize` refuses, it has freed the destination, and the destination
  -- is freed once more (a fault). The counts are the same, or there is a block for the items of the
  -- source, which are one or more.
  pub clone_into_lem :
      (d : SgVector T) (w : World)
      → IsValid d
      → d.info ≡ src.info
      → (d.used_count ≡ src.used_count) ⊎ Fits d.block_shift src.used_count d.info.item_size
      → let out = sg_vector_clone_into (live d) (live src) w in
        (Refused d w × (out.1 ≡ null) × (out.2.fault ≡ true)) ⊎ ClonedInto w out
  unfolding sg_vector_clone_into
  clone_into_lem d w valid info counts = finish_into d w _ _ _ (into_int_lem d w valid info counts)

  clone_new_lem :
      (w : World) (p : VecPtr T) (w1 : World)
      → Cloned content copy_fn copies src src_valid given w (p, w1)
      → ClonedInto w (clone_new (p, w1))
  unfolding clone_new drop_dest sg_vector_free
  clone_new_lem w p w1 (fault, inl e) = rw (e, clone_new) (fault, inl refl)
  clone_new_lem w p w1 (fault, inr (d, e, valid, count, info, same)) =
      subst (λ q. ClonedInto w (clone_new (q, w1))) (sym e)
        (fault, inr (refl, (d, refl, valid, count, info, same)))

  -- The same for a destination that is NULL: a new vector is made.
  pub clone_into_null :
      (w : World)
      → Fits src.block_shift (max src.alloc_count src.used_count) src.info.item_size
      → ClonedInto w (sg_vector_clone_into null (live src) w)
  unfolding sg_vector_clone_into
  clone_into_null w fits =
      clone_new_lem w _ _ (clone_lem content copy_fn copies src src_valid given w fits)

-- Where the source has no item in use and the destination has one, `sg_vector_clone_into` reports no
-- error, but the destination is freed and the caller's pointer still points there.
pub clone_into_empty :
    {T : Type 0} (d src : SgVector T) (w : World)
    → IsValid d
    → d.used_count ≢ 0
    → src.used_count ≡ 0
    → let (rc, p, w') = sg_vector_clone_into (live d) (live src) w in
      (rc ≡ error_none) × (p ≡ dangling) × (w'.fault ≡ w.fault)
unfolding sg_vector_clone_into sg_vector_clone_into_int clone_items
clone_into_empty d src w valid some_items empty =
    let (gone, error, fault) = resize_zero d w valid in
    let differ : (d.used_count == src.used_count) ≡ false = ground arith in
    let gone' = subst (λ n. (sg_vector_resize (live d) n w).0 ≡ null) (sym empty) gone in
    let error' =
      subst (λ n. sg_get_error (sg_vector_resize (live d) n w).1 ≡ error_none) (sym empty) error in
    let fault' = subst (λ n. (sg_vector_resize (live d) n w).1.fault ≡ w.fault) (sym empty) fault in
    rw (differ, gone', clone_items, error') (refl, refl, fault')
