-- ===== src/Vector/Copies.antt =====
-- Cloning: what `sg_vector_clone` and `sg_vector_clone_into` return, and where they go wrong.
use libstatgrab.Base.{
  ℕ, zero, suc, ◌+◌, ◌≤◌, ◌<◌, ◌≡◌, refl, ap, subst, sym, ◌∙◌, arith, max, List, some, true, false,
  ◌⊎◌, inl, inr, Bool-cases, ==_iff, length, get_elem?, modify, if◌then◌else◌, length-modify,
  get_elem?_exists, get_elem?-modify_self, get_elem?-modify_ne, dec_lt,
}
use libstatgrab.Error.{World, no_error}
use libstatgrab.Error.Codes.{SgError, error_none}
use libstatgrab.Vector.{SgVector, VecPtr, null, live, sg_vector_free}
use libstatgrab.Vector.Grow.{IsValid, Fits, Created, create_int_lem}
use libstatgrab.Vector.Resize.{free_lem}
use libstatgrab.Vector.Clone.{
  CopyFn, copy_loop, copied, copy_all, clone_items, sg_vector_clone_into_int, clone_created,
  sg_vector_clone,
}

-- What cloning relies on in a vector's `copy_fn`: where it reports no error the destination has the
-- content of the source, and it touches only what is its own.
pub record Copies {T C : Type 0} (content : T → C) (copy_fn : CopyFn T) : Type 0 where
  pub content_copied :
      (s d : T) (w : World)
      → no_error (copy_fn s d w).0 ≡ true
      → content (copy_fn s d w).1 ≡ content s
  pub clean : (s d : T) (w : World) → (copy_fn s d w).2.fault ≡ w.fault

module _ {T C : Type 0} (content : T → C) (copy_fn : CopyFn T)
    (copies : Copies content copy_fn) where
  -- The items from `i` up to `n` have the same content.
  abbrev pub SameItems : List T → List T → ℕ → ℕ → Type 0
  SameItems src dest i n =
      (j : ℕ) (s : T)
      → i ≤ j
      → j < n
      → get_elem? src j ≡ some s
      → (d : T) × (get_elem? dest j ≡ some d) × (content d ≡ content s)

  copy_loop_step :
      (k i : ℕ) (src dest : List T) (w : World) (s d : T)
      → get_elem? src i ≡ some s
      → get_elem? dest i ≡ some d
      → copy_loop copy_fn (suc k) i src dest w ≡ (
          if no_error (copy_fn s d w).0
          then copy_loop copy_fn k
              (i + 1)
              src
              (modify dest i (λ _. (copy_fn s d w).1))
              (copy_fn s d w).2
          else ((copy_fn s d w).0, modify dest i (λ _. (copy_fn s d w).1), (copy_fn s d w).2))
  unfolding copy_loop
  copy_loop_step k i src dest w s d hs hd = ground arith

  -- The outcome of copying the items from `i` up to `n`.
  abbrev CopyOutcome : List T → List T → ℕ → ℕ → World → SgError × List T × World → Type 0
  CopyOutcome src dest i n w out =
      (out.2.fault ≡ w.fault)
      × (length out.1 ≡ length dest)
      × ((j : ℕ) → j < i → get_elem? out.1 j ≡ get_elem? dest j)
      × (no_error out.0 ≡ true → SameItems src out.1 i n)

  copy_loop_lem :
      (k i n : ℕ) (src dest : List T) (w : World)
      → i + k ≡ n
      → n ≤ length src
      → n ≤ length dest
      → CopyOutcome src dest i n w (copy_loop copy_fn k i src dest w)
  unfolding copy_loop
  copy_loop_lem zero i n src dest w e hs hd =
      (refl, refl, λ j h. refl, λ ok j s a b. absurd (omega arith))
  copy_loop_lem (suc k) i n src dest w e hs hd =
      let (s, s_at) = get_elem?_exists src i (omega arith) in
      let (d, d_at) = get_elem?_exists dest i (omega arith) in
      subst (CopyOutcome src dest i n w) (sym (copy_loop_step k i src dest w s d s_at d_at))
        (elim (Bool-cases (no_error (copy_fn s d w).0)) [
          | inl ok ↦
              let dest1 = modify dest i (λ _. (copy_fn s d w).1) in
              let l = length-modify dest i (λ _. (copy_fn s d w).1) in
              let (fault, same_length, low, same) =
                copy_loop_lem k (i + 1) n src dest1 (copy_fn s d w).2 (omega arith) hs
                  (omega (arith, l)) in
              rw ok (
                fault ∙ copies.clean s d w,
                same_length ∙ l,
                λ j h. low j (omega arith) ∙ get_elem?-modify_ne dest i j _ (omega arith),
                λ all j s' a b g. elim (dec_lt i j) [
                  | yes p ↦ same all j s' (omega arith) b g
                  | no p ↦
                      let at : i ≡ j = omega arith in
                      let here = low i (omega arith) ∙ get_elem?-modify_self dest i _ d d_at in
                      let same_s : s ≡ s' = cc in
                      (
                        (copy_fn s d w).1,
                        subst
                            (λ (m : ℕ).
                              get_elem? (copy_loop copy_fn k (i + 1) src dest1 (copy_fn s d w).2).1
                                m
                              ≡ some (copy_fn s d w).1)
                            at here,
                        copies.content_copied s d w ok ∙ ap content same_s,
                      )
                ],
              )
          | inr bad ↦ rw bad (
            copies.clean s d w,
            length-modify dest i _,
            λ j h. get_elem?-modify_ne dest i j _ (omega arith),
            λ all. cc,
          )
        ])

  -- The outcome of cloning the items of `src` into the block of `d`, which has as many in use.
  abbrev pub ItemsCopied : SgVector T → World → SgError × VecPtr T × World → Type 0
  ItemsCopied src w out =
      (out.2.fault ≡ w.fault)
      × (((no_error out.0 ≡ false) × (out.1 ≡ null))
          ⊎ ((d : SgVector T) × (out.0 ≡ error_none)
              × (out.1 ≡ live d)
              × IsValid d
              × (d.used_count ≡ src.used_count)
              × (d.info ≡ src.info)
              × SameItems src.cells d.cells 0 src.used_count))

  copied_lem :
      (src d : SgVector T) (w : World) (out : SgError × List T × World)
      → IsValid d
      → d.used_count ≡ src.used_count
      → d.info ≡ src.info
      → CopyOutcome src.cells d.cells 0 src.used_count w out
      → ItemsCopied src w (copied d out)
  unfolding copied
  copied_lem src d w (rc, cells, w') valid count info (fault, l, _, same) =
      elim (Bool-cases (no_error rc)) [
        | inl ok ↦ rw ok (
          fault,
          inr (
            record d { cells = cells },
            refl,
            refl,
            record {
              used_in = omega (arith, valid);
              alloc_in = omega (arith, valid);
              sized = valid.sized;
            },
            count,
            info,
            same ok,
          ),
        )
        | inr bad ↦
            let freed = free_lem (record d { cells = cells }) w' (omega (arith, valid)) in
            rw bad (ap (λ (x : World). x.fault) freed ∙ fault, inl (bad, refl))
      ]

  module _ (src : SgVector T) (src_valid : IsValid src)
      (given : src.info.copy_fn ≡ some copy_fn) where
    pub clone_items_lem :
        (d : SgVector T) (w : World)
        → IsValid d
        → d.used_count ≡ src.used_count
        → d.info ≡ src.info
        → ItemsCopied src w (clone_items (live d) src w)
    unfolding clone_items copy_all
    clone_items_lem d w valid count info =
        subst (λ o. ItemsCopied src w (copy_all o d src w)) (sym given)
          (copied_lem src d w (copy_loop copy_fn src.used_count 0 src.cells d.cells w) valid count
            info
            (copy_loop_lem src.used_count 0 src.used_count src.cells d.cells w (omega arith)
              src_valid.used_in (omega (arith, valid.used_in))))

    pub same_count_lem :
        (d : SgVector T) (w : World)
        → IsValid d
        → d.used_count ≡ src.used_count
        → d.info ≡ src.info
        → ItemsCopied src w (sg_vector_clone_into_int d src w)
    unfolding sg_vector_clone_into_int
    same_count_lem d w valid count info =
        rw ((==_iff d.used_count src.used_count).1 count) (clone_items_lem d w valid count info)

    -- The outcome of a clone: NULL, or a valid vector with the content of `src`, item by item.
    abbrev pub IsClone : VecPtr T → Type 0
    IsClone p =
        (d : SgVector T) × (p ≡ live d)
        × IsValid d
        × (d.used_count ≡ src.used_count)
        × (d.info ≡ src.info)
        × SameItems src.cells d.cells 0 src.used_count

    -- A clone or NULL, with nothing touched that is not the callee's.
    abbrev pub Cloned : World → VecPtr T × World → Type 0
    Cloned w out = (out.1.fault ≡ w.fault) × ((out.0 ≡ null) ⊎ IsClone out.0)

    keep_or_free :
        (w : World) (rc : SgError) (p : VecPtr T) (w' : World)
        → ItemsCopied src w (rc, p, w')
        → Cloned w (if no_error rc then (p, w') else (null, sg_vector_free p w'))
    unfolding sg_vector_free
    keep_or_free w rc p w' (fault, inl (bad, e)) = rw (bad, e) (fault, inl refl)
    keep_or_free w rc p w' (fault, inr (d, ok, e, valid, count, info, same)) =
        rw (ok, e) (fault, inr (d, refl, valid, count, info, same))

    clone_created_lem :
        (bs n : ℕ) (w : World) (p : VecPtr T) (w1 : World)
        → Created bs n src.used_count src.info w (p, w1)
        → Cloned w (clone_created src (p, w1))
    unfolding clone_created
    clone_created_lem bs n w p w1 (fault, inl (e, _)) = rw (e, clone_created) (fault, inl refl)
    clone_created_lem bs n w p w1 (fault, inr (v, e, valid, count, _, info, _, _)) =
        let (kept, out) = keep_or_free w1 _ _ _ (same_count_lem v w1 valid count info) in
        subst (λ q. Cloned w (clone_created src (q, w1))) (sym e) (kept ∙ fault, out)

    -- `sg_vector_clone` of a valid vector whose `copy_fn` copies returns NULL or a valid vector with
    -- as many items in use, the same functions, and the same content item by item. Nothing outside
    -- of a block and nothing freed is touched, also where memory runs out or a copy fails.
    pub clone_lem :
        (w : World)
        → Fits src.block_shift (max src.alloc_count src.used_count) src.info.item_size
        → let (p, w') = sg_vector_clone (live src) w in
          (w'.fault ≡ w.fault) × ((p ≡ null) ⊎ IsClone p)
    unfolding sg_vector_clone
    clone_lem w fits =
        clone_created_lem src.block_shift (max src.alloc_count src.used_count) w _ _
          (create_int_lem src.block_shift src.alloc_count src.used_count src.info w fits)
