-- ===== src/Vector/Differences/Plenty.antt =====
-- `sg_vector_clone` and `sg_vector_compute_diff` of src/libstatgrab/vector.c where memory is plenty: neither returns
-- NULL.
use libstatgrab.Base.{
  ℕ, zero, suc, ◌+◌, ◌≤◌, ◌≡◌, refl, ap, sym, ◌∙◌, arith, max, List, [], ◌∷◌, some, ◌⊎◌, inl, inr,
  Bool-cases, Ordering, length, get_elem?, modify, length-modify, ◌==◌,
}
use libstatgrab.Error.{World}
use libstatgrab.Error.Codes.{SgError, error_none}
use libstatgrab.Vector.{SgVector, VecPtr, null, live}
use libstatgrab.Vector.Grow.{IsValid, Fits}
use libstatgrab.Vector.Clone.{
  CopyFn, copy_loop, copied, copy_all, clone_items, clone_created, sg_vector_clone_into_int,
  sg_vector_clone, sg_vector_clone_into,
}
use libstatgrab.Vector.Copies.{Copies}
use libstatgrab.Vector.Into.{clone_into_lem}
use libstatgrab.Vector.Plenty.{resize-plenty, create-plenty}
use libstatgrab.Vector.Diff.{items, sg_vector_compute_diff}
use libstatgrab.Vector.Matching.{Keyed, Distinct}
use libstatgrab.Vector.Differences.{Made, diff_from_clone}

-- With memory, a copy is the item.
abbrev pub CopiesWhole : {T : Type 0} → CopyFn T → Type 0
CopiesWhole {T} copy_fn = (s d : T) (w : World) → w.oom ≡ [] → copy_fn s d w ≡ (error_none, s, w)

item_there :
    {A : Type 0} (xs : List A) (i : ℕ) → suc i ≤ length xs → (x : A) × (get_elem? xs i ≡ some x)
item_there [] i h = absurd (omega (arith, h))
item_there (x ∷ xs) zero h = (x, refl)
item_there (x ∷ xs) (suc i) h = item_there xs i (omega (arith, h))

module _ {T : Type 0} (copy_fn : CopyFn T) (whole : CopiesWhole copy_fn) where
  copy_loop-plenty :
      (k i : ℕ) (src dest : List T) (w : World)
      → w.oom ≡ []
      → i + k ≤ length src
      → i + k ≤ length dest
      → ((copy_loop copy_fn k i src dest w).0 ≡ error_none)
        × ((copy_loop copy_fn k i src dest w).2 ≡ w)
  unfolding copy_loop
  copy_loop-plenty zero i src dest w h in_src in_dest = (refl, refl)
  copy_loop-plenty (suc k) i src dest w h in_src in_dest =
      let (s, at_s) = item_there src i (omega (arith, in_src)) in
      let (d, at_d) = item_there dest i (omega (arith, in_dest)) in
      let size = length-modify dest i (λ x. s) in
      rw (at_s, copy_loop)
        (rw (at_d, copy_loop)
          (rw (whole s d w h) (
            copy_loop-plenty k (i + 1) src (modify dest i (λ x. s)) w h (omega (arith, in_src))
              (omega (arith, in_dest, size)))))

  -- A vector, no error, and the world as it was.
  abbrev pub Given : World → SgError × VecPtr T × World → Type 0
  Given w out = (v : SgVector T) × (out ≡ (error_none, live v, w))

  clone_items-plenty :
      (d src : SgVector T) (w : World)
      → src.info.copy_fn ≡ some copy_fn
      → w.oom ≡ []
      → src.used_count ≤ length src.cells
      → src.used_count ≤ length d.cells
      → Given w (clone_items (live d) src w)
  unfolding clone_items copy_all copied
  clone_items-plenty d src w given h in_src in_dest =
      let out = copy_loop copy_fn src.used_count 0 src.cells d.cells w in
      let (ok, kept) =
        copy_loop-plenty src.used_count 0 src.cells d.cells w h (omega (arith, in_src))
          (omega (arith, in_dest)) in
      rw (given, ok, kept) (record d { cells = out.1 }, refl)

  clone_into_int-plenty :
      (d src : SgVector T) (w : World)
      → src.info.copy_fn ≡ some copy_fn
      → w.oom ≡ []
      → IsValid src
      → IsValid d
      → (d.used_count ≡ src.used_count) ⊎ Fits d.block_shift src.used_count d.info.item_size
      → Given w (sg_vector_clone_into_int d src w)
  unfolding sg_vector_clone_into_int
  clone_into_int-plenty d src w given h valid d_valid counts =
      elim (Bool-cases (d.used_count == src.used_count)) [
        | inl e ↦
            let same : d.used_count ≡ src.used_count = ground (arith, e) in
            rw e (
              clone_items-plenty d src w given h valid.used_in
                (omega (arith, d_valid.used_in, same)))
        | inr e ↦ elim counts [
          | inl same ↦ absurd (ground (arith, e, same))
          | inr fits ↦
              let (v', is, valid', count, _, _, _, _) =
                resize-plenty d src.used_count w h d_valid fits in
              rw (e, is)
                (clone_items-plenty v' src w given h valid.used_in
                  (omega (arith, valid'.used_in, count)))
        ]
      ]

  clone_into-plenty :
      (d src : SgVector T) (w : World)
      → src.info.copy_fn ≡ some copy_fn
      → w.oom ≡ []
      → IsValid src
      → IsValid d
      → (d.used_count ≡ src.used_count) ⊎ Fits d.block_shift src.used_count d.info.item_size
      → Given w (sg_vector_clone_into (live d) (live src) w)
  unfolding sg_vector_clone_into
  clone_into-plenty d src w given h valid d_valid counts =
      let (v, is) = clone_into_int-plenty d src w given h valid d_valid counts in rw is (v, refl)

  pub clone-plenty :
      (src : SgVector T) (w : World)
      → src.info.copy_fn ≡ some copy_fn
      → w.oom ≡ []
      → IsValid src
      → Fits src.block_shift (max src.alloc_count src.used_count) src.info.item_size
      → (v : SgVector T) × (sg_vector_clone (live src) w ≡ (live v, w))
  unfolding sg_vector_clone clone_created
  clone-plenty src w given h valid fits =
      let (v, is, v_valid, count, _, _, _) =
        create-plenty src.block_shift src.alloc_count src.used_count src.info w h fits in
      let (v', copied_is) = clone_into_int-plenty v src w given h valid v_valid (inl count) in
      rw (is, clone_created) (rw copied_is (v', refl))

module _ {T K : Type 0} (compare_fn : T → T → Ordering) (diff_fn : T → T → T) (key : T → K)
    (keyed : Keyed compare_fn diff_fn key) (copy_fn : CopyFn T) (copies : Copies (λ x. x) copy_fn)
    (whole : CopiesWhole copy_fn) (cur last : SgVector T) (cur_valid : IsValid cur)
    (last_valid : IsValid last) (copy_given : cur.info.copy_fn ≡ some copy_fn)
    (compare_given : last.info.compare_fn ≡ some compare_fn)
    (diff_given : last.info.compute_diff_fn ≡ some diff_fn) where
  pub compute_diff-plenty :
      (d : SgVector T) (w : World)
      → w.oom ≡ []
      → IsValid d
      → d.info ≡ cur.info
      → (d.used_count ≡ cur.used_count) ⊎ Fits d.block_shift cur.used_count d.info.item_size
      → Distinct compare_fn diff_fn key (items last)
      → Distinct compare_fn diff_fn key (items cur)
      → Made compare_fn diff_fn key keyed copy_fn copies cur last cur_valid last_valid copy_given
          compare_given diff_given w
          (sg_vector_compute_diff (live d) (live cur) (live last) w)
  unfolding sg_vector_compute_diff
  compute_diff-plenty d w h valid info counts dl dd =
      let (v, is) = clone_into-plenty copy_fn whole d cur w copy_given h cur_valid valid counts in
      let there : (sg_vector_clone_into (live d) (live cur) w).1 ≡ live v =
        ap (λ (o : SgError × VecPtr T × World). o.1) is in
      elim (clone_into_lem (λ x. x) copy_fn copies cur cur_valid copy_given d w valid info counts) [
        | inl (refused, gone, _) ↦ let e : live v ≡ null = sym there ∙ gone in absurd (cc)
        | inr (_, inl gone) ↦ let e : live v ≡ null = sym there ∙ gone in absurd (cc)
        | inr (kept, inr clone) ↦
            diff_from_clone compare_fn diff_fn key keyed copy_fn copies cur last cur_valid
              last_valid copy_given compare_given diff_given w _ _ _ kept clone dl dd
      ]
