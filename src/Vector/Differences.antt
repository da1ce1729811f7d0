-- ===== src/Vector/Differences.antt =====
-- `sg_vector_compute_diff` as a whole, and the two ways in which an empty vector leads it, or a
-- later resize, out of its block.
pub mod Plenty
use mathlib.Core.Path.{ap₂}
use libstatgrab.Base.{
  ℕ, zero, suc, ◌≤◌, ◌<◌, ◌≡◌, ◌≢◌, refl, ap, subst, sym, ◌∙◌, arith, max, List, [], ◌∷◌, Option,
  Bool, none, some, true, false, ◌⊎◌, inl, inr, Bool-cases, Ordering, length, take, drop, map,
  get_elem?, ltb, take-append, length-take, length-drop, length-append, take-length,
}
use libstatgrab.Error.{World, no_error, malloc}
use libstatgrab.Error.Codes.{SgError, error_none}
use libstatgrab.Tools.Alloc.{sg_realloc}
use libstatgrab.Vector.{
  SgVector, VecPtr, null, live, dangling, sg_vector_create, sg_vector_create_int, sg_vector_resize,
  shift_loop, next_power2_in, sg_vector_init_new, init_items, init_loop, touch, resize_live,
  sg_vector_destroy_unused, destroy_items, init_rest,
}
use libstatgrab.Vector.Grow.{IsValid, Fits}
use libstatgrab.Vector.Clone.{CopyFn}
use libstatgrab.Vector.Copies.{Copies, IsClone}
use libstatgrab.Vector.Into.{ClonedInto, clone_into_null, clone_into_lem, clone_into_empty, Refused}
use libstatgrab.Vector.Diff.{
  items, no_bits, diff_item, diff_items, diff_cells, diff_cloned, diff_from, sg_vector_compute_diff,
}
use libstatgrab.Vector.Matching.{Keyed, Distinct, diff_with, diff_items_lem}

-- Two blocks that agree item by item have the same items in use.
pub take_of_same :
    {T : Type 0} (n : ℕ) (xs ys : List T)
    → n ≤ length xs
    → ((j : ℕ) (s : T) → j < n → get_elem? xs j ≡ some s → get_elem? ys j ≡ some s)
    → take n ys ≡ take n xs
take_of_same zero xs ys h same = refl
take_of_same (suc n) [] ys h same = absurd (omega arith)
take_of_same (suc n) (x ∷ xs) [] h same = absurd (ground (arith, same 0 x (omega arith) refl))
take_of_same (suc n) (x ∷ xs) (y ∷ ys) h same =
    ap₂ ◌∷◌ (ground (arith, same 0 x (omega arith) refl))
      (take_of_same n xs ys (omega arith) (λ j s lt g. same (suc j) s (omega arith) g))

length-diff_items :
    {T : Type 0} (compare_fn : T → T → Ordering) (diff_fn : T → T → T) (last : List T)
    (bits : List Bool) (ds : List T)
    → length (diff_items compare_fn diff_fn last bits ds) ≡ length ds
unfolding diff_items
length-diff_items compare_fn diff_fn last bits [] = refl
length-diff_items compare_fn diff_fn last bits (d ∷ ds) =
    ap suc
      (length-diff_items compare_fn diff_fn last (diff_item compare_fn diff_fn last 0 bits d).0 ds)

module _ {T K : Type 0} (compare_fn : T → T → Ordering) (diff_fn : T → T → T) (key : T → K)
    (keyed : Keyed compare_fn diff_fn key) (copy_fn : CopyFn T) (copies : Copies (λ x. x) copy_fn)
    (cur last : SgVector T) (cur_valid : IsValid cur) (last_valid : IsValid last)
    (copy_given : cur.info.copy_fn ≡ some copy_fn)
    (compare_given : last.info.compare_fn ≡ some compare_fn)
    (diff_given : last.info.compute_diff_fn ≡ some diff_fn) where
  -- What `sg_vector_compute_diff` promises: NULL, or no error and a valid vector that holds, for
  -- each item of `cur` in order, its difference to the item of its key in `last`.
  abbrev pub Differs : World → SgError × VecPtr T × World → Type 0
  Differs w out =
      (out.2.fault ≡ w.fault)
      × ((out.1 ≡ null)
          ⊎ ((d : SgVector T) × (out.0 ≡ error_none)
              × (out.1 ≡ live d)
              × IsValid d
              × (items d ≡ map (diff_with compare_fn diff_fn key (items last)) (items cur))))

  diff_cells_lem :
      (d : SgVector T) (w : World)
      → IsValid d
      → Distinct compare_fn diff_fn key (items last)
      → Distinct compare_fn diff_fn key (items d)
      → let (p, w') = diff_cells (some compare_fn) (some diff_fn) d last w in
        (w' ≡ w)
        × ((d' : SgVector T) × (p ≡ live d')
            × IsValid d'
            × (items d' ≡ map (diff_with compare_fn diff_fn key (items last)) (items d)))
  unfolding diff_cells
  diff_cells_lem d w valid dl dd =
      let new = diff_items compare_fn diff_fn (items last) (no_bits last.used_count) (items d) in
      let l =
        length-diff_items compare_fn diff_fn (items last) (no_bits last.used_count) (items d) in
      let lt = length-take d.used_count d.cells in
      let ld = length-drop d.used_count d.cells in
      let la = length-append new (drop d.used_count d.cells) in
      let ok1 : ltb (length last.cells) last.used_count ≡ false =
        ground (arith, last_valid.used_in) in
      let ok2 : ltb (length d.cells) d.used_count ≡ false = ground (arith, valid.used_in) in
      rw (ok1, ok2)
        (
          refl,
          (
            _,
            refl,
            record {
              used_in = omega (arith, valid.used_in, l, lt, ld, la);
              alloc_in = omega (arith, valid.used_in, valid.alloc_in, l, lt, ld, la);
              sized = valid.sized;
            },
            take-append d.used_count new (drop d.used_count d.cells)
                  (omega (arith, valid.used_in, l, lt))
                ∙ take-length d.used_count new (omega (arith, l, lt))
                ∙ diff_items_lem compare_fn diff_fn key keyed (items last) last.used_count (items d)
                    dl dd,
          ),
        )

  -- The difference itself.
  abbrev pub Made : World → SgError × VecPtr T × World → Type 0
  Made w out =
      (out.2.fault ≡ w.fault)
      × ((d : SgVector T) × (out.0 ≡ error_none)
          × (out.1 ≡ live d)
          × IsValid d
          × (items d ≡ map (diff_with compare_fn diff_fn key (items last)) (items cur)))

  diff_from_clone :
      (w : World) (rc : SgError) (p : VecPtr T) (w' : World)
      → w'.fault ≡ w.fault
      → (rc ≡ error_none) × IsClone (λ x. x) copy_fn copies cur cur_valid copy_given p
      → Distinct compare_fn diff_fn key (items last)
      → Distinct compare_fn diff_fn key (items cur)
      → Made w (diff_from (rc, p, w') (live last))
  unfolding diff_from diff_cloned
  diff_from_clone w rc p w' fault (ok, (d, e, valid, count, info, same)) dl dd =
      let equal : items d ≡ items cur =
        ap (λ n. take n d.cells) count
        ∙ take_of_same cur.used_count cur.cells d.cells cur_valid.used_in
            (λ j s lt g. let (x, at, eq) = same j s (omega arith) lt g in at ∙ ap some eq) in
      let (kept, (d', e', valid', got)) =
        diff_cells_lem d w' valid dl (subst (Distinct compare_fn diff_fn key) (sym equal) dd) in
      subst (λ (q : SgError × VecPtr T). Made w (diff_from (q.0, q.1, w') (live last)))
        (sym (ap₂ (λ a b. (a, b)) ok e))
        (subst
          (λ (o : Option (T → T → Ordering) × Option (T → T → T)).
            Made w (let (p', w2) = diff_cells o.0 o.1 d last w' in (error_none, p', w2)))
          (sym (ap₂ (λ a b. (a, b)) compare_given diff_given))
          (
            ap (λ (x : World). x.fault) kept ∙ fault,
            (
              d',
              refl,
              e',
              valid',
              got ∙ ap (map (diff_with compare_fn diff_fn key (items last))) equal,
            ),
          ))

  diff_from_lem :
      (w : World) (rc : SgError) (p : VecPtr T) (w' : World)
      → Distinct compare_fn diff_fn key (items last)
      → Distinct compare_fn diff_fn key (items cur)
      → ClonedInto (λ x. x) copy_fn copies cur cur_valid copy_given w (rc, p, w')
      → Differs w (diff_from (rc, p, w') (live last))
  unfolding diff_from diff_cloned
  diff_from_lem w rc p w' dl dd (fault, inl e) =
      subst (λ q. Differs w (diff_from (rc, q, w') (live last))) (sym e)
        (elim (Bool-cases (no_error rc)) [
          | inl ok ↦ rw ok (fault, inl refl)
          | inr bad ↦ rw bad (fault, inl refl)
        ])
  diff_from_lem w rc p w' dl dd (fault, inr clone) =
      let (kept, made) = diff_from_clone w rc p w' fault clone dl dd in (kept, inr made)

  -- `sg_vector_compute_diff` of a valid vector `cur` to a valid vector `last`, into a destination that
  -- is NULL: NULL, or no error and a new valid vector that holds for each item of `cur`, in
  -- order, its difference to the item of the same key in `last`, or the item itself where `last` has
  -- no such item. Both have distinct keys, `copy_fn` copies whole items, and there is a block for
  -- the items. Nothing is touched that is not the callee's.
  pub compute_diff_new :
      (w : World)
      → Fits cur.block_shift (max cur.alloc_count cur.used_count) cur.info.item_size
      → Distinct compare_fn diff_fn key (items last)
      → Distinct compare_fn diff_fn key (items cur)
      → Differs w (sg_vector_compute_diff null (live cur) (live last) w)
  unfolding sg_vector_compute_diff
  compute_diff_new w fits dl dd =
      diff_from_lem w _ _ _ dl dd
        (clone_into_null (λ x. x) copy_fn copies cur cur_valid copy_given w fits)

  diff_from_null :
      (rc : SgError) (p : VecPtr T) (w' : World)
      → p ≡ null
      → (diff_from (rc, p, w') (live last)).1 ≡ null
  unfolding diff_from diff_cloned
  diff_from_null rc p w' e =
      subst (λ q. (diff_from (rc, q, w') (live last)).1 ≡ null) (sym e)
        (elim (Bool-cases (no_error rc)) [ inl ok ↦ rw ok refl | inr bad ↦ rw bad refl ])

  -- The same into a valid destination with the functions of `cur`, as in a second call. There is one
  -- more outcome: where the counts differ and the destination's block could not be resized, the
  -- destination becomes NULL.
  pub compute_diff_again :
      (d : SgVector T) (w : World)
      → IsValid d
      → d.info ≡ cur.info
      → (d.used_count ≡ cur.used_count) ⊎ Fits d.block_shift cur.used_count d.info.item_size
      → Distinct compare_fn diff_fn key (items last)
      → Distinct compare_fn diff_fn key (items cur)
      → let out = sg_vector_compute_diff (live d) (live cur) (live last) w in
        (Refused (λ x. x) copy_fn copies cur cur_valid copy_given d w × (out.1 ≡ null))
        ⊎ Differs w out
  unfolding sg_vector_compute_diff
  compute_diff_again d w valid info counts dl dd =
      elim (clone_into_lem (λ x. x) copy_fn copies cur cur_valid copy_given d w valid info counts) [
        | inl (refused, gone, _) ↦ inl (refused, diff_from_null _ _ _ gone)
        | inr cloned ↦ inr (diff_from_lem w _ _ _ dl dd cloned)
      ]

-- Where `cur` has no item in use, the destination has one and `last` is a vector,
-- `sg_vector_compute_diff` follows the pointer to the destination that it has freed.
pub compute_diff_empty :
    {T : Type 0} (d cur last : SgVector T) (w : World)
    → IsValid d
    → d.used_count ≢ 0
    → cur.used_count ≡ 0
    → let (rc, p, w') = sg_vector_compute_diff (live d) (live cur) (live last) w in
      (rc ≡ error_none) × (p ≡ dangling) × (w'.fault ≡ true)
unfolding sg_vector_compute_diff diff_from diff_cloned
compute_diff_empty d cur last w valid some_items empty =
    let (ok, gone, fault) = clone_into_empty d cur w valid some_items empty in
    rw (ok, gone, diff_cloned) (refl, refl, refl)

-- A vector that `sg_vector_create` makes for no items, with a block size of 0, counts an item that
-- its block has no room for. A first resize to one item initialises it beyond the end of the block.
create_empty-resize :
    {T : Type 0} (init : T → T) (raw : T) (pre : World)
    → let (p, w) =
        sg_vector_create 0 0 0
          (record {
            item_size = 8;
            init_fn = some init;
            copy_fn = none;
            compute_diff_fn = none;
            compare_fn = none;
            destroy_fn = none;
            raw = raw;
          })
          (record pre { oom = [] }) in
      (w.fault ≡ pre.fault) × ((sg_vector_resize p 1 w).1.fault ≡ true)
unfolding sg_vector_create sg_vector_create_int shift_loop next_power2_in sg_realloc malloc
    sg_vector_init_new init_items init_loop touch sg_vector_resize resize_live
    sg_vector_destroy_unused destroy_items init_rest
create_empty-resize init raw pre = (refl, refl)
