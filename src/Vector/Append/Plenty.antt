-- ===== src/Vector/Append/Plenty.antt =====
-- A reader's loop where memory is plenty: every item is there.
use mathlib.Core.List.{append_assoc, append-nil}
use libstatgrab.Base.{
  ℕ, suc, ◌+◌, min, ◌≡◌, refl, ap, subst, sym, ◌∙◌, arith, List, [], ◌∷◌, ◌++◌, Option, none, some,
  true, ◌⊎◌, inl, inr, take, modify, length, if◌then◌else◌, length-modify,
}
use libstatgrab.Error.{World, no_error}
use libstatgrab.Error.Codes.{SgError, error_none}
use libstatgrab.Vector.{
  SgVector, VectorInfo, VecPtr, null, live, dangling, sg_vector_create, shift_loop,
}
use libstatgrab.Vector.Grow.{IsValid, Fits, Initialised}
use libstatgrab.Vector.Plenty.{resize-plenty, create-plenty}
use libstatgrab.Vector.Diff.{items}
use libstatgrab.Vector.Append.{
  create_or_resize, update_end, vector_update, fill_item, not_plus_one, Appended, append_one,
  append_loop,
}
use libstatgrab.Vector.Append.Growth.{
  Room, Room-Fits, Room-fewer, take-modify_next, AllShow, all_made, add_made,
}

module _ {T : Type 0} (info : VectorInfo T) (init : T → T) (init_given : info.init_fn ≡ some init)
    (bs : ℕ) where
  -- What a pointer holds: no vector yet, or a valid one with its items.
  abbrev pub Holds : VecPtr T → ℕ → List T → Type 0
  Holds null n xs = (n ≡ 0) × (xs ≡ []) × (bs ≡ 0)
  Holds (live v) n xs =
      IsValid v × (v.info ≡ info) × (v.block_shift ≡ bs) × (n ≡ v.used_count) × (items v ≡ xs)
  Holds dangling n xs = ⊥

  -- A store into the last of the items.
  filled_last :
      (f : T → World → SgError × T × World) (n : ℕ) (xs : List T) (v : SgVector T) (w : World)
      → IsValid v
      → v.info ≡ info
      → v.block_shift ≡ bs
      → v.used_count ≡ n + 1
      → take n v.cells ≡ xs
      → Initialised v n (n + 1)
      → (p : VecPtr T) × (x : T) × (fill_item info f n
            (update_end info (not_plus_one n) (live v, w))
          ≡ ((f (init x) w).0, p, (f (init x) w).2))
        × Holds p (n + 1) (xs ++ (f (init x) w).1 ∷ [])
  unfolding fill_item update_end
  filled_last f n xs v w valid same shift used kept fresh =
      let (x, ex) =
        fresh init n (ap (λ (i : VectorInfo T). i.init_fn) same ∙ init_given) (omega arith)
          (omega arith) in
      let g = λ (y : T). (f (init x) w).1 in
      let s : n + 1 ≡ suc n = omega arith in
      rw (ex, fill_item)
        (
          live (record v { cells = modify v.cells n g }),
          x,
          refl,
          (
            record {
              used_in = omega (arith, length-modify v.cells n g, valid);
              alloc_in = omega (arith, length-modify v.cells n g, valid);
              sized = valid.sized;
            },
            same,
            shift,
            sym used,
            ap (λ k. take k (modify v.cells n g)) (used ∙ s)
                ∙ take-modify_next v.cells n g (init x) ex
                ∙ ap (λ (l : List T). l ++ (f (init x) w).1 ∷ []) kept,
          ),
        )

  -- What one item more gives.
  abbrev pub OneMore :
      (T → World → SgError × T × World) → ℕ → List T → World → SgError × VecPtr T × World → Type 0
  OneMore f n xs w out =
      (q : VecPtr T) × (x : T) × (out ≡ ((f (init x) w).0, q, (f (init x) w).2))
      × Holds q (n + 1) (xs ++ (f (init x) w).1 ∷ [])

  first_item :
      (f : T → World → SgError × T × World) (w : World)
      → w.oom ≡ []
      → bs ≡ 0
      → Fits bs 1 info.item_size
      → OneMore f 0 [] w (append_one info f 0 null w)
  unfolding append_one vector_update create_or_resize sg_vector_create shift_loop
  first_item f w h flat fits =
      let (v, is, valid, used, same, shift, fresh) =
        create-plenty 0 1 1 info w h (subst (λ b. Fits b 1 info.item_size) flat fits) in
      rw is (filled_last f 0 [] v w valid same (shift ∙ sym flat) used refl fresh)

  next_item :
      (f : T → World → SgError × T × World) (v : SgVector T) (w : World)
      → w.oom ≡ []
      → IsValid v
      → v.info ≡ info
      → v.block_shift ≡ bs
      → Fits bs (v.used_count + 1) info.item_size
      → OneMore f v.used_count (items v) w (append_one info f v.used_count (live v) w)
  unfolding append_one vector_update create_or_resize
  next_item f v w h valid same shift fits =
      let n = v.used_count in
      let fits_v : Fits v.block_shift (n + 1) v.info.item_size =
        subst (λ (i : VectorInfo T). Fits v.block_shift (n + 1) i.item_size) (sym same)
          (subst (λ b. Fits b (n + 1) info.item_size) (sym shift) fits) in
      let (u, is, valid_u, used, kept_info, kept_shift, kept, fresh) =
        resize-plenty v (n + 1) w h valid fits_v in
      let m : min (n + 1) n ≡ n = omega arith in
      rw is (
        filled_last f n (items v) u w valid_u (kept_info ∙ same) (kept_shift ∙ shift) used
          (subst (λ k. take k u.cells ≡ take k v.cells) m kept) fresh)

  one_more :
      (f : T → World → SgError × T × World) (n : ℕ) (xs : List T) (p : VecPtr T) (w : World)
      → w.oom ≡ []
      → Holds p n xs
      → Fits bs (n + 1) info.item_size
      → OneMore f n xs w (append_one info f n p w)
  one_more f n xs null w h (unused, empty, flat) fits =
      subst (λ k. OneMore f k xs w (append_one info f k null w)) (sym unused)
        (subst (λ l. OneMore f 0 l w (append_one info f 0 null w)) (sym empty)
          (first_item f w h flat (subst (λ k. Fits bs (k + 1) info.item_size) unused fits)))
  one_more f n xs (live v) w h (valid, same, shift, count, is) fits =
      subst (λ k. OneMore f k xs w (append_one info f k (live v) w)) (sym count)
        (subst (λ l. OneMore f v.used_count l w (append_one info f v.used_count (live v) w)) is
          (next_item f v w h valid same shift
            (subst (λ k. Fits bs (k + 1) info.item_size) count fits)))
  one_more f n xs dangling w h held fits = absurd held

  -- `Inv` is what the filling of items keeps of the world; it includes that memory is plenty.
  module _ {R V : Type 0} (fill : R → Option (T → World → SgError × T × World))
      (Shows : T → V → Type 0) (made : R → Option V) (Inv : World → Type 0)
      (plenty : (w : World) → Inv w → w.oom ≡ []) where
    abbrev pub FillsWell : (T → World → SgError × T × World) → V → Type 0
    FillsWell f y =
        (x : T) (w : World)
        → Inv w
        → let (rc, x', w') = f (init x) w in (rc ≡ error_none) × Shows x' y × Inv w'

    abbrev pub MakesWell : R → Type 0
    MakesWell r =
        ((fill r ≡ none) × (made r ≡ none))
        ⊎ ((f : T → World → SgError × T × World) × (y : V) × (fill r ≡ some f)
            × (made r ≡ some y)
            × FillsWell f y)

    -- The loop ends with no error, and its items follow those that were there.
    abbrev pub AllAppended : List R → List T → Appended T → Type 0
    AllAppended rs xs out =
        (out.rc ≡ error_none)
        × Inv out.world
        × ((new : List T) × AllShow Shows new (all_made made rs)
            × Holds out.vector out.count (xs ++ new))

    abbrev next : List R → ℕ → SgError × VecPtr T × World → Appended T
    next rs n out =
        let rest = append_loop info fill rs (n + 1) out.1 out.2 in
        if no_error out.0
        then rest
        else record { rc = out.0; vector = out.1; count = n; world = out.2 }

    after_item :
        (r : R) (f : T → World → SgError × T × World) (y : V) (rs : List R) (n : ℕ) (xs : List T)
        (w : World) (out : SgError × VecPtr T × World)
        → made r ≡ some y
        → FillsWell f y
        → Inv w
        → OneMore f n xs w out
        → ((q : VecPtr T) (ys : List T) (w' : World)
            → Inv w'
            → Holds q (n + 1) ys
            → AllAppended rs ys (append_loop info fill rs (n + 1) q w'))
        → AllAppended (r ∷ rs) xs (next rs n out)
    after_item r f y rs n xs w out e fills inv (q, x, is, held) ih =
        let (rc, shows, kept) = fills x w inv in
        let go : no_error (f (init x) w).0 ≡ true = ap no_error rc in
        let (ok, after, (new, all, holds)) =
          ih q (xs ++ (f (init x) w).1 ∷ []) (f (init x) w).2 kept held in
        subst (λ o. AllAppended (r ∷ rs) xs (next rs n o)) (sym is)
          (rw go (
            ok,
            after,
            (
              (f (init x) w).1 ∷ new,
              subst (λ o. AllShow Shows ((f (init x) w).1 ∷ new) (add_made o (all_made made rs)))
                  (sym e) (shows, all),
              subst
                  (λ l.
                    Holds (append_loop info fill rs (n + 1) q (f (init x) w).2).vector
                      (append_loop info fill rs (n + 1) q (f (init x) w).2).count l)
                  (append_assoc xs ((f (init x) w).1 ∷ []) new) holds,
            ),
          ))

    -- A loop over records, on no vector or on a valid one with its items counted and with room for one item for every
    -- record, where memory is plenty and every item that is wanted can be filled in: it ends with no
    -- error, and the vector has one item more for every record that is not skipped, in their order, after
    -- those that were there. Without any item there is still no vector.
    pub append_loop-plenty :
        (rs : List R) (n : ℕ) (xs : List T) (p : VecPtr T) (w : World)
        → ((r : R) → MakesWell r)
        → Inv w
        → Holds p n xs
        → Room bs (n + length rs) info.item_size
        → AllAppended rs xs (append_loop info fill rs n p w)
    unfolding append_loop
    append_loop-plenty [] n xs p w makes inv held room =
        (refl, inv, ([], tt, subst (Holds p n) (sym (append-nil xs)) held))
    append_loop-plenty (r ∷ rs) n xs p w makes inv held room = elim (makes r) [
      | inl (skip, e) ↦
          let fewer =
            Room-fewer bs (n + length rs) (n + length (r ∷ rs)) info.item_size (omega arith) room in
          let (ok, after, (new, all, holds)) =
            append_loop-plenty rs n xs p w makes inv held fewer in
          rw (skip, append_loop)
            (
              ok,
              after,
              (
                new,
                subst (λ o. AllShow Shows new (add_made o (all_made made rs))) (sym e) all,
                holds,
              ),
            )
      | inr (f, y, wanted, e, fills) ↦
          rw (wanted, append_loop)
            (after_item r f y rs n xs w (append_one info f n p w) e fills inv
              (one_more f n xs p w (plenty w inv) held (
                Room-Fits bs (n + 1) (n + length (r ∷ rs)) info.item_size (omega arith)
                  (omega arith) room))
              (λ q ys w' after holds. append_loop-plenty rs (n + 1) ys q w' makes after holds (
                Room-fewer bs (n + 1 + length rs) (n + length (r ∷ rs)) info.item_size (omega arith)
                  room)))
    ]
