-- ===== src/Vector/Append/Growth.antt =====
-- A vector that a reader extends item by item.
use mathlib.Core.Path.{ap₂}
use mathlib.Core.List.{append_assoc, append-nil}
use libstatgrab.Base.{
  ℕ, zero, suc, ◌+◌, ◌*◌, ◌^◌, ◌≤◌, ◌<◌, min, ◌≡◌, refl, ap, subst, sym, ◌∙◌, arith, List, [], ◌∷◌,
  ◌++◌, Option, none, some, true, false, ◌⊎◌, inl, inr, take, modify, get_elem?, length,
  if◌then◌else◌, length-modify,
}
use libstatgrab.Base.Word.{u64_mod}
use libstatgrab.Error.{World, no_error, sg_get_error, sg_get_error_glob}
use libstatgrab.Error.Codes.{SgError, error_none, error_malloc}
use libstatgrab.Vector.{
  SgVector, VectorInfo, VecPtr, null, live, faulted, sg_vector_resize, vector_size,
}
use libstatgrab.Vector.Grow.{IsValid, Fits}
use libstatgrab.Vector.Resize.{Resized, resize_lem}
use libstatgrab.Vector.Diff.{items}
use libstatgrab.Vector.Append.{
  create_or_resize, update_end, vector_update, fill_item, not_plus_one, Appended, append_one,
  append_loop,
}

-- Blocks for up to `n` items, rounded up, are within what `size_t` counts.
pub record Room (bs n item_size : ℕ) : Type 0 where
  pub count_fits : n + 2 ^ bs ≤ u64_mod
  pub item_sized : 0 < item_size
  pub bytes_fit : vector_size + (n + 2 ^ bs) * item_size ≤ u64_mod

fewer_bytes : (a b s : ℕ) → a ≤ b → vector_size + b * s ≤ u64_mod → vector_size + a * s ≤ u64_mod
fewer_bytes a b s le h = grind arith

pub Room-Fits : (bs k n s : ℕ) → 1 ≤ k → k ≤ n → Room bs n s → Fits bs k s
Room-Fits bs k n s some_items le room = record {
  some_items = some_items;
  count_fits = omega (arith, room);
  item_sized = room.item_sized;
  bytes_fit = fewer_bytes (k + 2 ^ bs) (n + 2 ^ bs) s (omega arith) room.bytes_fit;
}

pub Room-fewer : (bs k n s : ℕ) → k ≤ n → Room bs n s → Room bs k s
Room-fewer bs k n s le room = record {
  count_fits = omega (arith, room);
  item_sized = room.item_sized;
  bytes_fit = fewer_bytes (k + 2 ^ bs) (n + 2 ^ bs) s (omega arith) room.bytes_fit;
}

module _ {T : Type 0} where
  pub take-modify_next :
      (xs : List T) (n : ℕ) (f : T → T) (x : T)
      → get_elem? xs n ≡ some x
      → take (suc n) (modify xs n f) ≡ take n xs ++ f x ∷ []
  take-modify_next [] n f x e = cc
  take-modify_next (y ∷ xs) zero f x e = cc
  take-modify_next (y ∷ xs) (suc n) f x e = ap (◌∷◌ y) (take-modify_next xs n f x e)

not_plus_one_lem : (n : ℕ) → not_plus_one n ≡ true
not_plus_one_lem n = ground arith

faulted-error : (w : World) → sg_get_error (faulted w) ≡ sg_get_error w
unfolding sg_get_error sg_get_error_glob
faulted-error w = refl

abbrev pub add_made : {V : Type 0} → Option V → List V → List V
add_made none ys = ys
add_made (some y) ys = y ∷ ys

-- Every item shows what stands in its place.
abbrev pub AllShow : {T V : Type 0} → (T → V → Type 0) → List T → List V → Type 0
AllShow Shows [] [] = Unit {0}
AllShow Shows [] (y ∷ ys) = ⊥
AllShow Shows (x ∷ xs) [] = ⊥
AllShow Shows (x ∷ xs) (y ∷ ys) = Shows x y × AllShow Shows xs ys

-- Items that equal what stands in their place.
pub AllShow-eq : {T : Type 0} (xs ys : List T) → AllShow (λ a b. a ≡ b) xs ys → xs ≡ ys
AllShow-eq [] [] h = refl
AllShow-eq [] (y ∷ ys) h = absurd h
AllShow-eq (x ∷ xs) [] h = absurd h
AllShow-eq (x ∷ xs) (y ∷ ys) h = ap₂ ◌∷◌ h.0 (AllShow-eq xs ys h.1)

module _ {R V : Type 0} where
  -- What is made of the records that are not skipped.
  abbrev pub all_made : (R → Option V) → List R → List V
  all_made made [] = []
  all_made made (r ∷ rs) = add_made (made r) (all_made made rs)

module _ {T : Type 0} (info : VectorInfo T) (init : T → T)
    (init_given : info.init_fn ≡ some init) where
  -- What one more item makes of `v`. Without memory the item is stored through NULL.
  abbrev pub Grown :
      (T → World → SgError × T × World) → SgVector T → World → SgError × VecPtr T × World → Type 0
  Grown f v w out =
      ((v' : SgVector T) × (x : T) × (w1 : World) × (w1.fault ≡ w.fault)
        × (out ≡ ((f (init x) w1).0, live v', (f (init x) w1).2))
        × IsValid v'
        × (v'.info ≡ info)
        × (v'.block_shift ≡ v.block_shift)
        × (v'.used_count ≡ v.used_count + 1)
        × (items v' ≡ items v ++ (f (init x) w1).1 ∷ []))
      ⊎ ((out.0 ≡ error_malloc)
          × (out.1 ≡ null)
          × (sg_get_error out.2 ≡ error_malloc)
          × (out.2.fault ≡ true))

  fill_lem :
      (f : T → World → SgError × T × World) (v : SgVector T) (w : World) (out : VecPtr T × World)
      → v.info ≡ info
      → Resized v (v.used_count + 1) w out
      → Grown f v w
          (fill_item info f v.used_count (update_end info (not_plus_one v.used_count) out))
  unfolding fill_item update_end
  fill_lem f v w (p, w1) same (fault, inl (gone, error)) =
      rw (gone, not_plus_one_lem v.used_count) (inr (error, refl, faulted-error w1 ∙ error, refl))
  fill_lem f v w (p, w1) same (fault, inr (v', e, valid, used, info_kept, shift, kept, fresh)) =
      let n = v.used_count in
      let (x, ex) =
        fresh init n (ap (λ (i : VectorInfo T). i.init_fn) (info_kept ∙ same) ∙ init_given)
          (omega arith) (omega arith) in
      let g = λ (y : T). (f (init x) w1).1 in
      let m : min (n + 1) n ≡ n = omega arith in
      let s : n + 1 ≡ suc n = omega arith in
      rw (e, ex, fill_item)
        (inl (
          record v' { cells = modify v'.cells n g },
          x,
          w1,
          fault,
          refl,
          record {
            used_in = omega (arith, length-modify v'.cells n g, valid);
            alloc_in = omega (arith, length-modify v'.cells n g, valid);
            sized = valid.sized;
          },
          info_kept ∙ same,
          shift,
          used,
          ap (λ k. take k (modify v'.cells n g)) (used ∙ s)
              ∙ take-modify_next v'.cells n g (init x) ex
              ∙ ap (λ (l : List T). l ++ (f (init x) w1).1 ∷ [])
                  (subst (λ k. take k v'.cells ≡ take k v.cells) m kept),
        ))

  append_one_lem :
      (f : T → World → SgError × T × World) (v : SgVector T) (w : World)
      → IsValid v
      → v.info ≡ info
      → Fits v.block_shift (v.used_count + 1) info.item_size
      → Grown f v w (append_one info f v.used_count (live v) w)
  unfolding append_one vector_update create_or_resize
  append_one_lem f v w valid same fits =
      fill_lem f v w (sg_vector_resize (live v) (v.used_count + 1) w) same (
        resize_lem v (v.used_count + 1) w valid (
          subst (λ (i : VectorInfo T). Fits v.block_shift (v.used_count + 1) i.item_size) (sym same)
            fits))

  module _ {R V : Type 0} (fill : R → Option (T → World → SgError × T × World))
      (Shows : T → V → Type 0) (made : R → Option V) where
    -- Where a record is not skipped, its item is filled in with what is made of the record, or the
    -- filling fails with an error that is set.
    abbrev pub FillsIn : (T → World → SgError × T × World) → V → Type 0
    FillsIn f y =
        (x : T) (w : World)
        → let (rc, x', w') = f (init x) w in
          (w'.fault ≡ w.fault)
          × (((rc ≡ error_none) × Shows x' y) ⊎ ((no_error rc ≡ false) × (sg_get_error w' ≡ rc)))

    abbrev pub Makes : R → Type 0
    Makes r =
        ((fill r ≡ none) × (made r ≡ none))
        ⊎ ((f : T → World → SgError × T × World) × (y : V) × (fill r ≡ some f)
            × (made r ≡ some y)
            × FillsIn f y)

    -- The outcome of the loop: all items are there after those that were in use, or an item could
    -- not be filled in, or there was no memory for one and it was stored through NULL.
    pub data Extended (rs : List R) (v : SgVector T) (w : World) (out : Appended T) : Type 0 where
      all_there :
          (v' : SgVector T)
          → out.rc ≡ error_none
          → out.vector ≡ live v'
          → IsValid v'
          → v'.info ≡ info
          → v'.block_shift ≡ v.block_shift
          → out.count ≡ v'.used_count
          → (new : List T) → items v' ≡ items v ++ new
          → AllShow Shows new (all_made made rs)
          → out.world.fault ≡ w.fault
          → Extended rs v w out
      not_filled :
          (v' : SgVector T)
          → no_error out.rc ≡ false
          → sg_get_error out.world ≡ out.rc
          → out.vector ≡ live v'
          → IsValid v'
          → v'.info ≡ info
          → out.world.fault ≡ w.fault
          → Extended rs v w out
      through_null :
          out.rc ≡ error_malloc
          → out.vector ≡ null
          → sg_get_error out.world ≡ error_malloc
          → out.world.fault ≡ true
          → Extended rs v w out

    skipped :
        (r : R) (rs : List R) (v : SgVector T) (w : World) (out : Appended T)
        → made r ≡ none
        → Extended rs v w out
        → Extended (r ∷ rs) v w out
    skipped r rs v w out e (all_there v' a b c d s n new m all f) =
        all_there v' a b c d s n new m
          (subst (λ o. AllShow Shows new (add_made o (all_made made rs))) (sym e) all) f
    skipped r rs v w out e (not_filled v' a g b c d f) = not_filled v' a g b c d f
    skipped r rs v w out e (through_null a b c d) = through_null a b c d

    -- The answer of the loop once the record's item was added, or not.
    abbrev next : List R → ℕ → SgError × VecPtr T × World → Appended T
    next rs n out =
        let rest = append_loop info fill rs (n + 1) out.1 out.2 in
        if no_error out.0
        then rest
        else record { rc = out.0; vector = out.1; count = n; world = out.2 }

    added :
        (r : R) (x : T) (y : V) (rs : List R) (v u : SgVector T) (w w' : World) (out : Appended T)
        → made r ≡ some y
        → Shows x y
        → items u ≡ items v ++ x ∷ []
        → w'.fault ≡ w.fault
        → u.block_shift ≡ v.block_shift
        → Extended rs u w' out
        → Extended (r ∷ rs) v w out
    added r x y rs v u w w' out e shows got fault shift (all_there v' a b c d s n new m all f) =
        all_there v' a b c d (s ∙ shift) n (x ∷ new)
          (m ∙ ap (λ l. l ++ new) got ∙ append_assoc (items v) (x ∷ []) new)
          (subst (λ o. AllShow Shows (x ∷ new) (add_made o (all_made made rs))) (sym e)
            (shows, all))
          (f ∙ fault)
    added r x y rs v u w w' out e shows got fault shift (not_filled v' a g b c d f) =
        not_filled v' a g b c d (f ∙ fault)
    added r x y rs v u w w' out e shows got fault shift (through_null a b c d) =
        through_null a b c d

    after_one :
        (r : R) (f : T → World → SgError × T × World) (y : V) (rs : List R) (v : SgVector T) (n : ℕ)
        (w : World) (out : SgError × VecPtr T × World)
        → made r ≡ some y
        → FillsIn f y
        → n ≡ v.used_count
        → Grown f v w out
        → ((u : SgVector T) (w' : World)
            → IsValid u
            → u.info ≡ info
            → u.block_shift ≡ v.block_shift
            → n + 1 ≡ u.used_count
            → Extended rs u w' (append_loop info fill rs (n + 1) (live u) w'))
        → Extended (r ∷ rs) v w (next rs n out)
    after_one r f y rs v n w out e fills count
          (inl (u, x, w1, clean, is, valid, same, shift, used, got)) ih =
        subst (λ o. Extended (r ∷ rs) v w (next rs n o)) (sym is)
          (elim (fills x w1).1 [
            | inl (rc, viewed) ↦
                let go : no_error (f (init x) w1).0 ≡ true = ap no_error rc in
                rw go (
                  added r (f (init x) w1).1 y rs v u w (f (init x) w1).2 _ e viewed got
                    ((fills x w1).0 ∙ clean) shift
                    (ih u (f (init x) w1).2 valid same shift (omega (arith, used, count))))
            | inr (bad, set) ↦
                rw bad (not_filled u bad set refl valid same ((fills x w1).0 ∙ clean))
          ])
    after_one r f y rs v n w out e fills count (inr (rc, gone, set, bad)) ih =
        let stop : no_error out.0 ≡ false = ap no_error rc in rw stop (through_null rc gone set bad)

    -- The loop over records, from a valid vector whose items are counted and with room for one more item for
    -- every record.
    pub append_loop_lem :
        (rs : List R) (v : SgVector T) (n : ℕ) (w : World)
        → ((r : R) → Makes r)
        → IsValid v
        → v.info ≡ info
        → n ≡ v.used_count
        → Room v.block_shift (n + length rs) info.item_size
        → Extended rs v w (append_loop info fill rs n (live v) w)
    unfolding append_loop
    append_loop_lem [] v n w makes valid same count room =
        all_there v refl refl valid same refl count [] (sym (append-nil (items v))) tt refl
    append_loop_lem (r ∷ rs) v n w makes valid same count room = elim (makes r) [
      | inl (skip, e) ↦
          rw (skip, append_loop)
            (skipped r rs v w _ e (
              append_loop_lem rs v n w makes valid same count (
                Room-fewer v.block_shift (n + length rs) (n + length (r ∷ rs)) info.item_size
                  (omega arith) room)))
      | inr (f, y, wanted, e, fills) ↦
          rw (wanted, append_loop)
            (after_one r f y rs v n w (append_one info f n (live v) w) e fills count
              (subst (λ k. Grown f v w (append_one info f k (live v) w)) (sym count)
                (append_one_lem f v w valid same (
                  Room-Fits v.block_shift (v.used_count + 1) (n + length (r ∷ rs)) info.item_size
                    (omega arith) (omega (arith, count)) room)))
              (λ u w' uv us shift uc. append_loop_lem rs u (n + 1) w' makes uv us uc (
                subst (λ b. Room b (n + 1 + length rs) info.item_size) (sym shift)
                  (Room-fewer v.block_shift (n + 1 + length rs) (n + length (r ∷ rs)) info.item_size
                    (omega arith) room))))
    ]
