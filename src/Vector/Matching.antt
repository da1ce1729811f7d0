-- ===== src/Vector/Matching.antt =====
-- The matching loops of `sg_vector_compute_diff` against the specification that they stand for: each
-- item is compared with the item of the same key in the last vector.
use mathlib.Core.Path.{ap₂}
use libstatgrab.Base.{
  ℕ, zero, suc, ◌+◌, ◌<◌, ◌≡◌, ◌≢◌, refl, ap, subst, sym, ◌∙◌, arith, Bool, true, false, List, [],
  ◌∷◌, Ordering, map, replicate, not, ◌&&◌, if◌then◌else◌, inl, inr, Bool-cases,
}
use libstatgrab.Vector.Diff.{bit_isset, bit_set, no_bits, is_eq, diff_item, diff_items}

bit_isset-set_ne :
    (bits : List Bool) (i j : ℕ) → i ≢ j → bit_isset (bit_set bits i) j ≡ bit_isset bits j
bit_isset-set_ne [] i j h = refl
bit_isset-set_ne (b ∷ bits) zero zero h = absurd (h refl)
bit_isset-set_ne (b ∷ bits) zero (suc j) h = refl
bit_isset-set_ne (b ∷ bits) (suc i) zero h = refl
bit_isset-set_ne (b ∷ bits) (suc i) (suc j) h = bit_isset-set_ne bits i j (λ e. h (ap suc e))

bit_isset-replicate : (n j : ℕ) → bit_isset (replicate n false) j ≡ false
bit_isset-replicate zero j = refl
bit_isset-replicate (suc n) zero = refl
bit_isset-replicate (suc n) (suc j) = bit_isset-replicate n j

-- What the comparison and the difference of a vector's items rely on: items compare equal exactly
-- where their keys are equal, and a difference keeps the key of the item that it changes.
pub record Keyed {T K : Type 0} (compare_fn : T → T → Ordering) (diff_fn : T → T → T) (key : T → K)
    : Type 0 where
  pub eq_of_key : (a b : T) → key a ≡ key b → compare_fn a b ≡ Ordering.eq
  pub key_of_eq : (a b : T) → compare_fn a b ≡ Ordering.eq → key a ≡ key b
  pub key_kept : (a b : T) → key (diff_fn a b) ≡ key b

module _ {T K : Type 0} (compare_fn : T → T → Ordering) (diff_fn : T → T → T) (key : T → K) where
  -- No two items have the same key.
  abbrev pub NoKey : K → List T → Type 0
  NoKey k [] = Unit
  NoKey k (x ∷ xs) = (key x ≢ k) × NoKey k xs

  abbrev pub Distinct : List T → Type 0
  Distinct [] = Unit
  Distinct (x ∷ xs) = NoKey (key x) xs × Distinct xs

  -- The specification: the difference to the item of the same key, or the item itself where the
  -- last vector has none.
  abbrev pub diff_with : List T → T → T
  diff_with [] d = d
  diff_with (l ∷ last) d = if is_eq (compare_fn l d) then diff_fn l d else diff_with last d

  -- No item of key `k` is matched yet.
  abbrev Clear : List T → ℕ → List Bool → K → Type 0
  Clear [] j bits k = Unit
  Clear (l ∷ last) j bits k = (key l ≡ k → bit_isset bits j ≡ false) × Clear last (j + 1) bits k

  Clear-set :
      (last : List T) (i j : ℕ) (bits : List Bool) (k : K)
      → i < j
      → Clear last j bits k
      → Clear last j (bit_set bits i) k
  Clear-set [] i j bits k h c = tt
  Clear-set (l ∷ last) i j bits k h c = (
    λ e. bit_isset-set_ne bits i j (omega arith) ∙ c.0 e,
    Clear-set last i (j + 1) bits k (omega arith) c.1,
  )

  Clear-no_bits : (last : List T) (j n : ℕ) (k : K) → Clear last j (replicate n false) k
  Clear-no_bits [] j n k = tt
  Clear-no_bits (l ∷ last) j n k = (λ e. bit_isset-replicate n j, Clear-no_bits last (j + 1) n k)

  abbrev is_hit : T → ℕ → List Bool → T → Bool
  is_hit l j bits d = not (bit_isset bits j) && is_eq (compare_fn l d)

  diff_item_hit :
      (l : T) (last : List T) (j : ℕ) (bits : List Bool) (d : T)
      → is_hit l j bits d ≡ true
      → diff_item compare_fn diff_fn (l ∷ last) j bits d
        ≡ diff_item compare_fn diff_fn last (j + 1) (bit_set bits j) (diff_fn l d)
  unfolding diff_item
  diff_item_hit l last j bits d h =
      ap
        (λ (b : Bool).
          diff_item compare_fn diff_fn last (j + 1) (if b then bit_set bits j else bits)
            (if b then diff_fn l d else d))
        h

  diff_item_miss :
      (l : T) (last : List T) (j : ℕ) (bits : List Bool) (d : T)
      → is_hit l j bits d ≡ false
      → diff_item compare_fn diff_fn (l ∷ last) j bits d
        ≡ diff_item compare_fn diff_fn last (j + 1) bits d
  unfolding diff_item
  diff_item_miss l last j bits d h =
      ap
        (λ (b : Bool).
          diff_item compare_fn diff_fn last (j + 1) (if b then bit_set bits j else bits)
            (if b then diff_fn l d else d))
        h

  -- The loop changes no bit below the index where it starts.
  bit_isset-diff_item :
      (last : List T) (i j : ℕ) (bits : List Bool) (d : T)
      → i < j
      → bit_isset (diff_item compare_fn diff_fn last j bits d).0 i ≡ bit_isset bits i
  unfolding diff_item
  bit_isset-diff_item [] i j bits d h = refl
  bit_isset-diff_item (l ∷ last) i j bits d h = elim (Bool-cases (is_hit l j bits d)) [
    | inl hit ↦
        ap (λ p. bit_isset p.0 i) (diff_item_hit l last j bits d hit)
        ∙ bit_isset-diff_item last i (j + 1) (bit_set bits j) (diff_fn l d) (omega arith)
        ∙ bit_isset-set_ne bits j i (omega arith)
    | inr miss ↦
        ap (λ p. bit_isset p.0 i) (diff_item_miss l last j bits d miss)
        ∙ bit_isset-diff_item last i (j + 1) bits d (omega arith)
  ]

  module _ (keyed : Keyed compare_fn diff_fn key) where
    is_eq-key : (l d : T) → is_eq (compare_fn l d) ≡ true → key l ≡ key d
    is_eq-key l d h = keyed.key_of_eq l d (ground arith)

    -- Without an item of its key an item stays as it is, and so do the bits.
    diff_item-NoKey :
        (last : List T) (j : ℕ) (bits : List Bool) (d : T)
        → NoKey (key d) last
        → diff_item compare_fn diff_fn last j bits d ≡ (bits, d)
    unfolding diff_item
    diff_item-NoKey [] j bits d h = refl
    diff_item-NoKey (l ∷ last) j bits d h = elim (Bool-cases (is_hit l j bits d)) [
      | inl hit ↦ absurd (h.0 (is_eq-key l d (ground arith)))
      | inr miss ↦ diff_item_miss l last j bits d miss ∙ diff_item-NoKey last (j + 1) bits d h.1
    ]

    -- An item none of whose key is matched yet is compared with the one item of its key.
    diff_item-Clear :
        (last : List T) (j : ℕ) (bits : List Bool) (d : T)
        → Distinct last
        → Clear last j bits (key d)
        → (diff_item compare_fn diff_fn last j bits d).1 ≡ diff_with last d
    unfolding diff_item
    diff_item-Clear [] j bits d dist clear = refl
    diff_item-Clear (l ∷ last) j bits d dist clear = elim (Bool-cases (is_eq (compare_fn l d))) [
      | inl hit ↦
          let same = is_eq-key l d hit in
          let gone : NoKey (key (diff_fn l d)) last =
            subst (λ k. NoKey k last) (same ∙ sym (keyed.key_kept l d)) dist.0 in
          rw hit (
            ap (λ p. p.1) (diff_item_hit l last j bits d (ground (arith, clear.0 same)))
            ∙ ap (λ p. p.1) (diff_item-NoKey last (j + 1) (bit_set bits j) (diff_fn l d) gone))
      | inr miss ↦ rw miss (
          ap (λ p. p.1) (diff_item_miss l last j bits d (ground arith))
          ∙ diff_item-Clear last (j + 1) bits d dist.1 clear.1)
    ]

    -- What is matched for one key leaves the items of the other keys unmatched.
    Clear-diff_item :
        (last : List T) (j : ℕ) (bits : List Bool) (d : T) (k : K)
        → key d ≢ k
        → Clear last j bits k
        → Clear last j (diff_item compare_fn diff_fn last j bits d).0 k
    unfolding diff_item
    Clear-diff_item [] j bits d k ne clear = tt
    Clear-diff_item (l ∷ last) j bits d k ne clear = elim (Bool-cases (is_hit l j bits d)) [
      | inl hit ↦
          let same = is_eq-key l d (ground arith) in
          subst (λ p. Clear (l ∷ last) j p.0 k) (sym (diff_item_hit l last j bits d hit))
            (
              λ e. absurd (ne (sym same ∙ e)),
              Clear-diff_item last (j + 1) (bit_set bits j) (diff_fn l d) k
                  (λ e. ne (sym (keyed.key_kept l d) ∙ e))
                  (Clear-set last j (j + 1) bits k (omega arith) clear.1),
            )
      | inr miss ↦
          subst (λ p. Clear (l ∷ last) j p.0 k) (sym (diff_item_miss l last j bits d miss))
            (
              λ e. bit_isset-diff_item last j (j + 1) bits d (omega arith) ∙ clear.0 e,
              Clear-diff_item last (j + 1) bits d k ne clear.1,
            )
    ]

    AllClear : List T → List Bool → List T → Type 0
    AllClear last bits [] = Unit
    AllClear last bits (d ∷ ds) = Clear last 0 bits (key d) × AllClear last bits ds

    AllClear-diff_item :
        (last : List T) (bits : List Bool) (d : T) (ds : List T)
        → NoKey (key d) ds
        → AllClear last bits ds
        → AllClear last (diff_item compare_fn diff_fn last 0 bits d).0 ds
    unfolding AllClear
    AllClear-diff_item last bits d [] other clear = tt
    AllClear-diff_item last bits d (x ∷ ds) other clear = (
      Clear-diff_item last 0 bits d (key x) (λ e. other.0 (sym e)) clear.0,
      AllClear-diff_item last bits d ds other.1 clear.1,
    )

    AllClear-no_bits : (last : List T) (n : ℕ) (ds : List T) → AllClear last (replicate n false) ds
    unfolding AllClear
    AllClear-no_bits last n [] = tt
    AllClear-no_bits last n (d ∷ ds) = (Clear-no_bits last 0 n (key d), AllClear-no_bits last n ds)

    diff_items-Clear :
        (last : List T) (bits : List Bool) (ds : List T)
        → Distinct last
        → Distinct ds
        → AllClear last bits ds
        → diff_items compare_fn diff_fn last bits ds ≡ map (diff_with last) ds
    unfolding diff_items AllClear
    diff_items-Clear last bits [] dl dd clear = refl
    diff_items-Clear last bits (d ∷ ds) dl dd clear =
        ap₂ ◌∷◌ (diff_item-Clear last 0 bits d dl clear.0) (
          diff_items-Clear last (diff_item compare_fn diff_fn last 0 bits d).0 ds dl dd.1
            (AllClear-diff_item last bits d ds dd.0 clear.1))

    -- The two loops of `sg_vector_compute_diff`, where the keys of the last vector are distinct and
    -- so are those of the current one: each item is replaced by its difference to the item of its
    -- key in the last vector, and stays as it is where the last vector has no such item.
    pub diff_items_lem :
        (last : List T) (count : ℕ) (ds : List T)
        → Distinct last
        → Distinct ds
        → diff_items compare_fn diff_fn last (no_bits count) ds ≡ map (diff_with last) ds
    diff_items_lem last count ds dl dd =
        diff_items-Clear last (no_bits count) ds dl dd (AllClear-no_bits last _ ds)
