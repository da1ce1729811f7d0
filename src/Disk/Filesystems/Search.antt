-- ===== src/Disk/Filesystems/Search.antt =====
-- `is_valid_fs_type` of src/libstatgrab/disk_stats.c: what its search finds in a sorted list.
use libstatgrab.Base.{
  ℕ, zero, suc, ◌+◌, ◌/◌, ◌≤◌, ◌≡◌, ◌≢◌, refl, ap, subst, sym, ◌∙◌, arith, Bool, true, false, ◌&&◌,
  ◌||◌, List, [], ◌∷◌, ◌++◌, map, length, length-take, take, drop, Ordering, ◌⊎◌, inl, inr, leb,
  ◌==◌, Bool-cases,
}
use libstatgrab.Base.Bytes.{Bytes, strcmp, strcmp-flip, strcmp_eq, flip}
use libstatgrab.Vector.Diff.{is_eq}
use libstatgrab.Disk.Filesystems.{lower, strcasecmp, bsearch_on, bsearch, is_valid_fs_type}

abbrev is_capital : ℕ → Bool
is_capital c = leb 65 c && leb c 90

-- Two characters are the same letter, in either case, or the same other character.
abbrev pub same_letter : ℕ → ℕ → Bool
same_letter x y = (x == y) || (is_capital x && (y == x + 32)) || (is_capital y && (x == y + 32))

-- Two texts are the same, whatever their case.
abbrev pub same_text : Bytes → Bytes → Bool
same_text [] [] = true
same_text [] (y ∷ ys) = false
same_text (x ∷ xs) [] = false
same_text (x ∷ xs) (y ∷ ys) = same_letter x y && same_text xs ys

-- Some name of a list is the same as a type, whatever their case.
abbrev pub named_in : Bytes → List Bytes → Bool
named_in t [] = false
named_in t (n ∷ names) = same_text t n || named_in t names

lower-capital : (x : ℕ) → is_capital x ≡ true → lower x ≡ x + 32
lower-capital x h = rw h refl

lower-other : (x : ℕ) → is_capital x ≡ false → lower x ≡ x
lower-other x h = rw h refl

lower-same_letter : (x y : ℕ) → (lower x == lower y) ≡ same_letter x y
lower-same_letter x y = elim (Bool-cases (is_capital x)) [
  | inl h ↦ elim (Bool-cases (is_capital y)) [
    | inl k ↦ rw (lower-capital x h, lower-capital y k) (ground (arith, h, k))
    | inr k ↦ rw (lower-capital x h, lower-other y k) (ground (arith, h, k))
  ]
  | inr h ↦ elim (Bool-cases (is_capital y)) [
    | inl k ↦ rw (lower-other x h, lower-capital y k) (ground (arith, h, k))
    | inr k ↦ rw (lower-other x h, lower-other y k) (ground (arith, h, k))
  ]
]

strcmp_step :
    (a b : ℕ) (s t : Bytes) → is_eq (strcmp (a ∷ s) (b ∷ t)) ≡ ((a == b) && is_eq (strcmp s t))
unfolding strcmp
strcmp_step a b s t = ground arith

strcasecmp-same_text : (a b : Bytes) → is_eq (strcasecmp a b) ≡ same_text a b
unfolding strcmp
strcasecmp-same_text [] [] = refl
strcasecmp-same_text [] (y ∷ ys) = refl
strcasecmp-same_text (x ∷ xs) [] = refl
strcasecmp-same_text (x ∷ xs) (y ∷ ys) =
    strcmp_step (lower x) (lower y) (map lower xs) (map lower ys)
    ∙ ap (λ b. b && is_eq (strcasecmp xs ys)) (lower-same_letter x y)
    ∙ ap (λ b. same_letter x y && b) (strcasecmp-same_text xs ys)

abbrev pub NotAbove : Bytes → Bytes → Type 0
NotAbove a b = strcasecmp a b ≢ Ordering.gt

abbrev pub NotAboveAll : Bytes → List Bytes → Type 0
NotAboveAll a [] = Unit
NotAboveAll a (l ∷ names) = NotAbove a l × NotAboveAll a names

-- Sorted for `bsearch`.
abbrev pub IsSorted : List Bytes → Type 0
IsSorted [] = Unit
IsSorted (l ∷ names) = NotAboveAll l names × IsSorted names

-- The two parts of a sorted list around a name.
abbrev AllNotAbove : List Bytes → Bytes → Type 0
AllNotAbove [] m = Unit
AllNotAbove (n ∷ names) m = NotAbove n m × AllNotAbove names m

NotAboveAll-parts :
    (a : Bytes) (xs : List Bytes) (m : Bytes) (ys : List Bytes)
    → NotAboveAll a (xs ++ m ∷ ys)
    → NotAboveAll a xs × NotAbove a m
NotAboveAll-parts a [] m ys all = (tt, all.0)
NotAboveAll-parts a (x ∷ xs) m ys all =
    let (left, at) = NotAboveAll-parts a xs m ys all.1 in ((all.0, left), at)

IsSorted-parts :
    (xs : List Bytes) (m : Bytes) (ys : List Bytes)
    → IsSorted (xs ++ m ∷ ys)
    → IsSorted xs × AllNotAbove xs m × NotAboveAll m ys × IsSorted ys
IsSorted-parts [] m ys sorted = (tt, tt, sorted.0, sorted.1)
IsSorted-parts (x ∷ xs) m ys sorted =
    let (left, below, above, right) = IsSorted-parts xs m ys sorted.1 in
    let (all, at) = NotAboveAll-parts x xs m ys sorted.0 in ((all, left), (at, below), above, right)

named_in-++ :
    (t : Bytes) (xs ys : List Bytes) → named_in t (xs ++ ys) ≡ (named_in t xs || named_in t ys)
named_in-++ t [] ys = refl
named_in-++ t (x ∷ xs) ys = ground (arith, named_in-++ t xs ys)

-- A type is none of the names above one that it is below.
not_above :
    (t m n : Bytes) → strcasecmp t m ≡ Ordering.lt → NotAbove m n → strcasecmp t n ≡ Ordering.eq → ⊥
not_above t m n below above same =
    let is = strcmp_eq (map lower t) (map lower n) same in
    let back = strcmp-flip (map lower t) (map lower m) ∙ ap flip below in
    above (subst (λ s. strcmp (map lower m) s ≡ Ordering.gt) is back)

not_below :
    (t m n : Bytes) → strcasecmp t m ≡ Ordering.gt → NotAbove n m → strcasecmp t n ≡ Ordering.eq → ⊥
not_below t m n above below same =
    let is = strcmp_eq (map lower t) (map lower n) same in
    below (subst (λ s. strcmp s (map lower m) ≡ Ordering.gt) is above)

is_eq_lem : (o : Ordering) → is_eq o ≡ true → o ≡ Ordering.eq
is_eq_lem Ordering.lt h = cc
is_eq_lem Ordering.eq h = refl
is_eq_lem Ordering.gt h = cc

not_same : (t n : Bytes) → (strcasecmp t n ≡ Ordering.eq → ⊥) → same_text t n ≡ false
not_same t n differs = elim (Bool-cases (same_text t n)) [
  | inl e ↦ absurd (differs (is_eq_lem (strcasecmp t n) (strcasecmp-same_text t n ∙ e)))
  | inr e ↦ e
]

none_right :
    (t m : Bytes) (ys : List Bytes)
    → strcasecmp t m ≡ Ordering.lt
    → NotAboveAll m ys
    → named_in t ys ≡ false
none_right t m [] below all = refl
none_right t m (y ∷ ys) below all =
    let here = not_same t y (not_above t m y below all.0) in
    rw (here, none_right t m ys below all.1) refl

none_left :
    (t m : Bytes) (xs : List Bytes)
    → strcasecmp t m ≡ Ordering.gt
    → AllNotAbove xs m
    → named_in t xs ≡ false
none_left t m [] above all = refl
none_left t m (x ∷ xs) above all =
    let here = not_same t x (not_below t m x above all.0) in
    rw (here, none_left t m xs above all.1) refl

-- The element decides rightly, when the two parts are searched rightly.
bsearch_on_lem :
    (t m : Bytes) (xs ys : List Bytes) (left right : Bool) (o : Ordering)
    → strcasecmp t m ≡ o
    → IsSorted (xs ++ m ∷ ys)
    → left ≡ named_in t xs
    → right ≡ named_in t ys
    → bsearch_on o left right ≡ named_in t (xs ++ m ∷ ys)
bsearch_on_lem t m xs ys left right Ordering.lt e sorted l r =
    let none_here = not_same t m (λ g. let bad = sym e ∙ g in cc) in
    let none_behind = none_right t m ys e (IsSorted-parts xs m ys sorted).2 in
    let all = named_in-++ t xs (m ∷ ys) in ground (arith, none_here, none_behind, all, l)
bsearch_on_lem t m xs ys left right Ordering.eq e sorted l r =
    let here : same_text t m ≡ true = sym (strcasecmp-same_text t m) ∙ ap is_eq e in
    let all = named_in-++ t xs (m ∷ ys) in ground (arith, here, all)
bsearch_on_lem t m xs ys left right Ordering.gt e sorted l r =
    let none_here = not_same t m (λ g. let bad = sym e ∙ g in cc) in
    let none_before = none_left t m xs e (IsSorted-parts xs m ys sorted).1 in
    let all = named_in-++ t xs (m ∷ ys) in ground (arith, none_here, none_before, all, r)

take-drop : (n : ℕ) (xs : List Bytes) → take n xs ++ drop n xs ≡ xs
take-drop zero xs = refl
take-drop (suc n) [] = refl
take-drop (suc n) (x ∷ xs) = ap (λ l. x ∷ l) (take-drop n xs)

length-++ : (xs ys : List Bytes) → length (xs ++ ys) ≡ length xs + length ys
length-++ [] ys = omega arith
length-++ (x ∷ xs) ys = omega (arith, length-++ xs ys)

empty_lem : (t : Bytes) (xs : List Bytes) → length xs ≤ 0 → named_in t xs ≡ false
empty_lem t [] h = refl
empty_lem t (x ∷ xs) h = absurd (omega (arith, h))

drop-cases : (xs : List Bytes) → (xs ≡ []) ⊎ ((m : Bytes) × (ys : List Bytes) × (xs ≡ m ∷ ys))
drop-cases [] = inl refl
drop-cases (m ∷ ys) = inr (m, ys, refl)

-- The search of a sorted list is right, once the fuel is the length or more.
pub bsearch_lem :
    (fuel : ℕ) (t : Bytes) (names : List Bytes)
    → length names ≤ fuel
    → IsSorted names
    → bsearch fuel t names ≡ named_in t names
unfolding bsearch
bsearch_lem zero t names h sorted = sym (empty_lem t names h)
bsearch_lem (suc fuel) t names h sorted =
    let half = length names / 2 in
    let parts = take-drop half names in
    let count = length-++ (take half names) (drop half names) in
    let short = length-take half names in
    elim (drop-cases (drop half names)) [
      | inl e ↦
          let none : length names ≤ 0 = omega (arith, short, count, ap length parts, ap length e) in
          rw (e, bsearch) (sym (empty_lem t names none))
      | inr (m, ys, e) ↦
          let whole : take half names ++ m ∷ ys ≡ names =
            ap (λ l. take half names ++ l) (sym e) ∙ parts in
          let sorted_whole : IsSorted (take half names ++ m ∷ ys) =
            subst IsSorted (sym whole) sorted in
          let (left, _, _, right) = IsSorted-parts (take half names) m ys sorted_whole in
          let total = length-++ (take half names) (m ∷ ys) in
          let less : length (take half names) ≤ fuel =
            omega (arith, short, h, total, ap length whole) in
          let fewer : length ys ≤ fuel = omega (arith, h, total, ap length whole) in
          rw (e, bsearch)
            (bsearch_on_lem t m (take half names) ys (bsearch fuel t (take half names))
                (bsearch fuel t ys) (strcasecmp t m) refl sorted_whole
                (bsearch_lem fuel t (take half names) less left) (bsearch_lem fuel t ys fewer right)
              ∙ ap (named_in t) whole)
    ]

pub is_valid_fs_type_lem :
    (t : Bytes) (names : List Bytes) → IsSorted names → is_valid_fs_type t names ≡ named_in t names
unfolding is_valid_fs_type
is_valid_fs_type_lem t names sorted = bsearch_lem (length names) t names (omega arith) sorted
