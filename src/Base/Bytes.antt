-- ===== src/Base/Bytes.antt =====
-- NUL-terminated strings as the list of the bytes before the NUL, and `strcmp`.
use Prim.Native.Nat.{ℕ, compare, Ordering}
use Prim.Native.String.{String}
use Prim.Native.Char.{code}
use mathlib.Core.Path.{◌≡◌, refl, ap, subst}
use mathlib.Core.List.{List, [], ◌∷◌}
use mathlib.Core.Option.{Option, none, some}
use native.Mathlib.Omega.{arith}

abbrev pub Bytes : Type 0
Bytes = List ℕ

-- The bytes of an ASCII literal.
abbrev pub codes : String → Bytes
codes String.[] = []
codes (String.◌∷◌ c s) = code c ∷ codes s

-- The sign of `strcmp(a, b)`: the first difference decides, the end counts as 0.
unfoldable pub strcmp : Bytes → Bytes → Ordering
strcmp [] [] = Ordering.eq
strcmp [] (y ∷ ys) = Ordering.lt
strcmp (x ∷ xs) [] = Ordering.gt
strcmp (x ∷ xs) (y ∷ ys) = elim (compare x y) [
  | Ordering.lt ↦ Ordering.lt
  | Ordering.gt ↦ Ordering.gt
  | Ordering.eq ↦ strcmp xs ys
]

pub strcmp_refl : (a : Bytes) → strcmp a a ≡ Ordering.eq
unfolding strcmp
strcmp_refl [] = refl
strcmp_refl (x ∷ xs) = ground (arith, strcmp_refl xs)

pub strcmp_eq : (a b : Bytes) → strcmp a b ≡ Ordering.eq → a ≡ b
unfolding strcmp
strcmp_eq [] [] h = refl
strcmp_eq [] (y ∷ ys) h = cc
strcmp_eq (x ∷ xs) [] h = cc
strcmp_eq (x ∷ xs) (y ∷ ys) h = ground (arith, strcmp_eq xs ys)

abbrev pub flip : Ordering → Ordering
flip Ordering.lt = Ordering.gt
flip Ordering.eq = Ordering.eq
flip Ordering.gt = Ordering.lt

pub strcmp-flip : (a b : Bytes) → strcmp b a ≡ flip (strcmp a b)
unfolding strcmp
strcmp-flip [] [] = refl
strcmp-flip [] (y ∷ ys) = refl
strcmp-flip (x ∷ xs) [] = refl
strcmp-flip (x ∷ xs) (y ∷ ys) = ground (arith, strcmp-flip xs ys)

pub strcmp_trans :
    (a b c : Bytes) → strcmp a b ≡ Ordering.lt → strcmp b c ≡ Ordering.lt → strcmp a c ≡ Ordering.lt
unfolding strcmp
strcmp_trans [] [] c h k = cc
strcmp_trans [] (y ∷ ys) [] h k = cc
strcmp_trans [] (y ∷ ys) (z ∷ zs) h k = refl
strcmp_trans (x ∷ xs) [] c h k = cc
strcmp_trans (x ∷ xs) (y ∷ ys) [] h k = cc
strcmp_trans (x ∷ xs) (y ∷ ys) (z ∷ zs) h k = ground (arith, strcmp_trans xs ys zs)

-- `strcmp` of two pointers. It must not be called with NULL; here NULL stands below every string.
abbrev pub strcmp_ptr : Option Bytes → Option Bytes → Ordering
strcmp_ptr none none = Ordering.eq
strcmp_ptr none (some b) = Ordering.lt
strcmp_ptr (some a) none = Ordering.gt
strcmp_ptr (some a) (some b) = strcmp a b

pub strcmp_ptr_refl : (a : Option Bytes) → strcmp_ptr a a ≡ Ordering.eq
strcmp_ptr_refl none = refl
strcmp_ptr_refl (some a) = strcmp_refl a

pub strcmp_ptr_eq : (a b : Option Bytes) → strcmp_ptr a b ≡ Ordering.eq → a ≡ b
strcmp_ptr_eq none none h = refl
strcmp_ptr_eq none (some b) h = cc
strcmp_ptr_eq (some a) none h = cc
strcmp_ptr_eq (some a) (some b) h = ap some (strcmp_eq a b h)

-- What a comparison for `qsort` and `bsearch` is relied on for: swapping its arguments flips the sign,
-- and both less and equal are transitive.
pub record IsOrder {T : Type 0} (cmp : T → T → Ordering) : Type 0 where
  pub flips : (a b : T) → cmp b a ≡ flip (cmp a b)
  pub lt_trans : (a b c : T) → cmp a b ≡ Ordering.lt → cmp b c ≡ Ordering.lt → cmp a c ≡ Ordering.lt
  pub eq_trans : (a b c : T) → cmp a b ≡ Ordering.eq → cmp b c ≡ Ordering.eq → cmp a c ≡ Ordering.eq

strcmp_ptr-flip : (a b : Option Bytes) → strcmp_ptr b a ≡ flip (strcmp_ptr a b)
strcmp_ptr-flip none none = refl
strcmp_ptr-flip none (some b) = refl
strcmp_ptr-flip (some a) none = refl
strcmp_ptr-flip (some a) (some b) = strcmp-flip a b

strcmp_ptr_trans :
    (a b c : Option Bytes)
    → strcmp_ptr a b ≡ Ordering.lt
    → strcmp_ptr b c ≡ Ordering.lt
    → strcmp_ptr a c ≡ Ordering.lt
strcmp_ptr_trans none b none h k = ground (arith, strcmp_ptr-flip none b)
strcmp_ptr_trans none b (some c) h k = refl
strcmp_ptr_trans (some a) none c h k = cc
strcmp_ptr_trans (some a) (some b) none h k = cc
strcmp_ptr_trans (some a) (some b) (some c) h k = strcmp_trans a b c h k

-- Items ordered by a string of theirs.
pub by_string-IsOrder :
    {T : Type 0} (name : T → Option Bytes) → IsOrder (λ (a b : T). strcmp_ptr (name a) (name b))
by_string-IsOrder name = record {
  flips = λ a b. strcmp_ptr-flip (name a) (name b);
  lt_trans = λ a b c h k. strcmp_ptr_trans (name a) (name b) (name c) h k;
  eq_trans = λ a b c h k.
      subst (λ n. strcmp_ptr (name a) n ≡ Ordering.eq) (strcmp_ptr_eq (name b) (name c) k) h;
}
