-- ===== src/Stdio/Prefixes.antt =====
-- `strncmp` against the words that a line may begin with, and the values of the lines that begin
-- with one.
use libstatgrab.Base.{
  ℕ, zero, suc, ◌≤◌, ◌≡◌, refl, arith, Bool, true, false, List, [], ◌∷◌, Option, none, some, length,
  ◌==◌, if◌then◌else◌, drop, inl, inr, Option-cases,
}
use libstatgrab.Base.Bytes.{Bytes}
use libstatgrab.Stdio.{strncmp_eq, scan_number, scan_numbers, sscanf_after, to_llu}

-- Whether a line begins with a word.
abbrev pub begins : Bytes → Bytes → Bool
begins word line = strncmp_eq line word (length word)

-- Whether two words differ in a place that both have.
abbrev pub clash : Bytes → Bytes → Bool
clash [] b = false
clash (x ∷ a) [] = false
clash (x ∷ a) (y ∷ b) = if x == y then clash a b else true

-- A line begins with at most one of two words that clash.
pub begins-clash :
    (a b line : Bytes) → clash a b ≡ true → begins a line ≡ true → begins b line ≡ false
unfolding strncmp_eq
begins-clash [] b line h g = cc
begins-clash (x ∷ a) [] line h g = cc
begins-clash (x ∷ a) (y ∷ b) [] h g = cc
begins-clash (x ∷ a) (y ∷ b) (c ∷ line) h g = ground (arith, begins-clash a b line)

-- The order of the strings does not matter.
pub strncmp_eq_comm : (a b : Bytes) (n : ℕ) → strncmp_eq a b n ≡ strncmp_eq b a n
unfolding strncmp_eq
strncmp_eq_comm a b zero = refl
strncmp_eq_comm [] [] (suc n) = refl
strncmp_eq_comm [] (y ∷ b) (suc n) = refl
strncmp_eq_comm (x ∷ a) [] (suc n) = refl
strncmp_eq_comm (x ∷ a) (y ∷ b) (suc n) = ground (arith, strncmp_eq_comm a b n)

length-scan_numbers :
    (store : Bool → ℕ → ℕ) (n : ℕ) (s : Bytes) → length (scan_numbers store n s) ≤ n
unfolding scan_numbers
length-scan_numbers store zero s = omega arith
length-scan_numbers store (suc n) s = elim (Option-cases (scan_number store s)) [
  | inl e ↦ rw (e, length) (omega arith)
  | inr ((x, rest), e) ↦ rw (e, length) (omega (arith, length-scan_numbers store n rest))
]

-- `sscanf` converts no more than it is asked for.
pub length-sscanf_after :
    (word : Bytes) (n : ℕ) (line : Bytes) → length (sscanf_after word n line) ≤ n
unfolding sscanf_after
length-sscanf_after word n line =
    ground (arith, length-scan_numbers to_llu n (drop (length word) line))

-- The values of the lines that begin with a word, where `value` finds one.
abbrev pub value_of : (Bytes → Option ℕ) → Bytes → Bytes → Option ℕ
value_of value word line = if begins word line then value line else none

abbrev pub add_value : Option ℕ → List ℕ → List ℕ
add_value none xs = xs
add_value (some x) xs = x ∷ xs

abbrev pub values : (Bytes → Option ℕ) → Bytes → List Bytes → List ℕ
values value word [] = []
values value word (line ∷ lines) = add_value (value_of value word line) (values value word lines)

-- The last of them, or what was there before.
abbrev pub last_or : ℕ → List ℕ → ℕ
last_or old [] = old
last_or old (x ∷ xs) = last_or x xs

last_or-add_value :
    (o : Option ℕ) (xs : List ℕ) (old : ℕ)
    → last_or old (add_value o xs) ≡ last_or (last_or old (add_value o [])) xs
last_or-add_value none xs old = refl
last_or-add_value (some x) xs old = refl

-- The first line, and then the others.
pub last_or-values :
    (value : Bytes → Option ℕ) (word line : Bytes) (lines : List Bytes) (old : ℕ)
    → last_or old (values value word (line ∷ lines))
      ≡ last_or (last_or old (values value word (line ∷ []))) (values value word lines)
last_or-values value word line lines old =
    last_or-add_value (value_of value word line) (values value word lines) old
