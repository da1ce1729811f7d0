-- ===== src/Stdio/Numbers.antt =====
-- White space and digits as the formats and expressions of the readers take them.
use libstatgrab.Base.{
  ℕ, ◌+◌, ◌-◌, ◌*◌, ◌≡◌, refl, arith, Bool, true, false, length, ◌==◌, some, List, [], ◌∷◌, ◌++◌,
}
use libstatgrab.Base.Bytes.{Bytes}
use libstatgrab.Stdio.{isspace, isdigit, starts_digit, skip_space, digits, number_here, scan_number}

-- Every character is of a class.
abbrev pub Every : (ℕ → Bool) → Bytes → Type 0
Every class [] = Unit {0}
Every class (c ∷ s) = (class c ≡ true) × Every class s

abbrev pub starts_space : Bytes → Bool
starts_space [] = false
starts_space (c ∷ s) = isspace c

-- The number that digits make, after `acc`.
abbrev pub digit_value : ℕ → Bytes → ℕ
digit_value acc [] = acc
digit_value acc (c ∷ s) = digit_value (acc * 10 + (c - 48)) s

pub skip_space_lem :
    (ws rest : Bytes)
    → Every isspace ws
    → starts_space rest ≡ false
    → skip_space (ws ++ rest) ≡ rest
unfolding skip_space
skip_space_lem [] [] h g = refl
skip_space_lem [] (c ∷ rest) h g = rw g
skip_space_lem (c ∷ ws) rest h g = rw h.0 (skip_space_lem ws rest h.1 g)

pub digits_lem :
    (acc : ℕ) (ds rest : Bytes)
    → Every isdigit ds
    → starts_digit rest ≡ false
    → digits acc (ds ++ rest) ≡ (digit_value acc ds, rest)
unfolding digits
digits_lem acc [] [] h g = refl
digits_lem acc [] (c ∷ rest) h g = rw g
digits_lem acc (c ∷ ds) rest h g = rw h.0 (digits_lem (acc * 10 + (c - 48)) ds rest h.1 g)

-- A digit is no white space.
pub digit-space : (c : ℕ) → isdigit c ≡ true → isspace c ≡ false
digit-space c h = ground arith

-- A column of a line: white space, and the digits of a number.
pub record Column : Type 0 where
  pub spaces : Bytes
  pub digit : ℕ
  pub more : Bytes

abbrev pub column_digits : Column → Bytes
column_digits c = c.digit ∷ c.more

abbrev pub column_text : Column → Bytes → Bytes
column_text c rest = c.spaces ++ (column_digits c ++ rest)

abbrev pub IsColumn : Column → Type 0
IsColumn c = Every isspace c.spaces × Every isdigit (column_digits c)

-- The columns, and what follows them.
abbrev pub columns_text : List Column → Bytes → Bytes
columns_text [] rest = rest
columns_text (c ∷ cs) rest = column_text c (columns_text cs rest)

-- Further columns stand apart from what is before them.
abbrev pub AreColumns : List Column → Type 0
AreColumns [] = Unit {0}
AreColumns (c ∷ cs) = IsColumn c × ((length c.spaces == 0) ≡ false) × AreColumns cs

pub skip_column :
    (ws : Bytes) (c : Column) (rest : Bytes)
    → Every isspace ws
    → IsColumn c
    → skip_space (ws ++ (column_digits c ++ rest)) ≡ column_digits c ++ rest
skip_column ws c rest h k =
    skip_space_lem ws (column_digits c ++ rest) h (digit-space c.digit k.1.0)

pub spaces-no_digit :
    (ws rest : Bytes)
    → Every isspace ws
    → (length ws == 0) ≡ false
    → starts_digit (ws ++ rest) ≡ false
spaces-no_digit [] rest h g = cc
spaces-no_digit (c ∷ ws) rest h g = ground (arith, h.0)

pub columns-no_digit :
    (cs : List Column) (rest : Bytes)
    → AreColumns cs
    → starts_digit rest ≡ false
    → starts_digit (columns_text cs rest) ≡ false
columns-no_digit [] rest h g = g
columns-no_digit (c ∷ cs) rest h g = spaces-no_digit c.spaces _ h.0.0 h.1

-- A conversion for a number takes a column, and leaves what comes after its digits.
pub scan_number_lem :
    (store : Bool → ℕ → ℕ) (c : Column) (rest : Bytes)
    → IsColumn c
    → starts_digit rest ≡ false
    → scan_number store (column_text c rest)
      ≡ some (store false (digit_value 0 (column_digits c)), rest)
unfolding scan_number
scan_number_lem store c rest h g =
    let minus : (c.digit == b'-') ≡ false = ground (arith, h.1.0) in
    let plus : (c.digit == b'+') ≡ false = ground (arith, h.1.0) in
    rw (skip_column c.spaces c rest h.0 h, number_here)
      (rw (minus, plus, h.1.0, digits_lem 0 (column_digits c) rest h.1 g))
