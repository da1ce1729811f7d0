-- ===== src/Network/Reader/Matches.antt =====
-- The lines that the expression of `network_io_rx` matches, and what it keeps of them.
use libstatgrab.Base.{
  ℕ, ◌≡◌, refl, subst, arith, Bool, false, not, List, [], ◌∷◌, ◌++◌, some, length, map, ◌==◌,
}
use libstatgrab.Base.Bytes.{Bytes}
use libstatgrab.Stdio.{isspace, starts_digit, to_lld}
use libstatgrab.Stdio.Numbers.{
  Every, digit_value, digits_lem, Column, column_digits, IsColumn, columns_text, AreColumns,
  skip_column, columns-no_digit,
}
use libstatgrab.Network.Reader.{
  colon, until_colon, match_name, match_number, match_spaces, match_numbers, match_dev,
}

abbrev pub column_value : Column → ℕ
column_value c = to_lld false (digit_value 0 (column_digits c))

abbrev pub not_colon : ℕ → Bool
not_colon c = not (c == colon)

until_colon_lem :
    (name rest : Bytes)
    → Every not_colon name
    → until_colon (name ++ colon ∷ rest) ≡ some (name, rest)
unfolding until_colon
until_colon_lem [] rest h = refl
until_colon_lem (c ∷ name) rest h =
    let e : (c == colon) ≡ false = ground arith in rw (e, until_colon_lem name rest h.1)

match_name_lem :
    (ws : Bytes) (c : ℕ) (name rest : Bytes)
    → Every isspace ws
    → isspace c ≡ false
    → Every not_colon (c ∷ name)
    → match_name (ws ++ (c ∷ name ++ colon ∷ rest)) ≡ some (c ∷ name, rest)
unfolding match_name
match_name_lem [] c name rest h g k =
    let e : (c == colon) ≡ false = ground arith in rw (g, e, until_colon_lem (c ∷ name) rest k)
match_name_lem (b ∷ ws) c name rest h g k = rw (h.0, match_name_lem ws c name rest h.1 g k)

-- The digits of a column, before what is no digit.
match_number_lem :
    (c : Column) (rest : Bytes)
    → IsColumn c
    → starts_digit rest ≡ false
    → match_number (column_digits c ++ rest) ≡ some (column_value c, rest)
unfolding match_number
match_number_lem c rest h g = rw (h.1.0, digits_lem 0 (column_digits c) rest h.1 g)

match_spaces_lem :
    (ws : Bytes) (c : Column) (rest : Bytes)
    → Every isspace ws
    → (length ws == 0) ≡ false
    → IsColumn c
    → match_spaces (ws ++ (column_digits c ++ rest)) ≡ some (column_digits c ++ rest)
unfolding match_spaces
match_spaces_lem [] c rest h g k = cc
match_spaces_lem (b ∷ ws) c rest h g k = rw (h.0, skip_column ws c rest h.1 k)

match_numbers_lem :
    (cs : List Column) (rest : Bytes)
    → AreColumns cs
    → starts_digit rest ≡ false
    → match_numbers (length cs) (columns_text cs rest) ≡ some (map column_value cs)
unfolding match_numbers
match_numbers_lem [] rest h g = refl
match_numbers_lem (c ∷ cs) rest h g =
    rw (match_spaces_lem c.spaces c (columns_text cs rest) h.0.0 h.1 h.0, match_numbers)
      (rw (match_number_lem c (columns_text cs rest) h.0 (columns-no_digit cs rest h.2 g))
        (rw (match_numbers_lem cs rest h.2 g)))

-- A line of white space, a name that has no colon and starts with no white space, a colon, and fourteen
-- numbers that white space separates, which may also stand before the first, and then no digit:
-- `network_io_rx` matches it, with the name and the numbers as its parts.
pub match_dev_lem :
    (ws : Bytes) (n : ℕ) (name : Bytes) (first : Column) (others : List Column) (rest : Bytes)
    → Every isspace ws
    → isspace n ≡ false
    → Every not_colon (n ∷ name)
    → IsColumn first
    → AreColumns others
    → length others ≡ 13
    → starts_digit rest ≡ false
    → match_dev (ws ++ (n ∷ name ++ colon ∷ columns_text (first ∷ others) rest))
      ≡ some (record { name = n ∷ name; columns = map column_value (first ∷ others) })
unfolding match_dev
match_dev_lem ws n name first others rest h g k is are count end =
    let R = columns_text others rest in
    let numbers : match_numbers 13 R ≡ some (map column_value others) =
      subst (λ m. match_numbers m R ≡ some (map column_value others)) count
        (match_numbers_lem others rest are end) in
    rw (match_name_lem ws n name (columns_text (first ∷ others) rest) h g k, match_dev)
      (rw (skip_column first.spaces first R is.0 is)
        (rw (match_number_lem first R is (columns-no_digit others rest are end)) (rw numbers)))
