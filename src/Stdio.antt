-- ===== src/Stdio.antt =====
-- What the readers of src/libstatgrab use of the C library: `fopen`, `fgets`, `sscanf`, `strncmp`
-- and the classes of characters, on the text files of /proc.
pub mod Lines
pub mod Prefixes
pub mod Numbers
pub mod Failures
pub mod Pairs
mod Tests
use libstatgrab.Base.{
  ℕ, zero, suc, ◌+◌, ◌-◌, ◌*◌, ◌%◌, ◌^◌, Bool, true, false, ◌&&◌, ◌||◌, List, [], ◌∷◌, ◌++◌, Option,
  none, some, length, drop, ltb, leb, ◌==◌, if◌then◌else◌,
}
use libstatgrab.Base.Word.{u64_mod}
use libstatgrab.Base.Bytes.{Bytes}
use libstatgrab.Error.{World}

-- A stream that was opened for reading. `text` is what `fgets` delivers, with no NUL in it;
-- `read_error` is the `errno` of a read that fails after it, `none` where the file ends.
pub record Stream : Type 0 where
  pub text : Bytes
  pub read_error : Option ℕ

-- `fopen`: NULL with an `errno`, or a stream.
pub data Opened : Type 0 where
  refused : ℕ → Opened
  opened : Stream → Opened

abbrev pub set_errno : ℕ → World → World
set_errno e w = record w { errno = e }

-- `errno` after `fgets` returned NULL on a stream.
abbrev pub after_reads : Stream → World → World
after_reads f w = elim f.read_error [ none ↦ w | some e ↦ set_errno e w ]

abbrev pub newline : ℕ
newline = 10

-- A character before the line that the next characters begin.
abbrev pub begin_line : ℕ → List Bytes → List Bytes
begin_line c [] = (c ∷ []) ∷ []
begin_line c (line ∷ lines) = (c ∷ line) ∷ lines

-- What the calls of `fgets(buf, size, f)` return in turn for a text. A line ends with its newline, or
-- where the buffer has only room for its last character (`room` is 0) and the NUL.
unfoldable pub fgets_lines : ℕ → ℕ → Bytes → List Bytes
fgets_lines size room [] = []
fgets_lines size room (c ∷ text) =
    let ends = (c == newline) || (room == 0) in
    let lines = fgets_lines size (if ends then size - 2 else room - 1) text in
    if ends then (c ∷ []) ∷ lines else begin_line c lines

abbrev pub line_buf_size : ℕ
line_buf_size = 256

-- The lines that a reader with a buffer of some size gets.
abbrev pub lines_of : ℕ → Bytes → List Bytes
lines_of size text = fgets_lines size (size - 2) text

-- `strncmp(a, b, n) == 0`
unfoldable pub strncmp_eq : Bytes → Bytes → ℕ → Bool
strncmp_eq a b zero = true
strncmp_eq [] [] (suc n) = true
strncmp_eq [] (y ∷ b) (suc n) = false
strncmp_eq (x ∷ a) [] (suc n) = false
strncmp_eq (x ∷ a) (y ∷ b) (suc n) = (x == y) && strncmp_eq a b n

abbrev pub isspace : ℕ → Bool
isspace c = (c == 32) || (leb 9 c && leb c 13)

abbrev pub isblank : ℕ → Bool
isblank c = (c == 32) || (c == 9)

abbrev pub isdigit : ℕ → Bool
isdigit c = leb 48 c && leb c 57

-- White space in a format.
unfoldable pub skip_space : Bytes → Bytes
skip_space [] = []
skip_space (c ∷ s) = let rest = skip_space s in if isspace c then rest else c ∷ s

unfoldable pub skip_word : Bytes → Bytes
skip_word [] = []
skip_word (c ∷ s) = let rest = skip_word s in if isspace c then c ∷ s else rest

-- The digits at the start, after `acc`, and what follows them.
unfoldable pub digits : ℕ → Bytes → ℕ × Bytes
digits acc [] = (acc, [])
digits acc (c ∷ s) =
    let rest = digits (acc * 10 + (c - 48)) s in if isdigit c then rest else (acc, c ∷ s)

abbrev pub starts_digit : Bytes → Bool
starts_digit [] = false
starts_digit (c ∷ s) = isdigit c

-- How a number is stored, from its sign and its magnitude, as a word of 64 bits: `strtoull` for `%llu`
-- and `strtoll` for `%lld`, which stop at the largest number and, signed, at the smallest.
abbrev pub to_llu : Bool → ℕ → ℕ
to_llu negative n =
    if leb u64_mod n then u64_mod - 1 else if negative then (u64_mod - n) % u64_mod else n

abbrev pub to_lld : Bool → ℕ → ℕ
to_lld false n = if leb (2 ^ 63) n then 2 ^ 63 - 1 else n
to_lld true n = if ltb (2 ^ 63) n then 2 ^ 63 else (u64_mod - n) % u64_mod

abbrev pub signed_digits : (Bool → ℕ → ℕ) → Bool → Bytes → Option (ℕ × Bytes)
signed_digits store negative s =
    if starts_digit s then some (store negative (digits 0 s).0, (digits 0 s).1) else none

-- The number at the start of a text that has no white space there.
abbrev pub number_here : (Bool → ℕ → ℕ) → Bytes → Option (ℕ × Bytes)
number_here store [] = none
number_here store (c ∷ s) =
    if c == b'-'
    then signed_digits store true s
    else if c == b'+'
    then signed_digits store false s
    else signed_digits store false (c ∷ s)

-- One conversion `%llu` or `%lld`: the number and the rest.
unfoldable pub scan_number : (Bool → ℕ → ℕ) → Bytes → Option (ℕ × Bytes)
scan_number store s = number_here store (skip_space s)

-- The numbers of up to `n` conversions. `sscanf` returns how many there are, or EOF for none
-- where the text ends too early.
unfoldable pub scan_numbers : (Bool → ℕ → ℕ) → ℕ → Bytes → List ℕ
scan_numbers store zero s = []
scan_numbers store (suc n) s = elim (scan_number store s) [
  | none ↦ []
  | some (x, rest) ↦ x ∷ scan_numbers store n rest
]

-- `sscanf(line, "%*s %llu", &value)`, with `%llu` or `%lld` as `store` says: the value where the result
-- is 1. A skipped word needs a character.
unfoldable pub sscanf_second : (Bool → ℕ → ℕ) → Bytes → Option ℕ
sscanf_second store line = elim (skip_space line) [
  | [] ↦ none
  | c ∷ s ↦ elim (scan_number store (skip_word s)) [ none ↦ none | some (x, _) ↦ some x ]
]

-- `sscanf(line, "word %llu …", …)` with `n` conversions.
unfoldable pub sscanf_after : Bytes → ℕ → Bytes → List ℕ
sscanf_after word n line =
    if strncmp_eq word line (length word)
    then scan_numbers to_llu n (drop (length word) line)
    else []
