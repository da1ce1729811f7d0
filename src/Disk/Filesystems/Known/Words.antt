-- ===== src/Disk/Filesystems/Known/Words.antt =====
-- What the expression of `init_valid_fs_types` finds in a line: the second word, which may be the only one.
use libstatgrab.Base.{
  ℕ, ◌≡◌, refl, Bool, ◌||◌, ◌&&◌, [], ◌∷◌, Option, none, some, leb, ◌==◌, inl, inr, Bool-cases,
  if◌then◌else◌,
}
use libstatgrab.Base.Bytes.{Bytes}
use libstatgrab.Disk.Filesystems.Known.{alnum_part, skip_blanks, second_word, some_word, fs_type_in}

-- A digit, a capital or a small letter.
abbrev of_word : ℕ → Bool
of_word c = (leb 48 c && leb c 57) || (leb 65 c && leb c 90) || (leb 97 c && leb c 122)

abbrev of_gap : ℕ → Bool
of_gap c = (c == 32) || (c == 9)

abbrev word_here : Bytes → Bytes
word_here [] = []
word_here (c ∷ s) = if of_word c then c ∷ word_here s else []

abbrev behind_word : Bytes → Bytes
behind_word [] = []
behind_word (c ∷ s) = let rest = behind_word s in if of_word c then rest else c ∷ s

abbrev behind_gap : Bytes → Bytes
behind_gap [] = []
behind_gap (c ∷ s) = let rest = behind_gap s in if of_gap c then rest else c ∷ s

abbrev unless_empty : Bytes → Option Bytes
unless_empty [] = none
unless_empty (c ∷ s) = some (c ∷ s)

abbrev word_after_gap : Bytes → Option Bytes
word_after_gap [] = none
word_after_gap (c ∷ s) = if of_gap c then unless_empty (word_here (behind_gap s)) else none

-- The type that a line tells: behind its first word, which may be missing, come blanks or tabs, one at least, and
-- the word behind them, which is not empty.
abbrev pub type_told : Bytes → Option Bytes
type_told line = word_after_gap (behind_word line)

alnum_part-word_here : (s : Bytes) → (alnum_part s).0 ≡ word_here s
unfolding alnum_part
alnum_part-word_here [] = refl
alnum_part-word_here (c ∷ s) = elim (Bool-cases (of_word c)) [
  | inl e ↦ rw (e, alnum_part-word_here s) refl
  | inr e ↦ rw e refl
]

alnum_part-behind_word : (s : Bytes) → (alnum_part s).1 ≡ behind_word s
unfolding alnum_part
alnum_part-behind_word [] = refl
alnum_part-behind_word (c ∷ s) = elim (Bool-cases (of_word c)) [
  | inl e ↦ rw e (alnum_part-behind_word s)
  | inr e ↦ rw e refl
]

skip_blanks-behind_gap : (s : Bytes) → skip_blanks s ≡ behind_gap s
unfolding skip_blanks
skip_blanks-behind_gap [] = refl
skip_blanks-behind_gap (c ∷ s) = elim (Bool-cases (of_gap c)) [
  | inl e ↦ rw e (skip_blanks-behind_gap s)
  | inr e ↦ rw e refl
]

some_word_lem : (s : Bytes) → some_word s ≡ unless_empty s
some_word_lem [] = refl
some_word_lem (c ∷ s) = refl

second_word_lem : (s : Bytes) → second_word s ≡ word_after_gap s
second_word_lem [] = refl
second_word_lem (c ∷ s) =
    rw (skip_blanks-behind_gap s, alnum_part-word_here (behind_gap s))
      (rw (some_word_lem (word_here (behind_gap s))) refl)

pub fs_type_in_lem : (line : Bytes) → fs_type_in line ≡ type_told line
unfolding fs_type_in
fs_type_in_lem line = rw (alnum_part-behind_word line) (second_word_lem (behind_word line))
