-- ===== src/Stdio/Lines.antt =====
-- The lines that `fgets` delivers are the text, in pieces that fit the buffer.
use libstatgrab.Base.{
  ℕ, ◌-◌, ◌≡◌, refl, ap, ◌∙◌, List, [], ◌∷◌, ◌++◌, inl, inr, ◌==◌, ◌||◌, Bool-cases,
}
use libstatgrab.Base.Bytes.{Bytes}
use libstatgrab.Stdio.{fgets_lines, lines_of, begin_line, newline}

abbrev pub concat : List Bytes → Bytes
concat [] = []
concat (line ∷ lines) = line ++ concat lines

concat-begin_line : (c : ℕ) (lines : List Bytes) → concat (begin_line c lines) ≡ c ∷ concat lines
concat-begin_line c [] = refl
concat-begin_line c (line ∷ lines) = refl

concat-fgets_lines : (size room : ℕ) (text : Bytes) → concat (fgets_lines size room text) ≡ text
unfolding fgets_lines
concat-fgets_lines size room [] = refl
concat-fgets_lines size room (c ∷ text) = elim (Bool-cases ((c == newline) || (room == 0))) [
  | inl e ↦ rw e (ap (◌∷◌ c) (concat-fgets_lines size (size - 2) text))
  | inr e ↦ rw e (
      concat-begin_line c (fgets_lines size (room - 1) text)
      ∙ ap (◌∷◌ c) (concat-fgets_lines size (room - 1) text))
]

-- The calls of `fgets` lose nothing of the text and change nothing of it.
pub concat-lines_of : (size : ℕ) (text : Bytes) → concat (lines_of size text) ≡ text
concat-lines_of size text = concat-fgets_lines size (size - 2) text
