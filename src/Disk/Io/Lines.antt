-- ===== src/Disk/Io/Lines.antt =====
-- The lines of /proc/diskstats that `sscanf` converts, and what it finds in them.
use libstatgrab.Base.{
  ℕ, zero, suc, ◌≤◌, ◌≡◌, refl, ap, ◌∙◌, arith, Bool, true, false, not, List, [], ◌∷◌, ◌++◌, some,
  length, ◌==◌,
}
use libstatgrab.Base.Bytes.{Bytes}
use libstatgrab.Stdio.{isspace, starts_digit, to_lld, to_llu}
use libstatgrab.Stdio.Numbers.{
  Every, starts_space, digit_value, skip_space_lem, Column, column_digits, column_text, IsColumn,
  columns_text, AreColumns, spaces-no_digit, columns-no_digit, scan_number_lem,
}
use libstatgrab.Disk.Io.{word_part, word_found, scan_word, scan_int, scan_llu, scan_disk}

abbrev pub no_space : ℕ → Bool
no_space c = not (isspace c)

-- A word ends before white space.
word_part_lem :
    (n : ℕ) (word rest : Bytes)
    → Every no_space word
    → length word ≤ n
    → starts_space rest ≡ true
    → word_part n (word ++ rest) ≡ (word, rest)
unfolding word_part
word_part_lem zero [] (c ∷ rest) h le g = refl
word_part_lem zero (x ∷ word) rest h le g = absurd (omega arith)
word_part_lem (suc n) [] (c ∷ rest) h le g = rw g
word_part_lem (suc n) (x ∷ word) rest h le g =
    let e : isspace x ≡ false = ground (arith, h.0) in
    rw (word_part_lem n word rest h.1 (omega arith) g, e)
word_part_lem n [] [] h le g = cc

spaces-start :
    (ws rest : Bytes)
    → Every isspace ws
    → (length ws == 0) ≡ false
    → starts_space (ws ++ rest) ≡ true
spaces-start [] rest h g = cc
spaces-start (c ∷ ws) rest h g = h.0

scan_word_lem :
    (n : ℕ) (ws : Bytes) (c : ℕ) (word rest : Bytes)
    → Every isspace ws
    → Every no_space (c ∷ word)
    → length (c ∷ word) ≤ n
    → starts_space rest ≡ true
    → scan_word n (ws ++ (c ∷ word ++ rest)) ≡ some (c ∷ word, rest)
unfolding scan_word
scan_word_lem n ws c word rest h g le end =
    let e : isspace c ≡ false = ground (arith, g.0) in
    ap (λ s. word_found (word_part n s)) (skip_space_lem ws (c ∷ word ++ rest) h e)
    ∙ ap word_found (word_part_lem n (c ∷ word) rest g le end)

scan_int_lem :
    (c : Column) (rest : Bytes)
    → IsColumn c
    → starts_digit rest ≡ false
    → scan_int (column_text c rest) ≡ some (to_lld false (digit_value 0 (column_digits c)), rest)
unfolding scan_int
scan_int_lem c rest h g = scan_number_lem to_lld c rest h g

scan_llu_lem :
    (c : Column) (rest : Bytes)
    → IsColumn c
    → starts_digit rest ≡ false
    → scan_llu (column_text c rest) ≡ some (to_llu false (digit_value 0 (column_digits c)), rest)
unfolding scan_llu
scan_llu_lem c rest h g = scan_number_lem to_llu c rest h g

-- The numbers after the name, of which the third and the last are those of sectors.
abbrev pub stat_columns : Column → Column → Column → Column → Column → Column → Column → List Column
stat_columns c1 c2 r c3 c4 c5 s = c1 ∷ c2 ∷ r ∷ c3 ∷ c4 ∷ c5 ∷ s ∷ []

-- A line of two numbers, a name of up to 99 characters without white space, and seven numbers or
-- more, all with white space between them: `sscanf` finds the name, and the third and the seventh
-- of the numbers after it.
pub scan_disk_lem :
    (a b : Column) (ws : Bytes) (n : ℕ) (name : Bytes) (c1 c2 r c3 c4 c5 s : Column) (rest : Bytes)
    → IsColumn a
    → AreColumns (b ∷ [])
    → Every isspace ws
    → (length ws == 0) ≡ false
    → Every no_space (n ∷ name)
    → length (n ∷ name) ≤ 99
    → AreColumns (stat_columns c1 c2 r c3 c4 c5 s)
    → starts_digit rest ≡ false
    → scan_disk (
        column_text a
          (column_text b (ws ++ (n ∷ name ++ columns_text (stat_columns c1 c2 r c3 c4 c5 s) rest))))
      ≡ some (record {
        name = n ∷ name;
        rsect = to_llu false (digit_value 0 (column_digits r));
        wsect = to_llu false (digit_value 0 (column_digits s));
      })
unfolding scan_disk
scan_disk_lem a b ws n name c1 c2 r c3 c4 c5 s rest ha hb hws some_ws hname short hs end =
    let l7 = s ∷ [] in
    let l6 = c5 ∷ l7 in
    let l5 = c4 ∷ l6 in
    let l4 = c3 ∷ l5 in
    let l3 = r ∷ l4 in
    let l2 = c2 ∷ l3 in
    let t : List Column → Bytes = λ cs. columns_text cs rest in
    let ends : (cs : List Column) → AreColumns cs → starts_digit (columns_text cs rest) ≡ false =
      λ cs h. columns-no_digit cs rest h end in
    let h2 = hs.2 in
    let h3 = h2.2 in
    let h4 = h3.2 in
    let h5 = h4.2 in
    let h6 = h5.2 in
    let h7 = h6.2 in
    let named = ws ++ (n ∷ name ++ t (c1 ∷ l2)) in
    rw (scan_int_lem a (column_text b named) ha (spaces-no_digit b.spaces _ hb.0.0 hb.1)) (
      rw (scan_int_lem b named hb.0 (spaces-no_digit ws _ hws some_ws)) (
        rw
          (scan_word_lem 99 ws n name (t (c1 ∷ l2)) hws hname short
            (spaces-start c1.spaces _ hs.0.0 hs.1))
          (rw (scan_int_lem c1 (t l2) hs.0 (ends l2 h2)) (
            rw (scan_int_lem c2 (t l3) h2.0 (ends l3 h3)) (
              rw (scan_llu_lem r (t l4) h3.0 (ends l4 h4)) (
                rw (scan_int_lem c3 (t l5) h4.0 (ends l5 h5)) (
                  rw (scan_int_lem c4 (t l6) h5.0 (ends l6 h6)) (
                    rw (scan_int_lem c5 (t l7) h6.0 (ends l7 h7))
                      (rw (scan_llu_lem s rest h7.0 end))))))))))
