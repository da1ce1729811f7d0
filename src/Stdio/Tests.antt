-- ===== src/Stdio/Tests.antt =====
-- Lines and numbers of small texts.
use libstatgrab.Base.{◌≡◌, refl, some, none, [], ◌∷◌}
use libstatgrab.Base.Bytes.{codes}
use libstatgrab.Stdio.{
  fgets_lines, lines_of, strncmp_eq, skip_space, skip_word, digits, scan_number, scan_numbers,
  sscanf_second, sscanf_after, to_llu, to_lld, newline,
}

lines_test :
    lines_of 4 (97 ∷ 98 ∷ newline ∷ 99 ∷ 100 ∷ 101 ∷ 102 ∷ [])
    ≡ (97 ∷ 98 ∷ newline ∷ []) ∷ (99 ∷ 100 ∷ 101 ∷ []) ∷ (102 ∷ []) ∷ []
unfolding fgets_lines
lines_test = refl

second_test : sscanf_second to_lld (codes "MemTotal:   16384 kB") ≡ some 16384
unfolding sscanf_second skip_space skip_word scan_number digits
second_test = refl

second_missing : sscanf_second to_llu (codes "MemTotal: kB") ≡ none
unfolding sscanf_second skip_space skip_word scan_number digits
second_missing = refl

after_test :
    sscanf_after (codes "cpu") 5 (codes "cpu  1 22 -3 x") ≡ 1 ∷ 22 ∷ 18446744073709551613 ∷ []
unfolding sscanf_after strncmp_eq scan_numbers scan_number skip_space digits
after_test = refl

clamped_test : scan_numbers to_lld 1 (codes "9223372036854775809") ≡ 9223372036854775807 ∷ []
unfolding scan_numbers scan_number skip_space digits
clamped_test = refl
