-- ===== src/Tools/Strings/Tests.antt =====
-- The theorems on strings at concrete inputs.
use libstatgrab.Base.{◌≡◌, refl, arith, min, List, [], ◌∷◌, none, some, false, length}
use libstatgrab.Base.Bytes.{codes}
use libstatgrab.Error.{calm}
use libstatgrab.Tools.Strings.{
  Byte, nul, chr, cstr, strlcpy, strlcat, sg_strnlen, sg_update_string, sg_lupdate_string,
  sg_update_mem, sg_concat_string,
}
use libstatgrab.Tools.Strings.Copying.{strlcpy_lem, strlcat_lem, strnlen_lem}
use libstatgrab.Tools.Strings.Updates.{
  Updated, update_string_lem, lupdate_string_lem, update_mem_lem, concat_string_lem,
}

abbrev block : List Byte
block = chr 97 ∷ nul ∷ chr 120 ∷ chr 121 ∷ []

strlcpy_lem_example :
    let (rc, dst', bad) = strlcpy block (codes "xyz") 3 in
    (rc ≡ 3) × (cstr dst' ≡ some (codes "xy")) × (bad ≡ false) × (length dst' ≡ 4)
strlcpy_lem_example = strlcpy_lem block (codes "xyz") 3 (omega arith) (omega arith)

strlcat_lem_example :
    let (rc, dst', bad) = strlcat block (codes "xyz") 4 in
    (rc ≡ 4) × (cstr dst' ≡ some (codes "axy")) × (bad ≡ false) × (length dst' ≡ 4)
strlcat_lem_example = strlcat_lem block (codes "a") (codes "xyz") 4 refl (omega arith) (omega arith)

strnlen_lem_example : sg_strnlen (codes "xyz") 2 ≡ min 3 2
strnlen_lem_example = strnlen_lem (codes "xyz") 2

update_string_lem_example :
    Updated
      (some (codes "eth0"))
      (some (codes "lo"))
      calm
      (sg_update_string (some (codes "eth0")) (some (codes "lo")) calm)
update_string_lem_example = update_string_lem (some (codes "eth0")) (codes "lo") calm

lupdate_string_lem_example :
    Updated none (some (codes "et")) calm (sg_lupdate_string none (some (codes "eth0")) 2 calm)
lupdate_string_lem_example = lupdate_string_lem none (codes "eth0") 2 calm

update_mem_lem_example :
    Updated none (some (7 ∷ [])) calm (sg_update_mem none (some (7 ∷ 8 ∷ [])) 1 calm)
update_mem_lem_example = update_mem_lem none (7 ∷ 8 ∷ []) 1 calm (omega arith) (omega arith)

concat_string_lem_example :
    Updated
      (some (codes "a"))
      (some (codes "abc"))
      calm
      (sg_concat_string (some (codes "a")) (some (codes "bc")) calm)
concat_string_lem_example = concat_string_lem (codes "a") (codes "bc") calm
