-- ===== src/Tools/Strings.antt =====
-- The strings of src/libstatgrab/tools.c, down to the bytes of their blocks. A string that lies in
-- memory with its NUL is shorter than `size_t` counts, so `strlen(src) + 1` does not wrap.
pub mod Copying
pub mod Updates
mod Tests
use libstatgrab.Base.{
  ℕ, zero, suc, ◌+◌, ◌-◌, List, [], ◌∷◌, ◌++◌, map, Option, none, some, Bool, true, false, length,
  take, replicate, ◌==◌, ltb, if◌then◌else◌,
}
use libstatgrab.Base.Bytes.{Bytes, codes}
use libstatgrab.Error.{World, sg_get_error, sg_set_error_fmt}
use libstatgrab.Error.Codes.{SgError, error_none, error_invalid_argument}
use libstatgrab.Tools.Alloc.{sg_realloc}

-- A byte of a block: NUL, or a character.
pub data Byte : Type 0 where
  nul : Byte
  chr : ℕ → Byte

-- The string that starts a block, `none` where no NUL ends it.
abbrev pub cstr : List Byte → Option Bytes
cstr [] = none
cstr (nul ∷ block) = some []
cstr (chr c ∷ block) = elim (cstr block) [ none ↦ none | some text ↦ some (c ∷ text) ]

-- A string with its NUL.
abbrev pub stored : Bytes → List Byte
stored [] = nul ∷ []
stored (c ∷ text) = chr c ∷ stored text

-- The loop of `strlcpy` and that of `strlcat`: characters while there is room for `room` of them, then
-- a NUL. The block starts at the cursor; the flag tells of a write beyond its end.
unfoldable pub fill : ℕ → Bytes → List Byte → List Byte × Bool
fill room src [] = ([], true)
fill zero src (b ∷ block) = (nul ∷ block, false)
fill (suc room) [] (b ∷ block) = (nul ∷ block, false)
fill (suc room) (c ∷ src) (b ∷ block) =
    let (block', bad) = fill room src block in (chr c ∷ block', bad)

-- `strlcpy(dst, src, siz)`: the result, and the block with the flag.
unfoldable pub strlcpy : List Byte → Bytes → ℕ → ℕ × List Byte × Bool
strlcpy dst src zero = (length src, dst, false)
strlcpy dst src (suc room) = let (dst', bad) = fill room src dst in (length src, dst', bad)

-- The first loop of `strlcat`, with `siz` bytes of the block left, and then the rest of its body.
unfoldable pub strlcat : List Byte → Bytes → ℕ → ℕ × List Byte × Bool
strlcat dst src zero = (length src, dst, false)
strlcat [] src (suc siz) = (length src, [], true)
strlcat (nul ∷ dst) src (suc siz) =
    let (dst', bad) = fill siz src (nul ∷ dst) in (length src, dst', bad)
strlcat (chr c ∷ dst) src (suc siz) =
    let (rc, dst', bad) = strlcat dst src siz in (suc rc, chr c ∷ dst', bad)

-- The loop of `sg_strnlen` from `n` on.
unfoldable pub strnlen_loop : Bytes → ℕ → ℕ → ℕ
strnlen_loop [] maxlen n = n
strnlen_loop (c ∷ s) maxlen n =
    let rest = strnlen_loop s maxlen (n + 1) in if maxlen == n then n else rest

unfoldable pub sg_strnlen : Bytes → ℕ → ℕ
sg_strnlen s maxlen = if maxlen == 0 then maxlen else strnlen_loop s maxlen 0

-- What `realloc` makes of the block of a string, or of none: its bytes that fit, then fresh memory.
-- A fresh byte is not to be relied on; here it is no NUL.
abbrev pub garbage : Byte
garbage = chr 255

abbrev pub old_bytes : Option Bytes → List Byte
old_bytes none = []
old_bytes (some text) = stored text

abbrev pub regrown : Option Bytes → ℕ → List Byte
regrown dest n = take n (old_bytes dest) ++ replicate (n - length (old_bytes dest)) garbage

-- `*dest = new`. A block with no string in it, or one written beyond its end, is a fault.
unfoldable pub keep_string : ℕ × List Byte × Bool → World → SgError × Option Bytes × World
keep_string (rc, block, bad) w = elim (cstr block) [
  | none ↦ (error_none, some [], record w { fault = true })
  | some text ↦ (error_none, some text, if bad then record w { fault = true } else w)
]

-- `sg_update_string` and `sg_lupdate_string`: the result, the new `*dest` and the world.
unfoldable pub sg_update_string :
    Option Bytes → Option Bytes → World → SgError × Option Bytes × World
sg_update_string dest none w = (error_none, none, w)
sg_update_string dest (some src) w =
    let newlen = length src + 1 in
    let (ok, w') = sg_realloc newlen w in
    if ok
    then keep_string (strlcpy (regrown dest newlen) src newlen) w'
    else (sg_get_error w', dest, w')

unfoldable pub sg_lupdate_string :
    Option Bytes → Option Bytes → ℕ → World → SgError × Option Bytes × World
sg_lupdate_string dest none maxlen w = (error_none, none, w)
sg_lupdate_string dest (some src) maxlen w =
    let newlen = sg_strnlen src maxlen + 1 in
    let (ok, w') = sg_realloc newlen w in
    if ok
    then keep_string (strlcpy (regrown dest newlen) src newlen) w'
    else (sg_get_error w', dest, w')

-- `sg_update_mem`: a block of bytes instead of a string. `memcpy` reads `len` bytes of the source.
unfoldable pub sg_update_mem :
    Option (List ℕ) → Option (List ℕ) → ℕ → World → SgError × Option (List ℕ) × World
sg_update_mem dest none len w = (error_none, none, w)
sg_update_mem dest (some src) len w =
    let (ok, w') = sg_realloc len w in
    if ok
    then (
      error_none,
      some (take len src),
      if ltb (length src) len then record w' { fault = true } else w',
    )
    else (sg_get_error w', if len == 0 then none else dest, w')

abbrev pub string_length : Option Bytes → ℕ
string_length none = 0
string_length (some text) = length text

-- `strlcat(*dest, src, len)`, which follows `src`.
unfoldable pub concat_into : List Byte → Option Bytes → ℕ → World → SgError × Option Bytes × World
concat_into block none len w = (error_none, cstr block, record w { fault = true })
concat_into block (some src) len w = keep_string (strlcat block src len) w

-- `sg_concat_string` for a `dest` that is not NULL.
unfoldable pub sg_concat_string :
    Option Bytes → Option Bytes → World → SgError × Option Bytes × World
sg_concat_string dest src w =
    let len = string_length dest + string_length src + 1 in
    let (ok, w') = sg_realloc len w in
    if ok then concat_into (regrown dest len) src len w' else (sg_get_error w', dest, w')
