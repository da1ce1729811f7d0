-- ===== src/Tools/Reading.antt =====
-- `sg_f_read_line` and `sg_get_string_match` of src/libstatgrab/tools.c.
use libstatgrab.Base.{
  ℕ, ◌-◌, ◌++◌, List, [], ◌∷◌, Option, none, some, length, take, drop, if◌then◌else◌,
}
use libstatgrab.Base.Bytes.{Bytes, codes}
use libstatgrab.Error.{World, malloc, sg_set_error_with_errno_fmt}
use libstatgrab.Error.Codes.{error_parse, error_malloc}
use libstatgrab.Stdio.{Stream, after_reads, strncmp_eq}

-- The loop, over the lines that are left: the line that begins with the string, where one was given,
-- and the lines after it.
unfoldable pub read_loop : Option Bytes → List Bytes → Option Bytes × List Bytes
read_loop string [] = (none, [])
read_loop none (line ∷ lines) = read_loop none lines
read_loop (some string) (line ∷ lines) =
    let rest = read_loop (some string) lines in
    if strncmp_eq string line (length string) then (some line, lines) else rest

abbrev pub shown : Option Bytes → Bytes
shown none = codes "<NULL>"
shown (some string) = string

-- The end of the stream, or a read error, which is reported.
unfoldable pub no_line : Stream → Option Bytes → World → World
no_line f string w = elim f.read_error [
  | none ↦ w
  | some e ↦
      (sg_set_error_with_errno_fmt error_parse
        (some (codes "sg_f_read_line(string = " ++ shown string ++ codes ")")) (after_reads f w)).1
]

unfoldable pub read_end :
    Stream → Option Bytes → Option Bytes × List Bytes → World → Option Bytes × List Bytes × World
read_end f string (none, lines) w = (none, lines, no_line f string w)
read_end f string (some line, lines) w = (some line, lines, w)

-- `sg_f_read_line` on a stream of which `lines` are left, for a buffer that is not NULL.
unfoldable pub sg_f_read_line :
    Stream → List Bytes → Option Bytes → World → Option Bytes × List Bytes × World
sg_f_read_line f lines string w = read_end f string (read_loop string lines) w

-- A match of a regular expression, `regmatch_t`: where it starts and where it ends.
pub record Match : Type 0 where
  pub rm_so : ℕ
  pub rm_eo : ℕ

-- `sg_get_string_match` for a line and a match that are not NULL: `strndup` of the matched text, or
-- NULL with `SG_ERROR_MALLOC` set.
unfoldable pub sg_get_string_match : Bytes → Match → World → Option Bytes × World
sg_get_string_match line m w =
    let (ok, w') = malloc w in
    if ok then (some (take (m.rm_eo - m.rm_so) (drop m.rm_so line)), w') else (
      none,
      (sg_set_error_with_errno_fmt error_malloc
          (some (codes "sg_get_string_match: couldn't strndup()")) w').1,
    )
