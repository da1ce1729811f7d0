-- ===== src/Disk/Filesystems/Known.antt =====
-- `init_valid_fs_types` of src/libstatgrab/disk_stats.c for Linux: the types of /proc/filesystems, with
-- `regcomp` succeeding on its expression.
pub mod Words
pub mod Builtin
pub mod Types
mod Tests
use libstatgrab.Base.{
  ℕ, zero, suc, ◌+◌, ◌*◌, Bool, true, false, ◌&&◌, ◌||◌, List, [], ◌∷◌, ◌++◌, Option, none, some,
  length, leb, ltb, if◌then◌else◌,
}
use libstatgrab.Base.Bytes.{Bytes, codes}
use libstatgrab.Error.{World, no_error, malloc, sg_get_error, sg_set_error_with_errno_fmt}
use libstatgrab.Error.Codes.{SgError, error_none, error_malloc}
use libstatgrab.Stdio.{Stream, Opened, refused, opened, set_errno, after_reads, lines_of, isblank}
use libstatgrab.Tools.Alloc.{sg_realloc}
use libstatgrab.Tools.Strings.{sg_update_string}
use libstatgrab.Vector.{faulted}
use libstatgrab.Disk.Filesystems.{sort_names}

abbrev pub isalnum : ℕ → Bool
isalnum c = (leb 48 c && leb c 57) || (leb 65 c && leb c 90) || (leb 97 c && leb c 122)

-- `[[:alnum:]]+`, as far as it goes: the word and the rest.
unfoldable pub alnum_part : Bytes → Bytes × Bytes
alnum_part [] = ([], [])
alnum_part (c ∷ s) =
    let (word, rest) = alnum_part s in if isalnum c then (c ∷ word, rest) else ([], c ∷ s)

unfoldable pub skip_blanks : Bytes → Bytes
skip_blanks [] = []
skip_blanks (c ∷ s) = let rest = skip_blanks s in if isblank c then rest else c ∷ s

abbrev pub some_word : Bytes → Option Bytes
some_word [] = none
some_word (c ∷ word) = some (c ∷ word)

abbrev pub second_word : Bytes → Option Bytes
second_word [] = none
second_word (c ∷ s) = if isblank c then some_word (alnum_part (skip_blanks s)).0 else none

-- What `regexec` with `proc_fs_list_regex` finds in a line as the second part: the type.
unfoldable pub fs_type_in : Bytes → Option Bytes
fs_type_in line = second_word (alnum_part line).1

-- `if( i >= num_valid_file_systems )`: room for 16 more pointers.
unfoldable pub grow_types : ℕ → ℕ → World → Bool × ℕ × World
grow_types i num w =
    let (ok, w1) = sg_realloc (8 * (num + 16 + 1)) w in
    if leb num i then (ok, num + 16, w1) else (true, num, w)

abbrev pub add_type : List Bytes → Option Bytes → List Bytes
add_type names none = names
add_type names (some t) = names ++ t ∷ []

-- The loop over the lines, from the names that are there and `num_valid_file_systems` on. Where memory is
-- refused, the list becomes NULL.
unfoldable pub known_loop : List Bytes → List Bytes → ℕ → World → SgError × List Bytes × ℕ × World
known_loop [] names num w = (error_none, names, num, w)
known_loop (line ∷ lines) names num w = elim (fs_type_in line) [
  | none ↦ known_loop lines names num w
  | some t ↦
      let (ok, num1, w1) = grow_types (length names) num w in
      let (rc, text, w2) = sg_update_string none (some t) w1 in
      let rest = known_loop lines (add_type names text) num1 w2 in
      if ok then (if no_error rc then rest else (rc, [], 0, w2)) else (sg_get_error w1, [], 0, w1)
]

-- `qsort`, and the block made smaller, which may fail. The number is the new `num_valid_file_systems`.
unfoldable pub known_end :
    Stream → SgError × List Bytes × ℕ × World → SgError × List Bytes × ℕ × World
known_end f (rc, names, num, w) =
    let w1 = after_reads f w in
    let w2 = (sg_realloc (8 * (length names + 1)) w1).1 in
    if no_error rc
    then (
      error_none,
      sort_names names,
      if ltb (length names) num then length names else num,
      if ltb (length names) num then w2 else w1,
    )
    else (rc, [], 0, w)

abbrev pub types_buf_size : ℕ
types_buf_size = 4096

-- `VALID_FS_TYPES` of Linux.
abbrev pub builtin_types : List Bytes
builtin_types =
    codes "adfs"
    ∷ codes "affs"
    ∷ codes "befs"
    ∷ codes "bfs"
    ∷ codes "btrfs"
    ∷ codes "cifs"
    ∷ codes "efs"
    ∷ codes "ext2"
    ∷ codes "ext3"
    ∷ codes "ext4"
    ∷ codes "vxfs"
    ∷ codes "hfs"
    ∷ codes "hfsplus"
    ∷ codes "hpfs"
    ∷ codes "jffs"
    ∷ codes "jffs2"
    ∷ codes "jfs"
    ∷ codes "minix"
    ∷ codes "msdos"
    ∷ codes "nfs"
    ∷ codes "ntfs"
    ∷ codes "ocfs"
    ∷ codes "qnx4"
    ∷ codes "ramfs"
    ∷ codes "rootfs"
    ∷ codes "reiserfs"
    ∷ codes "sysv"
    ∷ codes "tmpfs"
    ∷ codes "v7"
    ∷ codes "udf"
    ∷ codes "ufs"
    ∷ codes "umsdos"
    ∷ codes "vfat"
    ∷ codes "xfs"
    ∷ []

-- One name of the copy, before those behind it.
abbrev pub builtin_name : Option Bytes → SgError × List Bytes × World → SgError × List Bytes × World
builtin_name none rest = rest
builtin_name (some t) (rc, names, w) = (rc, t ∷ names, w)

-- The loop of `use_builtin_fs`: so many names are read from the list, or beyond its end. An error returns
-- from it, with NULL for the names to come.
unfoldable pub copy_builtin : ℕ → List Bytes → World → SgError × List Bytes × World
copy_builtin zero types w = (error_none, [], w)
copy_builtin (suc n) [] w = (error_none, [], faulted w)
copy_builtin (suc n) (t ∷ types) w =
    let (rc, text, w1) = sg_update_string none (some t) w in
    let rest = copy_builtin n types w1 in
    if no_error rc then builtin_name text rest else (rc, [], w1)

unfoldable pub builtin_end : ℕ → SgError × List Bytes × World → SgError × List Bytes × ℕ × World
builtin_end num (rc, names, w) =
    if no_error rc then (error_none, sort_names names, num, w) else (rc, names, num, w)

-- `init_valid_fs_types`, where `fopen` of /proc/filesystems returns what is given: the result, the new
-- `valid_file_systems` and `num_valid_file_systems`, and the world. What `calloc` returns is not looked at where
-- the file was opened. Where it was not, as many built-in names are copied as `num_valid_file_systems`, which
-- is static, was before: 0 at first, or what the last initialisation left.
unfoldable pub init_valid_fs_types : ℕ → Opened → World → SgError × List Bytes × ℕ × World
init_valid_fs_types num (refused e) w =
    let (ok, w1) = malloc (set_errno e w) in
    let (rc, w2) =
      sg_set_error_with_errno_fmt error_malloc (some (codes "init_valid_fs_types")) w1 in
    if ok then builtin_end num (copy_builtin num builtin_types w1) else (rc, [], num, w2)
init_valid_fs_types num (opened f) w =
    let (ok, w1) = malloc w in
    if ok
    then known_end f (known_loop (lines_of types_buf_size f.text) [] 15 w1)
    else (error_none, [], 15, faulted w1)
