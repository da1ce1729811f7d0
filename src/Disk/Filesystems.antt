-- ===== src/Disk/Filesystems.antt =====
-- src/libstatgrab/disk_stats.c: the list of the types of file systems that statistics are wanted for.
-- `qsort` is a sort by insertion, and `bsearch` a binary search.
pub mod Search
pub mod Sorting
pub mod Known
mod Tests
use libstatgrab.Base.{
  ℕ, zero, suc, ◌+◌, ◌/◌, Bool, true, false, ◌&&◌, List, [], ◌∷◌, map, length, take, drop, Option,
  none, some, Ordering, leb, if◌then◌else◌,
}
use libstatgrab.Base.Bytes.{Bytes, codes, strcmp}
use libstatgrab.Error.{World, no_error, malloc, sg_set_error_with_errno_fmt}
use libstatgrab.Error.Codes.{SgError, error_none, error_malloc}
use libstatgrab.Tools.Strings.{sg_update_string}

-- `tolower` on an ASCII character, and `strcasecmp`.
abbrev pub lower : ℕ → ℕ
lower c = if leb 65 c && leb c 90 then c + 32 else c

abbrev pub strcasecmp : Bytes → Bytes → Ordering
strcasecmp a b = strcmp (map lower a) (map lower b)

-- `qsort` with `cmp_valid_fs`, on a list without NULL; `put` is one comparison.
abbrev pub put : Ordering → Bytes → Bytes → List Bytes → List Bytes → List Bytes
put Ordering.gt name l names rest = l ∷ rest
put _ name l names rest = name ∷ l ∷ names

abbrev pub insert_name : Bytes → List Bytes → List Bytes
insert_name name [] = name ∷ []
insert_name name (l ∷ names) = put (strcasecmp name l) name l names (insert_name name names)

abbrev pub sort_names : List Bytes → List Bytes
sort_names [] = []
sort_names (n ∷ names) = insert_name n (sort_names names)

-- `bsearch` with `cmp_valid_fs`: the middle element decides between the part before it and the part behind it.
abbrev pub bsearch_on : Ordering → Bool → Bool → Bool
bsearch_on Ordering.lt left right = left
bsearch_on Ordering.eq left right = true
bsearch_on Ordering.gt left right = right

unfoldable pub bsearch : ℕ → Bytes → List Bytes → Bool
bsearch zero type names = false
bsearch (suc fuel) type names = elim (drop (length names / 2) names) [
  | [] ↦ false
  | m ∷ right ↦
      bsearch_on (strcasecmp type m) (bsearch fuel type (take (length names / 2) names))
        (bsearch fuel type right)
]

-- `is_valid_fs_type`
unfoldable pub is_valid_fs_type : Bytes → List Bytes → Bool
is_valid_fs_type type names = bsearch (length names) type names

-- One string of the copy, after those behind it.
unfoldable pub keep_name :
    List Bytes → SgError × Option Bytes × World → SgError × List Bytes × World
keep_name names (rc, none, w) = (rc, names, w)
keep_name names (rc, some text, w) = (rc, text ∷ names, w)

unfoldable pub copy_name : Bytes → SgError × List Bytes × World → SgError × List Bytes × World
copy_name name (rc, names, w) =
    if no_error rc then keep_name names (sg_update_string none (some name) w) else (rc, names, w)

-- `while( tmp-- )`, from the last string to the first.
unfoldable pub copy_names : List Bytes → World → SgError × List Bytes × World
copy_names [] w = (error_none, [], w)
copy_names (n ∷ names) w = copy_name n (copy_names names w)

-- The end of `sg_set_valid_filesystems`: on an error the old list stays.
unfoldable pub list_copied :
    List Bytes → SgError × List Bytes × World → SgError × List Bytes × World
list_copied old (rc, names, w) =
    if no_error rc then (error_none, sort_names names, w) else (rc, old, w)

-- `sg_set_valid_filesystems`; `[]` stands for NULL and for an empty list. The result, the new
-- `valid_file_systems` and the world.
unfoldable pub sg_set_valid_filesystems :
    List Bytes → List Bytes → World → SgError × List Bytes × World
sg_set_valid_filesystems old [] w = (error_none, [], w)
sg_set_valid_filesystems old (n ∷ names) w =
    let (ok, w1) = malloc w in
    if ok then list_copied old (copy_names (n ∷ names) w1) else (
      error_malloc,
      old,
      (sg_set_error_with_errno_fmt error_malloc (some (codes "set_valid_filesystems")) w1).1,
    )
