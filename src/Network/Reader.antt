-- ===== src/Network/Reader.antt =====
-- The reader of /proc/net/dev of src/libstatgrab/network_stats.c: the counters of the interfaces.
pub mod Matches
pub mod Counters
mod Tests
use libstatgrab.Base.{
  ℕ, zero, suc, ◌+◌, ◌-◌, Bool, List, [], ◌∷◌, Option, none, some, get_elem?, ◌==◌, ◌&&◌, not,
  if◌then◌else◌,
}
use libstatgrab.Base.Bytes.{Bytes, codes}
use libstatgrab.Error.{World, malloc, no_error, sg_set_error_with_errno_fmt}
use libstatgrab.Error.Codes.{SgError, error_none, error_open, error_parse, error_malloc}
use libstatgrab.Stdio.{
  Stream, Opened, refused, opened, set_errno, after_reads, lines_of, isspace, skip_space, digits,
  starts_digit, to_lld,
}
use libstatgrab.Vector.{SgVector, VecPtr, live}
use libstatgrab.Vector.Append.{Appended, append_loop}
use libstatgrab.Network.{NetworkIoStats, sg_network_io_stats_vector_init_info}

-- What the expression of `network_io_rx` matches in a line: the name of the interface, and the fourteen
-- numbers, of which it keeps eight.
pub record DevLine : Type 0 where
  pub name : Bytes
  pub columns : List ℕ

abbrev pub colon : ℕ
colon = 58

-- `([^:]+):`, with the text after the colon; the name has `c` already.
abbrev pub add_name : ℕ → Option (Bytes × Bytes) → Option (Bytes × Bytes)
add_name c none = none
add_name c (some (name, rest)) = some (c ∷ name, rest)

unfoldable pub until_colon : Bytes → Option (Bytes × Bytes)
until_colon [] = none
until_colon (c ∷ s) =
    let more = until_colon s in if c == colon then some ([], s) else add_name c more

-- `[[:space:]]*([^:]+):`. The white space gives way to the name where that would be empty.
unfoldable pub match_name : Bytes → Option (Bytes × Bytes)
match_name [] = none
match_name (c ∷ s) =
    let rest = match_name s in
    let here = until_colon (c ∷ s) in
    if isspace c
    then elim rest [ some found ↦ some found | none ↦ here ]
    else if c == colon
    then none
    else here

-- One number and the text after it, as `sg_get_ll_match` reads it with `atoll`.
unfoldable pub match_number : Bytes → Option (ℕ × Bytes)
match_number s =
    if starts_digit s then some (to_lld Bool.false (digits 0 s).0, (digits 0 s).1) else none

-- `[[:space:]]+`
unfoldable pub match_spaces : Bytes → Option Bytes
match_spaces [] = none
match_spaces (c ∷ s) = if isspace c then some (skip_space s) else none

-- `n` more numbers, each after white space.
unfoldable pub match_numbers : ℕ → Bytes → Option (List ℕ)
match_numbers zero s = some []
match_numbers (suc n) s = elim (match_spaces s) [
  | none ↦ none
  | some s1 ↦ elim (match_number s1) [
    | none ↦ none
    | some (x, s2) ↦ elim (match_numbers n s2) [ none ↦ none | some xs ↦ some (x ∷ xs) ]
  ]
]

abbrev pub rx_columns : ℕ
rx_columns = 14

-- `regexec(&network_io_rx, line, …)`, for a line of /proc/net/dev.
unfoldable pub match_dev : Bytes → Option DevLine
match_dev line = elim (match_name line) [
  | none ↦ none
  | some (name, rest) ↦ elim (match_number (skip_space rest)) [
    | none ↦ none
    | some (x, s) ↦ elim (match_numbers (rx_columns - 1) s) [
      | none ↦ none
      | some xs ↦ some (record { name = name; columns = x ∷ xs })
    ]
  ]
]

abbrev pub column : List ℕ → ℕ → ℕ
column xs i = elim (get_elem? xs i) [ none ↦ 0 | some x ↦ x ]

-- The item of a line. The name is what `sg_get_string_match` returns, which may be NULL; nothing
-- tells of it.
unfoldable pub dev_item : ℕ → List ℕ → Option Bytes → NetworkIoStats
dev_item now xs name = record {
  interface_name = name;
  rx = column xs 0;
  tx = column xs 8;
  ipackets = column xs 1;
  opackets = column xs 9;
  ierrors = column xs 2;
  oerrors = column xs 10;
  collisions = column xs 13;
  systime = now;
}

unfoldable pub dev_fill : ℕ → DevLine → NetworkIoStats → World → SgError × NetworkIoStats × World
dev_fill now l d w =
    let (ok, w') = malloc w in
    if ok then (error_none, dev_item now l.columns (some l.name), w') else (
      error_none,
      dev_item now l.columns none,
      (sg_set_error_with_errno_fmt error_malloc
          (some (codes "sg_get_string_match: couldn't strndup()")) w').1,
    )

-- A line that does not match is skipped.
abbrev pub dev_line : ℕ → Bytes → Option (NetworkIoStats → World → SgError × NetworkIoStats × World)
dev_line now line = elim (match_dev line) [ none ↦ none | some l ↦ some (dev_fill now l) ]

abbrev pub dev_buf_size : ℕ
dev_buf_size = 1024

module _ (raw : NetworkIoStats) (now : ℕ) where
  -- The lines after the two of the title, which have to be there.
  unfoldable pub dev_lines :
      Stream
      → List Bytes
      → SgVector NetworkIoStats
      → World
      → SgError × VecPtr NetworkIoStats × World
  dev_lines f (a ∷ b ∷ lines) v w =
      let out =
        append_loop (sg_network_io_stats_vector_init_info raw) (dev_line now) lines 0 (live v) w in
      (out.rc, out.vector, if no_error out.rc then after_reads f out.world else out.world)
  dev_lines f _ v w =
      let (rc, w') =
        sg_set_error_with_errno_fmt error_parse (some (codes "/proc/net/dev")) (after_reads f w) in
      (rc, live v, w')

  -- `sg_get_network_io_stats_int`, where `fopen` of /proc/net/dev returns what is given, and `time`
  -- returns `now`.
  unfoldable pub sg_get_network_io_stats_int :
      Opened → SgVector NetworkIoStats → World → SgError × VecPtr NetworkIoStats × World
  sg_get_network_io_stats_int (refused e) v w =
      let (rc, w') =
        sg_set_error_with_errno_fmt error_open (some (codes "/proc/net/dev")) (set_errno e w) in
      (rc, live v, w')
  sg_get_network_io_stats_int (opened f) v w = dev_lines f (lines_of dev_buf_size f.text) v w
