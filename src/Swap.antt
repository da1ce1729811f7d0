-- ===== src/Swap.antt =====
-- src/libstatgrab/swap_stats.c for Linux: the swap space of /proc/meminfo.
pub mod Figures
mod Tests
use libstatgrab.Base.{ℕ, List, Option, none, some, ltb, if◌then◌else◌}
use libstatgrab.Base.Word.{sub64, mul64}
use libstatgrab.Base.Bytes.{Bytes, codes}
use libstatgrab.Error.{World, sg_set_error_fmt, sg_set_error_with_errno_fmt}
use libstatgrab.Error.Codes.{SgError, error_none, error_open, error_parse, error_sysconf}
use libstatgrab.Stdio.{
  Opened, refused, opened, set_errno, after_reads, lines_of, line_buf_size, to_llu, sscanf_second,
}
use libstatgrab.Stdio.Pairs.{Pair, pair_loop}
use libstatgrab.Tools.Pages.{PageSize, sg_get_sys_page_size}

-- `sg_swap_stats`; the numbers are 64-bit words.
pub record SwapStats : Type 0 where
  pub total : ℕ
  pub used : ℕ
  pub free : ℕ
  pub systime : ℕ

abbrev pub swap_total_word : Bytes
swap_total_word = codes "SwapTotal:"

abbrev pub swap_free_word : Bytes
swap_free_word = codes "SwapFree:"

-- The figure of a line, in bytes.
abbrev pub swap_value : Bytes → Option ℕ
swap_value line = elim (sscanf_second to_llu line) [ none ↦ none | some x ↦ some (mul64 x 1024) ]

-- The loop over the lines, with the counter of its matches.
unfoldable pub swap_loop : List Bytes → Pair
swap_loop lines =
    pair_loop swap_value swap_total_word swap_free_word lines
      (record { first = 0; second = 0; matches = 0 })

-- From the loop's end to the return, where `time` returns `now`.
unfoldable pub swap_end : Pair → ℕ → SwapStats → World → SgError × SwapStats × World
swap_end p now s w =
    if ltb p.matches 2
    then (let (rc, w') = sg_set_error_fmt error_parse (some (codes "/proc/meminfo")) w in
        (rc, record s { total = p.first; used = 0; free = p.second }, w'))
    else (
      error_none,
      record { total = p.first; used = sub64 p.first p.second; free = p.second; systime = now },
      w,
    )

-- `sg_get_swap_stats_int`, where `fopen` of /proc/meminfo returns what is given. The file is read to its end
-- just where fewer than two lines match.
unfoldable pub sg_get_swap_stats_int : Opened → ℕ → SwapStats → World → SgError × SwapStats × World
sg_get_swap_stats_int (refused e) now s w =
    let (rc, w') =
      sg_set_error_with_errno_fmt error_open (some (codes "/proc/meminfo")) (set_errno e w) in
    (rc, record s { total = 0; used = 0; free = 0 }, w')
sg_get_swap_stats_int (opened f) now s w =
    let p = swap_loop (lines_of line_buf_size f.text) in
    swap_end p now s (if ltb p.matches 2 then after_reads f w else w)

-- `sg_swap_init_comp` after GLOBAL_SET_ID: `size` is the page size that the file keeps, and `asked`
-- what `sysconf` answers.
unfoldable pub sg_swap_init_comp : PageSize → PageSize × ℕ → World → SgError × PageSize × World
sg_swap_init_comp size asked w =
    let (answer, size', w') = sg_get_sys_page_size size asked w in
    elim answer [
      | none ↦
          let (rc, w2) =
            sg_set_error_with_errno_fmt error_sysconf (some (codes "_SC_PAGESIZE")) w' in
          (rc, size', w2)
      | some _ ↦ (error_none, size', w')
    ]
