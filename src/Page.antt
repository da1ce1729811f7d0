-- ===== src/Page.antt =====
-- src/libstatgrab/page_stats.c: the paging counters of /proc/vmstat or /proc/stat on Linux, and the
-- difference of two readings.
pub mod Differences
pub mod Figures
mod Tests
use libstatgrab.Base.{ℕ, List, [], ◌∷◌, Option, none, some, ltb, if◌then◌else◌}
use libstatgrab.Base.Word.{sub64}
use libstatgrab.Base.Bytes.{Bytes, codes}
use libstatgrab.Error.{World, sg_get_error, sg_set_error_fmt, sg_set_error_with_errno_fmt}
use libstatgrab.Error.Codes.{SgError, error_none, error_open, error_parse, error_invalid_argument}
use libstatgrab.Stdio.{
  Opened, refused, opened, set_errno, after_reads, lines_of, line_buf_size, to_llu, sscanf_second,
  sscanf_after,
}
use libstatgrab.Stdio.Pairs.{Pair, pair_loop}
use libstatgrab.Tools.Reading.{sg_f_read_line}

-- `sg_page_stats`; the numbers are 64-bit words.
pub record PageStats : Type 0 where
  pub pages_pagein : ℕ
  pub pages_pageout : ℕ
  pub systime : ℕ

-- What `memset` makes of one.
abbrev pub no_page_stats : PageStats
no_page_stats = record { pages_pagein = 0; pages_pageout = 0; systime = 0 }

-- The subtractions, number by number.
abbrev pub page_subtract : PageStats → PageStats → PageStats
page_subtract tgt last = record {
  pages_pagein = sub64 tgt.pages_pagein last.pages_pagein;
  pages_pageout = sub64 tgt.pages_pageout last.pages_pageout;
  systime = sub64 tgt.systime last.systime;
}

-- `sg_get_page_stats_diff_int`; `tgt`, `now` and `last` may be NULL. The result comes with
-- what is stored in the target.
unfoldable pub sg_get_page_stats_diff_int :
    Option PageStats
    → Option PageStats
    → Option PageStats
    → World
    → SgError × Option PageStats × World
sg_get_page_stats_diff_int none now last w =
    let (rc, w') =
      sg_set_error_fmt error_invalid_argument (some (codes "sg_get_page_stats_diff_int(tgt)")) w in
    (rc, none, w')
sg_get_page_stats_diff_int (some tgt) none last w = (error_none, some no_page_stats, w)
sg_get_page_stats_diff_int (some tgt) (some now) none w = (error_none, some now, w)
sg_get_page_stats_diff_int (some tgt) (some now) (some last) w =
    (error_none, some (page_subtract now last), w)

abbrev pub pgpgin_word : Bytes
pgpgin_word = codes "pgpgin "

abbrev pub pgpgout_word : Bytes
pgpgout_word = codes "pgpgout "

-- The loop over the lines of /proc/vmstat, with the counter of its matches.
unfoldable pub page_loop : List Bytes → Pair
page_loop lines =
    pair_loop (sscanf_second to_llu) pgpgin_word pgpgout_word lines
      (record { first = 0; second = 0; matches = 0 })

-- What comes after that loop.
unfoldable pub page_pair : Pair → ℕ → World → SgError × PageStats × World
page_pair p now w =
    let s : PageStats = record {
      pages_pagein = p.first;
      pages_pageout = p.second;
      systime = now;
    } in
    if ltb p.matches 2
    then (let (rc, w') = sg_set_error_fmt error_parse (some (codes "/proc/vmstat")) w in
        (rc, s, w'))
    else (error_none, s, w)

-- The numbers that `sscanf` finds in the line of /proc/stat, over zeroes.
unfoldable pub page_numbers : List ℕ → ℕ → World → SgError × PageStats × World
page_numbers (x ∷ y ∷ rest) now w =
    (error_none, record { pages_pagein = x; pages_pageout = y; systime = now }, w)
page_numbers (x ∷ []) now w =
    let (rc, w') = sg_set_error_fmt error_parse (some (codes "page")) w in
    (rc, record { pages_pagein = x; pages_pageout = 0; systime = now }, w')
page_numbers [] now w =
    let (rc, w') = sg_set_error_fmt error_parse (some (codes "page")) w in
    (rc, record { pages_pagein = 0; pages_pageout = 0; systime = now }, w')

-- The answer of `sg_f_read_line` on /proc/stat. Where it is NULL the current error is returned, which
-- is none unless the read failed.
unfoldable pub page_line : Option Bytes × List Bytes × World → ℕ → SgError × PageStats × World
page_line (none, lines, w) now =
    (sg_get_error w, record { pages_pagein = 0; pages_pageout = 0; systime = now }, w)
page_line (some line, lines, w) now = page_numbers (sscanf_after (codes "page") 2 line) now w

-- The branches on `fopen` of /proc/stat, once /proc/vmstat was refused.
unfoldable pub page_stat : Opened → ℕ → World → SgError × PageStats × World
page_stat (refused e) now w =
    let (rc, w') =
      sg_set_error_with_errno_fmt error_open (some (codes "/proc/stat")) (set_errno e w) in
    (rc, record { pages_pagein = 0; pages_pageout = 0; systime = now }, w')
page_stat (opened f) now w =
    page_line (sg_f_read_line f (lines_of line_buf_size f.text) (some (codes "page")) w) now

-- `sg_get_page_stats_int`, where `fopen` of /proc/vmstat and of /proc/stat return what is given and
-- `time` returns `now`. It overwrites the whole item. The file is read to its end just where fewer than two
-- lines match.
unfoldable pub sg_get_page_stats_int : Opened → Opened → ℕ → World → SgError × PageStats × World
sg_get_page_stats_int (opened f) stat now w =
    let p = page_loop (lines_of line_buf_size f.text) in
    page_pair p now (if ltb p.matches 2 then after_reads f w else w)
sg_get_page_stats_int (refused e) stat now w = page_stat stat now (set_errno e w)
