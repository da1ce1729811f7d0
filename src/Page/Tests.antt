-- ===== src/Page/Tests.antt =====
-- A small /proc/vmstat and /proc/stat; and the differences at a concrete input, where the first counter
-- has wrapped around.
use libstatgrab.Base.{◌≡◌, arith, none, some, [], ◌∷◌, ◌++◌}
use libstatgrab.Base.Bytes.{Bytes, codes}
use libstatgrab.Error.{calm, sg_get_error}
use libstatgrab.Error.Codes.{error_none, error_open, error_invalid_argument}
use libstatgrab.Page.{PageStats, no_page_stats, sg_get_page_stats_int, sg_get_page_stats_diff_int}
use libstatgrab.Stdio.{Stream, opened, refused, set_errno, after_reads, lines_of, line_buf_size}
use libstatgrab.Stdio.Failures.{Failed}
use libstatgrab.Page.Figures.{PageRead, LineRead, page_hits, first_line, page_stats_lem}
use libstatgrab.Page.Differences.{advanced, page_diff_lem}

abbrev last : PageStats
last = record { pages_pagein = 18446744073709551615; pages_pageout = 10; systime = 11 }

abbrev delta : PageStats
delta = record { pages_pagein = 5; pages_pageout = 5; systime = 5 }

page_diff_lem_example :
    (sg_get_page_stats_diff_int (some delta) (some (advanced delta last)) (some last) calm
      ≡ (error_none, some delta, calm))
    × (sg_get_page_stats_diff_int (some delta) (some last) none calm
        ≡ (error_none, some last, calm))
    × (sg_get_page_stats_diff_int (some delta) none none calm
        ≡ (error_none, some no_page_stats, calm))
    × (let (rc, _, w') = sg_get_page_stats_diff_int none (some last) none calm in
        (rc ≡ error_invalid_argument) × (sg_get_error w' ≡ error_invalid_argument))
page_diff_lem_example =
    page_diff_lem delta delta last last none calm
      (record {
        pages_pagein_word = omega arith;
        pages_pageout_word = omega arith;
        systime_word = omega arith;
      })
      (record {
        pages_pagein_word = omega arith;
        pages_pageout_word = omega arith;
        systime_word = omega arith;
      })

abbrev vmstat : Stream
vmstat = record {
  text = codes "pgpgin 12" ++ (10 ∷ codes "pgpgout 34") ++ (10 ∷ []);
  read_error = none;
}

abbrev stat_text : Bytes
stat_text = codes "cpu 1 2" ++ (10 ∷ codes "page 5 6") ++ (10 ∷ [])

page_stats_lem_example :
    PageRead
      (page_hits (lines_of line_buf_size vmstat.text))
      5
      calm
      (after_reads vmstat calm)
      (sg_get_page_stats_int (opened vmstat) (refused 2) 5 calm)
    × LineRead (first_line (codes "page") (lines_of line_buf_size stat_text)) 5 (set_errno 1 calm) (
        sg_get_page_stats_int
          (refused 1)
          (opened (record { text = stat_text; read_error = none }))
          5
          calm)
    × (let (rc, _, w') = sg_get_page_stats_int (refused 1) (refused 2) 5 calm in
        Failed error_open 2 calm (rc, w'))
page_stats_lem_example = page_stats_lem vmstat stat_text (refused 2) 1 2 5 calm
