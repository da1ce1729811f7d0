-- ===== src/Swap/Tests.antt =====
-- The figures of a small /proc/meminfo.
use libstatgrab.Base.{◌≡◌, none, [], ◌∷◌, ◌++◌}
use libstatgrab.Base.Bytes.{codes}
use libstatgrab.Error.{calm}
use libstatgrab.Error.Codes.{error_open}
use libstatgrab.Stdio.{Stream, opened, refused, after_reads, lines_of, line_buf_size}
use libstatgrab.Stdio.Failures.{Failed}
use libstatgrab.Swap.{SwapStats, sg_get_swap_stats_int}
use libstatgrab.Swap.Figures.{SwapRead, swap_hits, swap_stats_lem}

abbrev before : SwapStats
before = record { total = 8; used = 4; free = 4; systime = 0 }

abbrev meminfo : Stream
meminfo = record {
  text =
      codes "MemTotal:  100 kB"
      ++ (10 ∷ codes "SwapTotal:  7 kB")
      ++ (10 ∷ codes "SwapFree:  2 kB")
      ++ (10 ∷ []);
  read_error = none;
}

swap_stats_lem_example :
    SwapRead
      (swap_hits (lines_of line_buf_size meminfo.text))
      5
      calm
      (after_reads meminfo calm)
      (sg_get_swap_stats_int (opened meminfo) 5 before calm)
    × (let (rc, s', w') = sg_get_swap_stats_int (refused 2) 5 before calm in
        (s' ≡ record before { total = 0; used = 0; free = 0 }) × Failed error_open 2 calm (rc, w'))
swap_stats_lem_example = swap_stats_lem meminfo 2 5 before calm
