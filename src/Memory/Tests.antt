-- ===== src/Memory/Tests.antt =====
-- The figures of a small /proc/meminfo.
use libstatgrab.Base.{◌≡◌, none, [], ◌∷◌, ◌++◌}
use libstatgrab.Base.Bytes.{codes}
use libstatgrab.Error.{calm}
use libstatgrab.Error.Codes.{error_none, error_open}
use libstatgrab.Stdio.{Stream, opened, refused, after_reads, lines_of, line_buf_size}
use libstatgrab.Stdio.Failures.{Failed}
use libstatgrab.Memory.{MemStats, sg_get_mem_stats_int}
use libstatgrab.Memory.Figures.{FiguresOf, mem_stats_lem}

abbrev before : MemStats
before = record { total = 0; free = 0; used = 0; cache = 0; systime = 0 }

abbrev meminfo : Stream
meminfo = record {
  text =
      codes "MemTotal:  100 kB"
      ++ (10 ∷ codes "MemFree:  30 kB")
      ++ (10 ∷ codes "SwapCached:  7 kB")
      ++ (10 ∷ codes "Cached:  20 kB")
      ++ (10 ∷ []);
  read_error = none;
}

mem_stats_lem_example :
    (let (rc, s', w') = sg_get_mem_stats_int (opened meminfo) 5 before calm in
      (rc ≡ error_none)
      × FiguresOf (lines_of line_buf_size meminfo.text) 5 before s'
      × (w' ≡ after_reads meminfo calm))
    × (let (rc, s', w') = sg_get_mem_stats_int (refused 2) 5 before calm in
        (s' ≡ before) × Failed error_open 2 calm (rc, w'))
mem_stats_lem_example = mem_stats_lem meminfo 2 5 before calm
