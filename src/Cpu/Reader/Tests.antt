-- ===== src/Cpu/Reader/Tests.antt =====
-- A small /proc/stat.
use libstatgrab.Base.{◌≡◌, refl, none, [], ◌∷◌, ◌++◌}
use libstatgrab.Base.Bytes.{codes}
use libstatgrab.Error.{calm}
use libstatgrab.Error.Codes.{error_open}
use libstatgrab.Stdio.{
  Stream, opened, refused, fgets_lines, strncmp_eq, sscanf_after, scan_numbers, scan_number,
  skip_space, digits,
}
use libstatgrab.Stdio.Failures.{Failed}
use libstatgrab.Cpu.{no_cpu_stats}
use libstatgrab.Cpu.Reader.{cpu_word, intr_word, line_word, cpu_numbers, sg_get_cpu_stats_int}
use libstatgrab.Cpu.Reader.Counters.{CpuRead, cpu_entries, cpu_stats_lem}

abbrev stat : Stream
stat = record {
  text =
      codes "cpu  10 20 30 40 50 60"
      ++ 10 ∷ codes "cpu0 5 10 15 20 25 30"
      ++ 10 ∷ codes "intr 7 1 2"
      ++ 10 ∷ [];
  read_error = none;
}

stat_entries : cpu_entries stat ≡ (cpu_word, 10 ∷ 20 ∷ 30 ∷ 40 ∷ 50 ∷ []) ∷ (intr_word, 7 ∷ []) ∷ []
unfolding fgets_lines line_word strncmp_eq cpu_numbers sscanf_after scan_numbers scan_number
    skip_space digits
stat_entries = refl

cpu_stats_lem_example :
    CpuRead (cpu_entries stat) 5 calm (sg_get_cpu_stats_int (opened stat) 5 no_cpu_stats calm)
    × (let (rc, s', w') = sg_get_cpu_stats_int (refused 2) 5 no_cpu_stats calm in
        (s' ≡ no_cpu_stats) × Failed error_open 2 calm (rc, w'))
cpu_stats_lem_example = cpu_stats_lem stat 2 5 no_cpu_stats calm
