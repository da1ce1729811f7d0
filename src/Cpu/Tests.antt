-- ===== src/Cpu/Tests.antt =====
-- The differences at a concrete input: the first counter has wrapped around.
use libstatgrab.Base.{◌≡◌, arith, none, some}
use libstatgrab.Error.{calm, sg_get_error}
use libstatgrab.Error.Codes.{error_none, error_invalid_argument}
use libstatgrab.Cpu.{CpuStats, no_cpu_stats, sg_get_cpu_stats_diff_int}
use libstatgrab.Cpu.Differences.{advanced, cpu_diff_lem}

abbrev last : CpuStats
last = record {
  user = 18446744073709551615;
  kernel = 10;
  idle = 11;
  iowait = 12;
  swap = 13;
  nice = 14;
  total = 15;
  context_switches = 16;
  voluntary_context_switches = 17;
  involuntary_context_switches = 18;
  syscalls = 19;
  interrupts = 20;
  soft_interrupts = 21;
  systime = 22;
}

abbrev delta : CpuStats
delta = record {
  user = 5;
  kernel = 5;
  idle = 5;
  iowait = 5;
  swap = 5;
  nice = 5;
  total = 5;
  context_switches = 5;
  voluntary_context_switches = 5;
  involuntary_context_switches = 5;
  syscalls = 5;
  interrupts = 5;
  soft_interrupts = 5;
  systime = 5;
}

cpu_diff_lem_example :
    (sg_get_cpu_stats_diff_int (some delta) (some (advanced delta last)) (some last) calm
      ≡ (error_none, some delta, calm))
    × (sg_get_cpu_stats_diff_int (some delta) (some last) none calm ≡ (error_none, some last, calm))
    × (sg_get_cpu_stats_diff_int (some delta) none none calm
        ≡ (error_none, some no_cpu_stats, calm))
    × (let (rc, _, w') = sg_get_cpu_stats_diff_int none (some last) none calm in
        (rc ≡ error_invalid_argument) × (sg_get_error w' ≡ error_invalid_argument))
cpu_diff_lem_example =
    cpu_diff_lem delta delta last last none calm
      (record {
        user_word = omega arith;
        kernel_word = omega arith;
        idle_word = omega arith;
        iowait_word = omega arith;
        swap_word = omega arith;
        nice_word = omega arith;
        total_word = omega arith;
        context_switches_word = omega arith;
        voluntary_context_switches_word = omega arith;
        involuntary_context_switches_word = omega arith;
        syscalls_word = omega arith;
        interrupts_word = omega arith;
        soft_interrupts_word = omega arith;
        systime_word = omega arith;
      })
      (record {
        user_word = omega arith;
        kernel_word = omega arith;
        idle_word = omega arith;
        iowait_word = omega arith;
        swap_word = omega arith;
        nice_word = omega arith;
        total_word = omega arith;
        context_switches_word = omega arith;
        voluntary_context_switches_word = omega arith;
        involuntary_context_switches_word = omega arith;
        syscalls_word = omega arith;
        interrupts_word = omega arith;
        soft_interrupts_word = omega arith;
        systime_word = omega arith;
      })
