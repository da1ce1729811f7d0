-- ===== src/Cpu.antt =====
-- src/libstatgrab/cpu_stats.c: the difference of two readings of the processor's counters.
pub mod Differences
pub mod Percents
pub mod Reader
mod Tests
use libstatgrab.Base.{ℕ, Option, none, some}
use libstatgrab.Base.Word.{sub64}
use libstatgrab.Base.Bytes.{codes}
use libstatgrab.Error.{World, sg_set_error_fmt}
use libstatgrab.Error.Codes.{SgError, error_none, error_invalid_argument}

-- `sg_cpu_stats`; the numbers are 64-bit words.
pub record CpuStats : Type 0 where
  pub user : ℕ
  pub kernel : ℕ
  pub idle : ℕ
  pub iowait : ℕ
  pub swap : ℕ
  pub nice : ℕ
  pub total : ℕ
  pub context_switches : ℕ
  pub voluntary_context_switches : ℕ
  pub involuntary_context_switches : ℕ
  pub syscalls : ℕ
  pub interrupts : ℕ
  pub soft_interrupts : ℕ
  pub systime : ℕ

-- `counter_diff`, on a system whose counters have 64 bits.
abbrev pub counter_diff : ℕ → ℕ → ℕ
counter_diff new old = sub64 new old

-- What `memset` makes of one.
abbrev pub no_cpu_stats : CpuStats
no_cpu_stats = record {
  user = 0;
  kernel = 0;
  idle = 0;
  iowait = 0;
  swap = 0;
  nice = 0;
  total = 0;
  context_switches = 0;
  voluntary_context_switches = 0;
  involuntary_context_switches = 0;
  syscalls = 0;
  interrupts = 0;
  soft_interrupts = 0;
  systime = 0;
}

-- The subtractions, number by number.
abbrev pub cpu_subtract : CpuStats → CpuStats → CpuStats
cpu_subtract tgt last = record {
  user = sub64 tgt.user last.user;
  kernel = sub64 tgt.kernel last.kernel;
  idle = sub64 tgt.idle last.idle;
  iowait = sub64 tgt.iowait last.iowait;
  swap = sub64 tgt.swap last.swap;
  nice = sub64 tgt.nice last.nice;
  total = sub64 tgt.total last.total;
  context_switches = counter_diff tgt.context_switches last.context_switches;
  voluntary_context_switches =
      counter_diff tgt.voluntary_context_switches last.voluntary_context_switches;
  involuntary_context_switches =
      counter_diff tgt.involuntary_context_switches last.involuntary_context_switches;
  syscalls = counter_diff tgt.syscalls last.syscalls;
  interrupts = counter_diff tgt.interrupts last.interrupts;
  soft_interrupts = counter_diff tgt.soft_interrupts last.soft_interrupts;
  systime = sub64 tgt.systime last.systime;
}

-- `sg_get_cpu_stats_diff_int`; `tgt`, `now` and `last` may be NULL. The result comes with
-- what is stored in the target.
unfoldable pub sg_get_cpu_stats_diff_int :
    Option CpuStats → Option CpuStats → Option CpuStats → World → SgError × Option CpuStats × World
sg_get_cpu_stats_diff_int none now last w =
    let (rc, w') =
      sg_set_error_fmt error_invalid_argument (some (codes "sg_get_cpu_stats_diff_int(tgt)")) w in
    (rc, none, w')
sg_get_cpu_stats_diff_int (some tgt) none last w = (error_none, some no_cpu_stats, w)
sg_get_cpu_stats_diff_int (some tgt) (some now) none w = (error_none, some now, w)
sg_get_cpu_stats_diff_int (some tgt) (some now) (some last) w =
    (error_none, some (cpu_subtract now last), w)
