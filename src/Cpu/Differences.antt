-- ===== src/Cpu/Differences.antt =====
-- The differences of src/libstatgrab/cpu_stats.c, on every branch.
use libstatgrab.Base.{◌≡◌, ◌<◌, refl, ap, Option, none, some}
use libstatgrab.Base.Word.{u64_mod, add64, sub64-add64}
use libstatgrab.Base.Bytes.{codes}
use libstatgrab.Error.{World, sg_get_error, sg_set_error_fmt, sg_set_error_int}
use libstatgrab.Error.Slot.{get_error-set}
use libstatgrab.Error.Codes.{error_none, error_invalid_argument}
use libstatgrab.Cpu.{CpuStats, no_cpu_stats, cpu_subtract, sg_get_cpu_stats_diff_int}

-- Every number is a 64-bit word.
pub record IsWords (s : CpuStats) : Type 0 where
  pub user_word : s.user < u64_mod
  pub kernel_word : s.kernel < u64_mod
  pub idle_word : s.idle < u64_mod
  pub iowait_word : s.iowait < u64_mod
  pub swap_word : s.swap < u64_mod
  pub nice_word : s.nice < u64_mod
  pub total_word : s.total < u64_mod
  pub context_switches_word : s.context_switches < u64_mod
  pub voluntary_context_switches_word : s.voluntary_context_switches < u64_mod
  pub involuntary_context_switches_word : s.involuntary_context_switches < u64_mod
  pub syscalls_word : s.syscalls < u64_mod
  pub interrupts_word : s.interrupts < u64_mod
  pub soft_interrupts_word : s.soft_interrupts < u64_mod
  pub systime_word : s.systime < u64_mod

-- The counters of `last` after they have gone on by `delta`, wrapping.
abbrev pub advanced : CpuStats → CpuStats → CpuStats
advanced delta last = record {
  user = add64 delta.user last.user;
  kernel = add64 delta.kernel last.kernel;
  idle = add64 delta.idle last.idle;
  iowait = add64 delta.iowait last.iowait;
  swap = add64 delta.swap last.swap;
  nice = add64 delta.nice last.nice;
  total = add64 delta.total last.total;
  context_switches = add64 delta.context_switches last.context_switches;
  voluntary_context_switches =
      add64 delta.voluntary_context_switches last.voluntary_context_switches;
  involuntary_context_switches =
      add64 delta.involuntary_context_switches last.involuntary_context_switches;
  syscalls = add64 delta.syscalls last.syscalls;
  interrupts = add64 delta.interrupts last.interrupts;
  soft_interrupts = add64 delta.soft_interrupts last.soft_interrupts;
  systime = add64 delta.systime last.systime;
}

cpu_subtract-advanced :
    (delta last : CpuStats)
    → IsWords delta
    → IsWords last
    → cpu_subtract (advanced delta last) last ≡ delta
cpu_subtract-advanced delta last d l =
    rw
      (
        sub64-add64 delta.user last.user d.user_word l.user_word,
        sub64-add64 delta.kernel last.kernel d.kernel_word l.kernel_word,
        sub64-add64 delta.idle last.idle d.idle_word l.idle_word,
        sub64-add64 delta.iowait last.iowait d.iowait_word l.iowait_word,
        sub64-add64 delta.swap last.swap d.swap_word l.swap_word,
        sub64-add64 delta.nice last.nice d.nice_word l.nice_word,
        sub64-add64 delta.total last.total d.total_word l.total_word,
        sub64-add64 delta.context_switches last.context_switches d.context_switches_word
            l.context_switches_word,
        sub64-add64 delta.voluntary_context_switches last.voluntary_context_switches
            d.voluntary_context_switches_word l.voluntary_context_switches_word,
        sub64-add64 delta.involuntary_context_switches last.involuntary_context_switches
            d.involuntary_context_switches_word l.involuntary_context_switches_word,
        sub64-add64 delta.syscalls last.syscalls d.syscalls_word l.syscalls_word,
        sub64-add64 delta.interrupts last.interrupts d.interrupts_word l.interrupts_word,
        sub64-add64 delta.soft_interrupts last.soft_interrupts d.soft_interrupts_word
            l.soft_interrupts_word,
        sub64-add64 delta.systime last.systime d.systime_word l.systime_word,
      )
      refl

-- `sg_get_cpu_stats_diff_int`: with a last item of which the counters have since gone on by
-- `delta`, wrapping around their 64 bits where they must, the target becomes `delta`. Without a last
-- item it becomes the current one, without a current one it is cleared, and without a target
-- `SG_ERROR_INVALID_ARGUMENT` is returned and set.
pub cpu_diff_lem :
    (tgt delta last now : CpuStats) (old : Option CpuStats) (w : World)
    → IsWords delta
    → IsWords last
    → (sg_get_cpu_stats_diff_int (some tgt) (some (advanced delta last)) (some last) w
        ≡ (error_none, some delta, w))
      × (sg_get_cpu_stats_diff_int (some tgt) (some now) none w ≡ (error_none, some now, w))
      × (sg_get_cpu_stats_diff_int (some tgt) none old w ≡ (error_none, some no_cpu_stats, w))
      × (let (rc, _, w') = sg_get_cpu_stats_diff_int none (some now) old w in
          (rc ≡ error_invalid_argument) × (sg_get_error w' ≡ error_invalid_argument))
unfolding sg_get_cpu_stats_diff_int sg_set_error_fmt sg_set_error_int
cpu_diff_lem tgt delta last now old w d l = (
  ap (λ (s : CpuStats). (error_none, some s, w)) (cpu_subtract-advanced delta last d l),
  refl,
  refl,
  (refl, get_error-set error_invalid_argument 0 (some (codes "sg_get_cpu_stats_diff_int(tgt)")) w),
)
