-- ===== src/Cpu/Percents/Tests.antt =====
-- The sources of percentages at concrete inputs, with whole percentages in place of floating point.
use libstatgrab.Base.{ℕ, ◌+◌, ◌*◌, ◌/◌, ◌≡◌, refl, arith, [], ◌∷◌, none}
use libstatgrab.Error.{World, calm}
use libstatgrab.Error.Codes.{SgError, error_none}
use libstatgrab.Vector.{SgVector, VectorInfo, live, null}
use libstatgrab.Access.{Slots}
use libstatgrab.Access.Items.{Holds}
use libstatgrab.Cpu.{CpuStats, no_cpu_stats, cpu_subtract}
use libstatgrab.Cpu.Percents.{
  entire_cpu_percent, last_diff_cpu_percent, new_diff_cpu_percent, sg_get_cpu_percents_of,
}
use libstatgrab.Cpu.Percents.Sources.{MadeFrom, percents_of_given, percents_of_new}

abbrev busy : ℕ → CpuStats
busy n = record no_cpu_stats { user = n; total = 2 * n + 1 }

abbrev user_percent : CpuStats → ℕ → ℕ
user_percent s old = 100 * s.user / s.total

abbrev read_on : CpuStats → World → SgError × CpuStats × World
read_on s w = (error_none, busy (s.user + 7), w)

abbrev info_of : {T : Type 0} → T → VectorInfo T
info_of raw = record {
  item_size = 8;
  init_fn = none;
  copy_fn = none;
  compute_diff_fn = none;
  compare_fn = none;
  destroy_fn = none;
  raw = raw;
}

abbrev one : {T : Type 0} → T → SgVector T
one x = record {
  used_count = 1;
  alloc_count = 1;
  block_shift = 0;
  info = info_of x;
  cells = x ∷ [];
}

one-Holds : {T : Type 0} (x : T) → Holds (one x) x
one-Holds x = record {
  valid = record { used_in = omega arith; alloc_in = omega arith; sized = omega arith };
  one_item = refl;
  item = refl;
}

percents_of_given_example :
    let slots : Slots CpuStats = record { now = live (one (busy 5)); diff = null } in
    let last : Slots CpuStats = record { now = null; diff = live (one (busy 5)) } in
    let out =
      sg_get_cpu_percents_of user_percent
        (info_of no_cpu_stats)
        (info_of 0)
        read_on
        entire_cpu_percent
        (record { stats = slots; percent = live (one 0) })
        calm in
    let out' =
      sg_get_cpu_percents_of user_percent
        (info_of no_cpu_stats)
        (info_of 0)
        read_on
        last_diff_cpu_percent
        (record { stats = last; percent = live (one 0) })
        calm in
    MadeFrom user_percent (info_of no_cpu_stats) (info_of 0) read_on (busy 5) 0 1 out
    × (out.1.stats ≡ slots)
    × MadeFrom user_percent (info_of no_cpu_stats) (info_of 0) read_on (busy 5) 0 1 out'
    × (out'.1.stats ≡ last)
percents_of_given_example =
    percents_of_given user_percent (info_of no_cpu_stats) (info_of 0) read_on (one (busy 5))
      (busy 5) null (one 0) 0 calm (one-Holds (busy 5)) (one-Holds 0)

percents_of_new_example :
    MadeFrom user_percent
      (info_of no_cpu_stats)
      (info_of 0)
      read_on
      (cpu_subtract (busy 12) (busy 5))
      0
      0
      (sg_get_cpu_percents_of user_percent
        (info_of no_cpu_stats)
        (info_of 0)
        read_on
        new_diff_cpu_percent
        (record {
          stats = record { now = live (one (busy 5)); diff = live (one no_cpu_stats) };
          percent = live (one 0);
        })
        calm)
percents_of_new_example =
    percents_of_new user_percent (info_of no_cpu_stats) (info_of 0) read_on (one (busy 5))
      (one no_cpu_stats) (busy 5) no_cpu_stats (one 0) 0 calm (one-Holds (busy 5))
      (one-Holds no_cpu_stats) (one-Holds 0) refl
