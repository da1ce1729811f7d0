-- ===== src/Cpu/Percents.antt =====
-- src/libstatgrab/cpu_stats.c: `sg_get_cpu_percents_of`, the choice of the statistics that percentages
-- are made from. The percentages, floating point numbers, are an argument.
pub mod Sources
mod Tests
use libstatgrab.Base.{ℕ, Option, none, some, get_elem?, modify}
use libstatgrab.Base.Bytes.{codes}
use libstatgrab.Error.{World, sg_set_error_fmt}
use libstatgrab.Error.Codes.{SgError, error_malloc}
use libstatgrab.Vector.{
  SgVector, VectorInfo, VecPtr, null, live, dangling, faulted, sg_get_nelements,
}
use libstatgrab.Access.{Slots, or_create, easy_access, easy_diff}
use libstatgrab.Cpu.{CpuStats, sg_get_cpu_stats_diff_int}

pub data CpuPercentSource : Type 0 where
  entire_cpu_percent last_diff_cpu_percent new_diff_cpu_percent : CpuPercentSource

-- The vectors of the component.
pub record CpuSlots (P : Type 0) : Type 0 where
  pub stats : Slots CpuStats
  pub percent : VecPtr P

-- What the function returns, and what it stores in `*entries`, `none` where it leaves that alone.
pub record Percents (P : Type 0) : Type 0 where
  pub usage : VecPtr P
  pub stored : Option ℕ

-- The statistics that are chosen: `cpu_stats_vector`, and `cs_ptr` as the vector that it lies in.
pub record Chosen : Type 0 where
  pub vector : VecPtr CpuStats
  pub cs_ptr : VecPtr CpuStats
  pub slots : Slots CpuStats

-- `sg_get_cpu_stats_diff_int` as EASY_COMP_DIFF calls it.
abbrev pub target_or : CpuStats → SgError × Option CpuStats × World → SgError × CpuStats × World
target_or tgt (rc, none, w) = (rc, tgt, w)
target_or tgt (rc, some t, w) = (rc, t, w)

unfoldable pub diff_items_of : CpuStats → CpuStats → CpuStats → World → SgError × CpuStats × World
diff_items_of tgt now last w =
    target_or tgt (sg_get_cpu_stats_diff_int (some tgt) (some now) (some last) w)

-- `if( cpu_stats_vector && !cs_ptr ) cs_ptr = VECTOR_DATA(cpu_stats_vector);`
abbrev pub source_of : Chosen → VecPtr CpuStats
source_of c = elim c.cs_ptr [ null ↦ c.vector | live v ↦ live v | dangling ↦ dangling ]

module _ {P : Type 0} (percents_int : CpuStats → P → P) where
  unfoldable pub fill_percents :
      SgVector P → VecPtr CpuStats → ℕ → World → Percents P × VecPtr P × World
  fill_percents p null count w = (record { usage = null; stored = some 0 }, live p, w)
  fill_percents p dangling count w = (record { usage = null; stored = some 0 }, live p, faulted w)
  fill_percents p (live v) count w = elim (get_elem? v.cells 0) [
    | none ↦ (record { usage = null; stored = some 0 }, live p, faulted w)
    | some x ↦
        let p' = record p { cells = modify p.cells 0 (percents_int x) } in
        (record { usage = live p'; stored = some count }, live p', w)
  ]

  unfoldable pub with_chosen : SgVector P → Chosen × World → Percents P × CpuSlots P × World
  with_chosen p (c, w) =
      let (a, percent, w') = fill_percents p (source_of c) (sg_get_nelements c.vector) w in
      (a, record { stats = c.slots; percent = percent }, w')

  module _ (info : VectorInfo CpuStats) (percent_info : VectorInfo P)
      (fn_int : CpuStats → World → SgError × CpuStats × World) where
    -- `cs_ptr = sg_get_cpu_stats_diff(NULL);`
    unfoldable pub new_diff : Slots CpuStats → World → Chosen × World
    new_diff slots w =
        let (a, slots', w') = easy_diff info fn_int diff_items_of slots w in
        (record { vector = null; cs_ptr = a.stats; slots = slots' }, w')

    unfoldable pub entire : VecPtr CpuStats → Slots CpuStats → World → Chosen × World
    entire null slots w =
        let (a, slot, w') = easy_access info fn_int null w in
        (record { vector = null; cs_ptr = a.stats; slots = record slots { now = slot } }, w')
    entire p slots w = (record { vector = p; cs_ptr = null; slots = slots }, w)

    unfoldable pub last_diff : VecPtr CpuStats → Slots CpuStats → World → Chosen × World
    last_diff null slots w = new_diff slots w
    last_diff p slots w = (record { vector = p; cs_ptr = null; slots = slots }, w)

    -- The `switch` on the source.
    unfoldable pub choose_stats : CpuPercentSource → Slots CpuStats → World → Chosen × World
    choose_stats entire_cpu_percent slots w = entire slots.now slots w
    choose_stats last_diff_cpu_percent slots w = last_diff slots.diff slots w
    choose_stats new_diff_cpu_percent slots w = new_diff slots w

    unfoldable pub percents_run :
        CpuPercentSource → Slots CpuStats → VecPtr P × World → Percents P × CpuSlots P × World
    percents_run cps slots (null, w) = (
      record { usage = null; stored = none },
      record { stats = slots; percent = null },
      (sg_set_error_fmt error_malloc (some (codes "sg_get_cpu_percents_of")) w).1,
    )
    percents_run cps slots (live p, w) = with_chosen p (choose_stats cps slots w)
    percents_run cps slots (dangling, w) = (
      record { usage = null; stored = none },
      record { stats = slots; percent = dangling },
      faulted w,
    )

    unfoldable pub sg_get_cpu_percents_of :
        CpuPercentSource → CpuSlots P → World → Percents P × CpuSlots P × World
    sg_get_cpu_percents_of cps slots w =
        percents_run cps slots.stats (or_create percent_info 1 1 1 slots.percent w)
