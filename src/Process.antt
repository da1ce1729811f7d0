-- ===== src/Process.antt =====
-- src/libstatgrab/process_stats.c: counting the processes by their state, and the orders for sorting
-- them. The percentage of processor time, a floating point number, is left out, and with it its order.
pub mod Counts
pub mod Order
mod Tests
use libstatgrab.Base.{
  ℕ, zero, suc, ◌+◌, ◌-◌, ◌^◌, ◌%◌, List, Option, none, some, Ordering, get_elem?, modify, ltb,
  ◌==◌, if◌then◌else◌,
}
use libstatgrab.Base.Word.{u64_mod, add64}
use libstatgrab.Base.Bytes.{Bytes, codes, strcmp_ptr}
use libstatgrab.Error.{World, sg_set_error_fmt}
use libstatgrab.Error.Codes.{SgError, error_none, error_malloc}
use libstatgrab.Vector.{SgVector, VectorInfo, VecPtr, null, live, dangling, faulted}
use libstatgrab.Access.{or_create, multi_access}

pub data ProcessState : Type 0 where
  running sleeping stopped zombie unknown : ProcessState

-- `sg_process_stats`; signed numbers are the words of their two's complement.
pub record ProcessStats : Type 0 where
  pub process_name : Option Bytes
  pub proctitle : Option Bytes
  pub pid : ℕ
  pub parent : ℕ
  pub pgid : ℕ
  pub sessid : ℕ
  pub uid : ℕ
  pub euid : ℕ
  pub gid : ℕ
  pub egid : ℕ
  pub context_switches : ℕ
  pub voluntary_context_switches : ℕ
  pub involuntary_context_switches : ℕ
  pub proc_size : ℕ
  pub proc_resident : ℕ
  pub start_time : ℕ
  pub time_spent : ℕ
  pub nice : ℕ
  pub state : ProcessState
  pub systime : ℕ

-- `sg_process_count`
pub record ProcessCount : Type 0 where
  pub total : ℕ
  pub running_count : ℕ
  pub sleeping_count : ℕ
  pub stopped_count : ℕ
  pub zombie_count : ℕ
  pub unknown_count : ℕ
  pub systime : ℕ

-- The `switch` on the state.
abbrev pub count_state : ProcessState → ProcessCount → ProcessCount
count_state running c = record c { running_count = add64 c.running_count 1 }
count_state sleeping c = record c { sleeping_count = add64 c.sleeping_count 1 }
count_state stopped c = record c { stopped_count = add64 c.stopped_count 1 }
count_state zombie c = record c { zombie_count = add64 c.zombie_count 1 }
count_state unknown c = record c { unknown_count = add64 c.unknown_count 1 }

-- `while( proc_count-- )`, from the last process to the first.
unfoldable pub count_loop : ℕ → List ProcessStats → ProcessCount → World → ProcessCount × World
count_loop zero ps c w = (c, w)
count_loop (suc k) ps c w = elim (get_elem? ps k) [
  | none ↦ (c, faulted w)
  | some p ↦ count_loop k ps (count_state p.state c) w
]

abbrev pub fresh_count : ℕ → ℕ → ProcessCount
fresh_count proc_count systime = record {
  total = proc_count;
  running_count = 0;
  sleeping_count = 0;
  stopped_count = 0;
  zombie_count = 0;
  unknown_count = 0;
  systime = systime;
}

-- `sg_get_process_count_int`; it reads the time of the first process also where there is none.
unfoldable pub sg_get_process_count_int : SgVector ProcessStats → World → ProcessCount × World
sg_get_process_count_int v w = elim (get_elem? v.cells 0) [
  | none ↦ (fresh_count v.used_count 0, faulted w)
  | some p ↦ count_loop v.used_count v.cells (fresh_count v.used_count p.systime) w
]

pub data ProcessCountSource : Type 0 where
  entire_process_count last_process_count : ProcessCountSource

-- The vectors of the component: processes and their count.
pub record ProcessSlots : Type 0 where
  pub stat : VecPtr ProcessStats
  pub count : VecPtr ProcessCount

-- The first item of the vector of the count is written.
unfoldable pub store_count :
    SgVector ProcessCount → ProcessCount × World → VecPtr ProcessCount × World
store_count v (c, w) = elim (get_elem? v.cells 0) [
  | none ↦ (live v, faulted w)
  | some _ ↦ (live (record v { cells = modify v.cells 0 (λ _. c) }), w)
]

-- The end of `sg_get_process_count_of`, with the processes chosen: the result, the slots, the world.
unfoldable pub count_chosen :
    SgVector ProcessCount → VecPtr ProcessStats × World → VecPtr ProcessCount × ProcessSlots × World
count_chosen v (null, w) = (null, record { stat = null; count = live v }, w)
count_chosen v (dangling, w) = (null, record { stat = dangling; count = live v }, faulted w)
count_chosen v (live ps, w) =
    let (p, w') = store_count v (sg_get_process_count_int ps w) in
    (p, record { stat = live ps; count = p }, w')

module _ (stat_info : VectorInfo ProcessStats) (count_info : VectorInfo ProcessCount)
    (fn_int : SgVector ProcessStats → World → SgError × VecPtr ProcessStats × World) where
  -- `sg_get_process_stats(NULL)` and the slot after it.
  unfoldable pub read_processes : VecPtr ProcessStats → World → VecPtr ProcessStats × World
  read_processes slot w = let (a, slot', w') = multi_access stat_info fn_int slot w in (slot', w')

  unfoldable pub choose_processes :
      ProcessCountSource → VecPtr ProcessStats → World → VecPtr ProcessStats × World
  choose_processes last_process_count null w = read_processes null w
  choose_processes last_process_count slot w = (slot, w)
  choose_processes entire_process_count slot w = read_processes slot w

  unfoldable pub count_of_run :
      ProcessCountSource
      → VecPtr ProcessStats
      → VecPtr ProcessCount × World
      → VecPtr ProcessCount × ProcessSlots × World
  count_of_run pcs stat (null, w) = (
    null,
    record { stat = stat; count = null },
    (sg_set_error_fmt error_malloc (some (codes "sg_get_process_count_of")) w).1,
  )
  count_of_run pcs stat (dangling, w) = (null, record { stat = stat; count = dangling }, faulted w)
  count_of_run pcs stat (live v, w) = count_chosen v (choose_processes pcs stat w)

  -- `sg_get_process_count_of`
  unfoldable pub sg_get_process_count_of :
      ProcessCountSource → ProcessSlots → World → VecPtr ProcessCount × ProcessSlots × World
  sg_get_process_count_of pcs slots w =
      count_of_run pcs slots.stat (or_create count_info 1 1 0 slots.count w)

-- `(a == b) ? 0 : (a < b) ? -1 : 1`
abbrev pub three_way : ℕ → ℕ → Ordering
three_way a b = if a == b then Ordering.eq else if ltb a b then Ordering.lt else Ordering.gt

-- A word of `w` bits as a signed number, moved up so that its order is that of the naturals.
abbrev pub signed_rank : ℕ → ℕ → ℕ
signed_rank w a = (a + 2 ^ (w - 1)) % 2 ^ w

abbrev pub sg_process_compare_name : ProcessStats → ProcessStats → Ordering
sg_process_compare_name a b = strcmp_ptr a.process_name b.process_name

abbrev pub sg_process_compare_pid : ProcessStats → ProcessStats → Ordering
sg_process_compare_pid a b = three_way (signed_rank 32 a.pid) (signed_rank 32 b.pid)

abbrev pub sg_process_compare_uid : ProcessStats → ProcessStats → Ordering
sg_process_compare_uid a b = three_way a.uid b.uid

abbrev pub sg_process_compare_gid : ProcessStats → ProcessStats → Ordering
sg_process_compare_gid a b = three_way a.gid b.gid

abbrev pub sg_process_compare_size : ProcessStats → ProcessStats → Ordering
sg_process_compare_size a b = three_way a.proc_size b.proc_size

abbrev pub sg_process_compare_res : ProcessStats → ProcessStats → Ordering
sg_process_compare_res a b = three_way a.proc_resident b.proc_resident

abbrev pub sg_process_compare_time : ProcessStats → ProcessStats → Ordering
sg_process_compare_time a b = three_way (signed_rank 64 a.time_spent) (signed_rank 64 b.time_spent)
