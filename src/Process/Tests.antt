-- ===== src/Process/Tests.antt =====
-- Counting processes at a concrete input.
use libstatgrab.Base.{◌+◌, ◌≡◌, arith, [], ◌∷◌, none, some, take, get_elem?}
use libstatgrab.Base.Bytes.{codes}
use libstatgrab.Error.{calm}
use libstatgrab.Vector.{SgVector}
use libstatgrab.Vector.Grow.{IsValid}
use libstatgrab.Process.{ProcessState, running, sleeping, ProcessStats, sg_get_process_count_int}
use libstatgrab.Process.Counts.{count_for, number_of, process_count_lem}

abbrev process : ProcessState → ProcessStats
process s = record {
  process_name = some (codes "init");
  proctitle = none;
  pid = 1;
  parent = 0;
  pgid = 1;
  sessid = 1;
  uid = 0;
  euid = 0;
  gid = 0;
  egid = 0;
  context_switches = 0;
  voluntary_context_switches = 0;
  involuntary_context_switches = 0;
  proc_size = 4096;
  proc_resident = 4096;
  start_time = 0;
  time_spent = 1;
  nice = 0;
  state = s;
  systime = 1000;
}

abbrev three : SgVector ProcessStats
three = record {
  used_count = 3;
  alloc_count = 3;
  block_shift = 0;
  info = record {
    item_size = 144;
    init_fn = none;
    copy_fn = none;
    compute_diff_fn = none;
    compare_fn = none;
    destroy_fn = none;
    raw = process sleeping;
  };
  cells = process sleeping ∷ process running ∷ process sleeping ∷ [];
}

three-IsValid : IsValid three
three-IsValid = record { used_in = omega arith; alloc_in = omega arith; sized = omega arith }

process_count_lem_example :
    let (c, w') = sg_get_process_count_int three calm in
    let ps = take 3 three.cells in
    (w' ≡ calm)
    × (c.total ≡ 3)
    × ((s : ProcessState) → count_for s c ≡ number_of s ps)
    × (c.running_count + c.sleeping_count + c.stopped_count + c.zombie_count + c.unknown_count
        ≡ c.total)
    × ((p : ProcessStats) → get_elem? three.cells 0 ≡ some p → c.systime ≡ p.systime)
process_count_lem_example = process_count_lem three calm three-IsValid (omega arith) (omega arith)
