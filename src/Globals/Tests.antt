-- ===== src/Globals/Tests.antt =====
-- The start of two components that require one lock between them.
use libstatgrab.Base.{ℕ, ◌+◌, ◌≤◌, ◌≡◌, refl, arith, List, [], ◌∷◌, none, some, true, false, length}
use libstatgrab.Base.Bytes.{Bytes, codes, strcmp}
use libstatgrab.Error.{calm, malloc}
use libstatgrab.Error.Codes.{error_none}
use libstatgrab.Globals.{
  CompInit, Globals, layout, count_new, add_locks, sg_comp_init, sg_comp_destroy, sg_lock_mutex,
  sg_unlock_mutex, first_init, init_comps, init_comp, init_done, after_init_fn, require_locks,
}
use libstatgrab.Globals.Locks.{Ascending, AllFound, Keeps, add_locks_lem}
use libstatgrab.Globals.Storage.{layout_disjoint}
use libstatgrab.Globals.Startup.{Initialised, comp_init_lem, nested_lem, lock_required}
use libstatgrab.Tools.Alloc.{sg_realloc}

abbrev comp : ℕ → List Bytes → CompInit
comp size names = record {
  init_fn = some (λ w. (error_none, w));
  destroy_fn = none;
  static_buf_size = size;
  required_locks = names;
  has_status = true;
}

abbrev comps : List CompInit
comps = comp 4104 [] ∷ comp 24 (codes "network" ∷ []) ∷ []

abbrev idle : Globals
idle = record { initialized = 0; glob_size = 0; glob_ofs = []; required_locks = []; held = false }

abbrev started : Globals
started = record {
  initialized = 1;
  glob_size = 0;
  glob_ofs = [];
  required_locks = [];
  held = false;
}

comp_init_lem_example : Initialised comps (sg_comp_init comps false idle calm)
comp_init_lem_example = comp_init_lem comps false idle calm refl

nested_lem_example :
    let (rc, g1, w1) = sg_comp_init comps false started calm in
    (rc ≡ error_none) × (w1 ≡ calm) × (sg_comp_destroy comps g1 w1 ≡ (error_none, started, calm))
nested_lem_example = nested_lem comps false started calm (λ e. absurd (omega arith)) refl

add_locks_lem_example :
    let names = codes "os" ∷ codes "network" ∷ [] in
    let locks = codes "statgrab" ∷ [] in
    Ascending (add_locks names locks)
    × Keeps locks (add_locks names locks)
    × AllFound names (add_locks names locks)
    × (length (add_locks names locks) ≤ 1 + count_new names locks)
add_locks_lem_example =
    add_locks_lem (codes "os" ∷ codes "network" ∷ []) (codes "statgrab" ∷ []) (tt, tt)

layout_disjoint_example : (0 + 4104 ≤ 4104) × (4104 + 24 ≤ (layout comps 0).1)
unfolding layout
layout_disjoint_example =
    layout_disjoint comps 0 0 1 0 4104 (comp 4104 []) (comp 24 (codes "network" ∷ [])) (omega arith)
      refl refl refl refl

lock_required_example :
    let g1 = (sg_comp_init comps false idle calm).1 in
    (sg_lock_mutex g1 (codes "network") 0 [] calm ≡ (error_none, calm))
    × (sg_unlock_mutex g1 (codes "network") 0 [] calm ≡ (error_none, calm))
unfolding sg_comp_init first_init init_comps init_comp init_done after_init_fn require_locks
    sg_realloc malloc layout count_new strcmp
lock_required_example =
    lock_required comps false idle calm calm 1 0 (comp 24 (codes "network" ∷ [])) (codes "network")
      [] refl refl refl refl
