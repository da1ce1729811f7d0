-- ===== src/Globals.antt =====
-- src/libstatgrab/globals.c: the components, their parts of a thread's storage, and the table of
-- named locks, in the build with POSIX threads. `bsearch` on a sorted table finds the name if it is
-- there; `qsort` of a sorted table with one more name puts that in its place.
pub mod Storage
pub mod Locks
pub mod Mutexes
pub mod Startup
mod Tests
use libstatgrab.Base.{
  ℕ, zero, suc, ◌+◌, ◌-◌, ◌*◌, Bool, true, false, List, [], ◌∷◌, Option, none, some, Ordering,
  length, ◌==◌, if◌then◌else◌, ◌&&◌,
}
use libstatgrab.Base.Word.{add64, sub64}
use libstatgrab.Base.Bytes.{Bytes, codes, strcmp}
use libstatgrab.Error.{World, no_error, sg_set_error_fmt, sg_set_error_with_errno_code_fmt}
use libstatgrab.Error.Codes.{
  SgError, error_none, error_invalid_argument, error_malloc, error_initialisation, error_mutex_lock,
}
use libstatgrab.Tools.Alloc.{sg_realloc}

-- `sg_comp_init`: `none` stands for a NULL function; `has_status` tells of a `status`, to which the
-- error of `init_fn` is written where it is ignored; nothing here reads it.
pub record CompInit : Type 0 where
  pub init_fn : Option (World → SgError × World)
  pub destroy_fn : Option (World → World)
  pub static_buf_size : ℕ
  pub required_locks : List Bytes
  pub has_status : Bool

-- The static state of the file. `held` tells whether the global lock is held by the caller.
pub record Globals : Type 0 where
  pub initialized : ℕ
  pub glob_size : ℕ
  pub glob_ofs : List ℕ
  pub required_locks : List Bytes
  pub held : Bool

abbrev pub glob_lock_name : Bytes
glob_lock_name = codes "statgrab"

-- The loop that lays out the storage, from offset `size` on.
unfoldable pub layout : List CompInit → ℕ → List ℕ × ℕ
layout [] size = ([], size)
layout (c ∷ comps) size =
    let (rest, total) = layout comps (size + c.static_buf_size) in (size ∷ rest, total)

-- `bsearch( &name, required_locks, … )`; `found` is one comparison.
abbrev pub found : Ordering → Bool → Bool
found Ordering.eq rest = true
found _ rest = rest

abbrev pub find_lock : Bytes → List Bytes → Bool
find_lock name [] = false
find_lock name (l ∷ locks) = found (strcmp name l) (find_lock name locks)

-- The new name at the end of the table, and `qsort`; `place` is one comparison.
abbrev pub place : Ordering → Bytes → Bytes → List Bytes → List Bytes → List Bytes
place Ordering.lt name l locks rest = name ∷ l ∷ locks
place _ name l locks rest = l ∷ rest

abbrev pub insert_lock : Bytes → List Bytes → List Bytes
insert_lock name [] = name ∷ []
insert_lock name (l ∷ locks) = place (strcmp name l) name l locks (insert_lock name locks)

-- How many of the names that a component requires are not in the table.
unfoldable pub count_new : List Bytes → List Bytes → ℕ
count_new [] locks = 0
count_new (n ∷ names) locks =
    if find_lock n locks then count_new names locks else suc (count_new names locks)

-- The loop that adds them.
unfoldable pub add_locks : List Bytes → List Bytes → List Bytes
add_locks [] locks = locks
add_locks (n ∷ names) locks =
    add_locks names (if find_lock n locks then locks else insert_lock n locks)

-- What one component makes of the initialisation: it goes on with the result so far and the table,
-- or the function returns.
pub data Step : Type 0 where
  go : SgError → List Bytes → World → Step
  stop : SgError → List Bytes → World → Step

-- `sizeof(struct sg_named_mutex)`: a name and a mutex of 40 bytes.
abbrev pub named_mutex_size : ℕ
named_mutex_size = 48

unfoldable pub require_locks : List Bytes → SgError → List Bytes → World → Step
require_locks names errc locks w =
    let count = count_new names locks in
    let (ok, w') = sg_realloc (named_mutex_size * (length locks + count)) w in
    if count == 0
    then go errc locks w
    else if ok
    then go errc (add_locks names locks) w'
    else stop error_malloc locks (sg_set_error_fmt error_malloc (some (codes "sg_comp_init")) w').1

unfoldable pub after_init_fn : CompInit → Bool → SgError → List Bytes → SgError × World → Step
after_init_fn c ignore_init_errors errc locks (comp_errc, w) =
    if no_error comp_errc
    then require_locks c.required_locks errc locks w
    else if ignore_init_errors && c.has_status
    then require_locks c.required_locks error_initialisation locks w
    else stop comp_errc locks w

unfoldable pub init_comp : CompInit → Bool → SgError → List Bytes → World → Step
init_comp c ignore_init_errors errc locks w = elim c.init_fn [
  | none ↦ require_locks c.required_locks errc locks w
  | some f ↦ after_init_fn c ignore_init_errors errc locks (f w)
]

-- The loop over the components.
unfoldable pub init_comps : List CompInit → Bool → Step → Step
init_comps [] ignore_init_errors s = s
init_comps (c ∷ comps) ignore_init_errors (go errc locks w) =
    init_comps comps ignore_init_errors (init_comp c ignore_init_errors errc locks w)
init_comps (c ∷ comps) ignore_init_errors (stop rc locks w) = stop rc locks w

-- The end of `sg_comp_init`. Only the regular end gives the global lock back.
unfoldable pub init_done : Globals → Step → SgError × Globals × World
init_done g (go errc locks w) = (errc, record g { required_locks = locks; held = false }, w)
init_done g (stop rc locks w) = (rc, record g { required_locks = locks }, w)

unfoldable pub first_init : List CompInit → Bool → Globals → World → SgError × Globals × World
first_init comps ignore_init_errors g w =
    let (ofs, size) = layout comps 0 in
    let g1 = record g { glob_ofs = ofs; glob_size = size } in
    let (ok, w1) = sg_realloc named_mutex_size w in
    if ok
    then init_done g1 (init_comps comps ignore_init_errors (go error_none (glob_lock_name ∷ []) w1))
    else (
      error_malloc,
      record g1 { required_locks = [] },
      (sg_set_error_fmt error_malloc (some (codes "sg_comp_init")) w1).1,
    )

-- `sg_comp_init`, where the calls that lock and unlock the global lock and those that set the mutexes
-- up succeed.
unfoldable pub sg_comp_init : List CompInit → Bool → Globals → World → SgError × Globals × World
sg_comp_init comps ignore_init_errors g w =
    let g1 = record g { initialized = suc g.initialized; held = true } in
    if g.initialized == 0
    then first_init comps ignore_init_errors g1 w
    else (error_none, record g1 { held = false }, w)

-- `while(i--)`: the components are destroyed from the last to the first.
unfoldable pub destroy_comps : List CompInit → World → World
destroy_comps [] w = w
destroy_comps (c ∷ comps) w = elim c.destroy_fn [
  | none ↦ destroy_comps comps w
  | some f ↦ f (destroy_comps comps w)
]

-- `sg_comp_destroy`, after an initialisation.
unfoldable pub sg_comp_destroy : List CompInit → Globals → World → SgError × Globals × World
sg_comp_destroy comps g w =
    if g.initialized - 1 == 0
    then (
      error_none,
      record g { initialized = 0; glob_size = 0; required_locks = []; held = false },
      destroy_comps comps w,
    )
    else (error_none, record g { initialized = g.initialized - 1; held = false }, w)

-- `sg_lock_mutex`, where `pthread_mutex_lock` returns `rc`. `text` is the message for a failure, with
-- the number of the thread.
unfoldable pub sg_lock_mutex : Globals → Bytes → ℕ → Bytes → World → SgError × World
sg_lock_mutex g name rc text w =
    if find_lock name g.required_locks
    then if rc == 0
      then (error_none, w)
      else sg_set_error_with_errno_code_fmt error_mutex_lock rc (some text) w
    else sg_set_error_fmt error_invalid_argument (some name) w

-- `sg_unlock_mutex`, where `pthread_mutex_unlock` returns `rc`. It reports a failure like `sg_lock_mutex`.
unfoldable pub sg_unlock_mutex : Globals → Bytes → ℕ → Bytes → World → SgError × World
sg_unlock_mutex g name rc text w =
    if find_lock name g.required_locks
    then if rc == 0
      then (error_none, w)
      else sg_set_error_with_errno_code_fmt error_mutex_lock rc (some text) w
    else sg_set_error_fmt error_invalid_argument (some name) w

-- `sg_global_lock` and `sg_global_unlock`, where the call of the thread library returns `rc`.
unfoldable pub sg_global_lock : ℕ → Bytes → World → SgError × World
sg_global_lock rc text w =
    if rc == 0
    then (error_none, w)
    else sg_set_error_with_errno_code_fmt error_mutex_lock rc (some text) w

unfoldable pub sg_global_unlock : ℕ → Bytes → World → SgError × World
sg_global_unlock rc text w =
    if rc == 0
    then (error_none, w)
    else sg_set_error_with_errno_code_fmt error_mutex_lock rc (some text) w
