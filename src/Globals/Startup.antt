-- ===== src/Globals/Startup.antt =====
-- `sg_comp_init`: after it every lock that a component requires can be locked; and what an error leaves.
use mathlib.Core.Path.{ap₂}
use libstatgrab.Base.{
  ℕ, zero, suc, ◌+◌, ◌-◌, ◌*◌, ◌≡◌, ◌≢◌, refl, ap, subst, sym, arith, List, [], ◌∷◌, Bool, true,
  false, some, ◌⊎◌, inl, inr, Bool-cases, Option-cases, length, get_elem?, ◌==◌, ==_iff, ◌&&◌,
}
use libstatgrab.Base.Bytes.{Bytes, strcmp}
use libstatgrab.Error.{World, no_error}
use libstatgrab.Error.Codes.{SgError, error_none, error_initialisation}
use libstatgrab.Tools.Alloc.{sg_realloc}
use libstatgrab.Globals.{
  CompInit, Globals, glob_lock_name, find_lock, count_new, Step, go, stop, require_locks,
  after_init_fn, init_comp, init_comps, init_done, first_init, sg_comp_init, sg_comp_destroy,
  sg_lock_mutex, sg_unlock_mutex, named_mutex_size,
}
use libstatgrab.Globals.Locks.{
  Ascending, AllFound, Keeps, add_locks_lem, count_zero, AllFound-Keeps,
}

abbrev pub AllRequired : List CompInit → List Bytes → Type 0
AllRequired [] locks = Unit
AllRequired (c ∷ comps) locks = AllFound c.required_locks locks × AllRequired comps locks

-- A step that goes on leaves a sorted table with all that was there and all names required; one that
-- stops has an error.
abbrev Sound : List Bytes → List Bytes → Step → Type 0
Sound names locks (go errc locks' w) = Ascending locks' × Keeps locks locks' × AllFound names locks'
Sound names locks (stop rc locks' w) = no_error rc ≡ false

require_locks-Sound :
    (names : List Bytes) (errc : SgError) (locks : List Bytes) (w : World)
    → Ascending locks
    → Sound names locks (require_locks names errc locks w)
unfolding require_locks
require_locks-Sound names errc locks w asc =
    let (asc', keeps, all, _) = add_locks_lem names locks asc in
    elim (Bool-cases (count_new names locks == 0)) [
      | inl e ↦
          rw e (asc, λ m h. h, count_zero names locks ((==_iff (count_new names locks) 0).0 e))
      | inr e ↦
          elim (Bool-cases
            (sg_realloc (named_mutex_size * (length locks + count_new names locks)) w).0) [
              | inl ok ↦ rw (e, ok) (asc', keeps, all)
              | inr bad ↦ rw (e, bad) refl
            ]
    ]

after_init_fn-Sound :
    (c : CompInit) (b : Bool) (errc : SgError) (locks : List Bytes) (rc : SgError) (w : World)
    → Ascending locks
    → Sound c.required_locks locks (after_init_fn c b errc locks (rc, w))
unfolding after_init_fn
after_init_fn-Sound c b errc locks rc w asc = elim (Bool-cases (no_error rc)) [
  | inl ok ↦ rw ok (require_locks-Sound c.required_locks errc locks w asc)
  | inr bad ↦ elim (Bool-cases (b && c.has_status)) [
    | inl e ↦ rw (bad, e) (require_locks-Sound c.required_locks error_initialisation locks w asc)
    | inr e ↦ rw (bad, e) bad
  ]
]

init_comp-Sound :
    (c : CompInit) (b : Bool) (errc : SgError) (locks : List Bytes) (w : World)
    → Ascending locks
    → Sound c.required_locks locks (init_comp c b errc locks w)
unfolding init_comp
init_comp-Sound c b errc locks w asc = elim (Option-cases c.init_fn) [
  | inl e ↦ rw (e, init_comp) (require_locks-Sound c.required_locks errc locks w asc)
  | inr (f, e) ↦ rw (e, init_comp) (after_init_fn-Sound c b errc locks (f w).0 (f w).1 asc)
]

AllRequired-Keeps :
    (comps : List CompInit) (locks locks' : List Bytes)
    → Keeps locks locks'
    → AllRequired comps locks
    → AllRequired comps locks'
AllRequired-Keeps [] locks locks' keeps all = tt
AllRequired-Keeps (c ∷ comps) locks locks' keeps all = (
  AllFound-Keeps c.required_locks locks locks' keeps all.0,
  AllRequired-Keeps comps locks locks' keeps all.1,
)

abbrev Started : List CompInit → List Bytes → Step → Type 0
Started comps locks (go errc locks' w) =
    Ascending locks' × Keeps locks locks' × AllRequired comps locks'
Started comps locks (stop rc locks' w) = no_error rc ≡ false

go_on :
    (c : CompInit) (comps : List CompInit) (locks locks1 : List Bytes) (s : Step)
    → Keeps locks locks1
    → AllFound c.required_locks locks1
    → Started comps locks1 s
    → Started (c ∷ comps) locks s
go_on c comps locks locks1 (go errc locks' w) keeps found_all (asc, keeps', all) = (
  asc,
  λ m h. keeps' m (keeps m h),
  (AllFound-Keeps c.required_locks locks1 locks' keeps' found_all, all),
)
go_on c comps locks locks1 (stop rc locks' w) keeps found_all bad = bad

init_comps_stop :
    (comps : List CompInit) (b : Bool) (rc : SgError) (locks : List Bytes) (w : World)
    → init_comps comps b (stop rc locks w) ≡ stop rc locks w
unfolding init_comps
init_comps_stop [] b rc locks w = refl
init_comps_stop (c ∷ comps) b rc locks w = refl

continued :
    (c : CompInit) (comps : List CompInit) (b : Bool) (locks : List Bytes) (s : Step)
    → ((errc : SgError) (l : List Bytes) (w : World)
        → Ascending l
        → Started comps l (init_comps comps b (go errc l w)))
    → Sound c.required_locks locks s
    → Started (c ∷ comps) locks (init_comps comps b s)
continued c comps b locks (go errc locks1 w) rest (asc, keeps, all) =
    go_on c comps locks locks1 (init_comps comps b (go errc locks1 w)) keeps all
      (rest errc locks1 w asc)
continued c comps b locks (stop rc locks1 w) rest bad =
    subst (Started (c ∷ comps) locks) (sym (init_comps_stop comps b rc locks1 w)) bad

init_comps-Started :
    (comps : List CompInit) (b : Bool) (errc : SgError) (locks : List Bytes) (w : World)
    → Ascending locks
    → Started comps locks (init_comps comps b (go errc locks w))
unfolding init_comps
init_comps-Started [] b errc locks w asc = (asc, λ m h. h, tt)
init_comps-Started (c ∷ comps) b errc locks w asc =
    continued c comps b locks (init_comp c b errc locks w)
      (λ e l u a. init_comps-Started comps b e l u a) (init_comp-Sound c b errc locks w asc)

-- The outcome of the first initialisation.
abbrev pub Initialised : List CompInit → SgError × Globals × World → Type 0
Initialised comps out =
    (out.1.initialized ≡ 1)
    × (((out.1.held ≡ true) × (no_error out.0 ≡ false))
        ⊎ ((out.1.held ≡ false)
            × Ascending out.1.required_locks
            × (find_lock glob_lock_name out.1.required_locks ≡ true)
            × AllRequired comps out.1.required_locks))

init_done_lem :
    (comps : List CompInit) (g : Globals) (s : Step)
    → g.initialized ≡ 1
    → g.held ≡ true
    → Started comps (glob_lock_name ∷ []) s
    → Initialised comps (init_done g s)
unfolding init_done strcmp
init_done_lem comps g (go errc locks w) one held (asc, keeps, all) =
    (one, inr (refl, asc, keeps glob_lock_name refl, all))
init_done_lem comps g (stop rc locks w) one held bad = (one, inl (held, bad))

-- The first `sg_comp_init`. Either it returns an error and the global lock stays locked, or it gives
-- that lock back, and then the table of locks is sorted without doubles and has the library's lock
-- and every lock that a component requires.
pub comp_init_lem :
    (comps : List CompInit) (ignore_init_errors : Bool) (g : Globals) (w : World)
    → g.initialized ≡ 0
    → Initialised comps (sg_comp_init comps ignore_init_errors g w)
unfolding sg_comp_init first_init
comp_init_lem comps b g w first =
    let zero_yes : (g.initialized == 0) ≡ true = ground arith in
    let one : suc g.initialized ≡ 1 = ap suc first in
    elim (Bool-cases (sg_realloc named_mutex_size w).0) [
      | inl ok ↦
          rw (zero_yes, ok)
            (init_done_lem comps _ _ one refl (
              init_comps-Started comps b error_none (glob_lock_name ∷ [])
                (sg_realloc named_mutex_size w).1 (tt, tt)))
      | inr bad ↦ rw (zero_yes, bad) (one, inl (refl, refl))
    ]

-- `sg_comp_init` while the components are initialised, followed by `sg_comp_destroy`, changes
-- nothing: both return no error, and no component is initialised or destroyed.
pub nested_lem :
    (comps : List CompInit) (ignore_init_errors : Bool) (g : Globals) (w : World)
    → g.initialized ≢ 0
    → g.held ≡ false
    → let (rc, g1, w1) = sg_comp_init comps ignore_init_errors g w in
      (rc ≡ error_none) × (w1 ≡ w) × (sg_comp_destroy comps g1 w1 ≡ (error_none, g, w))
unfolding sg_comp_init sg_comp_destroy
nested_lem comps b g w some_inits free_lock =
    let e1 : (g.initialized == 0) ≡ false = ground arith in
    let e2 : (suc g.initialized - 1 == 0) ≡ false = ground arith in
    let e3 : suc g.initialized - 1 ≡ g.initialized = omega arith in
    rw e1 (
      refl,
      refl,
      rw e2 (
          ap (λ (p : ℕ × Bool). (error_none, record g { initialized = p.0; held = p.1 }, w))
            (ap₂ (λ a c. (a, c)) e3 (sym free_lock))),
    )

AllFound-lookup :
    (names : List Bytes) (locks : List Bytes) (k : ℕ) (name : Bytes)
    → AllFound names locks
    → get_elem? names k ≡ some name
    → find_lock name locks ≡ true
AllFound-lookup [] locks k name all h = cc
AllFound-lookup (n ∷ names) locks zero name all h =
    let e : n ≡ name = ground arith in subst (λ m. find_lock m locks ≡ true) e all.0
AllFound-lookup (n ∷ names) locks (suc k) name all h = AllFound-lookup names locks k name all.1 h

AllRequired-lookup :
    (comps : List CompInit) (locks : List Bytes) (i : ℕ) (c : CompInit)
    → AllRequired comps locks
    → get_elem? comps i ≡ some c
    → AllFound c.required_locks locks
AllRequired-lookup [] locks i c all h = cc
AllRequired-lookup (d ∷ comps) locks zero c all h =
    let e : d ≡ c = ground arith in
    subst (λ (m : CompInit). AllFound m.required_locks locks) e all.0
AllRequired-lookup (d ∷ comps) locks (suc i) c all h = AllRequired-lookup comps locks i c all.1 h

-- Once the first `sg_comp_init` has given the global lock back, `sg_lock_mutex` and
-- `sg_unlock_mutex` succeed for every lock that a component requires and touch nothing, where the
-- thread library does its part.
pub lock_required :
    (comps : List CompInit) (ignore_init_errors : Bool) (g : Globals) (w u : World) (i k : ℕ)
    (c : CompInit) (name text : Bytes)
    → g.initialized ≡ 0
    → get_elem? comps i ≡ some c
    → get_elem? c.required_locks k ≡ some name
    → (sg_comp_init comps ignore_init_errors g w).1.held ≡ false
    → let g1 = (sg_comp_init comps ignore_init_errors g w).1 in
      (sg_lock_mutex g1 name 0 text u ≡ (error_none, u))
      × (sg_unlock_mutex g1 name 0 text u ≡ (error_none, u))
unfolding sg_lock_mutex sg_unlock_mutex
lock_required comps b g w u i k c name text first hc hn given_back =
    let (_, outcome) = comp_init_lem comps b g w first in
    elim outcome [
      | inl (kept, _) ↦ absurd (ground arith)
      | inr (_, _, _, all) ↦
          rw
            (AllFound-lookup c.required_locks (sg_comp_init comps b g w).1.required_locks k name
              (AllRequired-lookup comps (sg_comp_init comps b g w).1.required_locks i c all hc) hn)
            (refl, refl)
    ]
