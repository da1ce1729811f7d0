-- ===== src/Users.antt =====
-- src/libstatgrab/user_stats.c for Linux: the users that utmpx, or else utmp, has on record.
pub mod Items
pub mod Listed
mod Tests
use libstatgrab.Base.{ℕ, Bool, true, false, List, [], ◌∷◌, Option, none, some, ◌==◌, if◌then◌else◌}
use libstatgrab.Base.Bytes.{Bytes, codes}
use libstatgrab.Error.{World, no_error, sg_get_error}
use libstatgrab.Error.Codes.{SgError, error_none}
use libstatgrab.Tools.Chains.{and_then}
use libstatgrab.Tools.Strings.{sg_lupdate_string, sg_update_mem}
use libstatgrab.Vector.{SgVector, VectorInfo, VecPtr, null, live, dangling}
use libstatgrab.Vector.Append.{Appended, append_loop}
use libstatgrab.Globals.{Globals, sg_lock_mutex, sg_unlock_mutex}

-- `sg_user_stats`
pub record UserStats : Type 0 where
  pub login_name : Option Bytes
  pub record_id : Option Bytes
  pub record_id_size : ℕ
  pub device : Option Bytes
  pub hostname : Option Bytes
  pub pid : ℕ
  pub login_time : ℕ
  pub systime : ℕ

-- It leaves out `pid`.
abbrev pub sg_user_stats_item_init : UserStats → UserStats
sg_user_stats_item_init d = record d {
  login_name = none;
  record_id = none;
  record_id_size = 0;
  device = none;
  hostname = none;
  login_time = 0;
  systime = 0;
}

-- The freed strings; the pointers are not used again.
abbrev pub sg_user_stats_item_destroy : UserStats → UserStats
sg_user_stats_item_destroy d = record d {
  login_name = none;
  record_id = none;
  device = none;
  hostname = none;
}

abbrev pub fresh_user : UserStats
fresh_user = record {
  login_name = none;
  record_id = none;
  record_id_size = 0;
  device = none;
  hostname = none;
  pid = 0;
  login_time = 0;
  systime = 0;
}

-- `VECTOR_INIT_INFO(sg_user_stats)`
abbrev pub user_stats_info : VectorInfo UserStats
user_stats_info = record {
  item_size = 64;
  init_fn = some sg_user_stats_item_init;
  copy_fn = none;
  compute_diff_fn = none;
  compare_fn = none;
  destroy_fn = some sg_user_stats_item_destroy;
  raw = fresh_user;
}

-- `struct utmpx` and `struct utmp` of glibc, which are the same. A text is what its array holds up to
-- a NUL or to its end: 32 bytes for the user and the line, 256 for the host. The id has 4 bytes.
pub record Utmpx : Type 0 where
  pub ut_type : ℕ
  pub ut_user : Bytes
  pub ut_host : Bytes
  pub ut_line : Bytes
  pub ut_id : ℕ × ℕ × ℕ × ℕ
  pub ut_pid : ℕ
  pub tv_sec : ℕ

abbrev pub user_process : ℕ
user_process = 7

abbrev pub id_bytes : ℕ × ℕ × ℕ × ℕ → Bytes
id_bytes (a, b, c, d) = a ∷ b ∷ c ∷ d ∷ []

-- The four updates, each on the item as it is. SG_LUPDATE_IF takes arrays with their size.
abbrev pub set_login_name : Utmpx → UserStats → World → SgError × Option Bytes × World
set_login_name u d w = sg_lupdate_string d.login_name (some u.ut_user) 32 w

abbrev pub set_hostname : Utmpx → UserStats → World → SgError × Option Bytes × World
set_hostname u d w = sg_lupdate_string d.hostname (some u.ut_host) 256 w

abbrev pub set_device : Utmpx → UserStats → World → SgError × Option Bytes × World
set_device u d w = sg_lupdate_string d.device (some u.ut_line) 32 w

abbrev pub set_record_id : Utmpx → UserStats → World → SgError × Option Bytes × World
set_record_id u d w = sg_update_mem d.record_id (some (id_bytes u.ut_id)) 4 w

-- The numbers, once the strings are there.
abbrev pub user_numbers : ℕ → Utmpx → UserStats → World → SgError × UserStats × World
user_numbers now u d w = (
  error_none,
  record d { record_id_size = 4; pid = u.ut_pid; login_time = u.tv_sec; systime = now },
  w,
)

-- The item of a record of utmpx.
unfoldable pub utmpx_fill : ℕ → Utmpx → UserStats → World → SgError × UserStats × World
utmpx_fill now u d w =
    and_then (λ s. record d { login_name = s }) (set_login_name u d w)
      (λ d1 w1.
        and_then (λ s. record d1 { hostname = s }) (set_hostname u d1 w1)
          (λ d2 w2.
            and_then (λ s. record d2 { device = s }) (set_device u d2 w2)
              (λ d3 w3.
                and_then (λ s. record d3 { record_id = s }) (set_record_id u d3 w3)
                  (user_numbers now u))))

-- The item of a record of utmp: the same in another order.
unfoldable pub utmp_fill : ℕ → Utmpx → UserStats → World → SgError × UserStats × World
utmp_fill now u d w =
    and_then (λ s. record d { device = s }) (set_device u d w)
      (λ d1 w1.
        and_then (λ s. record d1 { login_name = s }) (set_login_name u d1 w1)
          (λ d2 w2.
            and_then (λ s. record d2 { hostname = s }) (set_hostname u d2 w2)
              (λ d3 w3.
                and_then (λ s. record d3 { record_id = s }) (set_record_id u d3 w3)
                  (user_numbers now u))))

-- Other records than those of user processes are skipped.
abbrev pub of_process :
    (Utmpx → UserStats → World → SgError × UserStats × World)
    → Utmpx
    → Option (UserStats → World → SgError × UserStats × World)
of_process fill u = if u.ut_type == user_process then some (fill u) else none

-- What the reader holds: the mutex "utmp", and the database that `setutxent` or `setutent` opened.
pub record Held : Type 0 where
  pub mutex : Bool
  pub database : Bool

abbrev pub nothing_held : Held
nothing_held = record { mutex = false; database = false }

-- `setutxent` and `setutent`, and `endutxent` and `endutent`.
abbrev pub open_database : Held → Held
open_database h = record h { database = true }

abbrev pub close_database : Held → Held
close_database h = record h { database = false }

-- A mutex as the components see it, and what the thread library answers, with the message for a
-- failure.
pub record Mutex : Type 0 where
  pub globals : Globals
  pub lock_rc : ℕ
  pub lock_text : Bytes
  pub unlock_rc : ℕ
  pub unlock_text : Bytes

abbrev pub utmp_mutex_name : Bytes
utmp_mutex_name = codes "utmp"

-- The calls for the mutex. Their results are not looked at, but decide whether it is held.
unfoldable pub lock_utmp : Mutex → Held → World → Held × World
lock_utmp m h w =
    let (rc, w') = sg_lock_mutex m.globals utmp_mutex_name m.lock_rc m.lock_text w in
    (if no_error rc then record h { mutex = true } else h, w')

unfoldable pub unlock_utmp : Mutex → Held → World → Held × World
unlock_utmp m h w =
    let (rc, w') = sg_unlock_mutex m.globals utmp_mutex_name m.unlock_rc m.unlock_text w in
    (if no_error rc then record h { mutex = false } else h, w')

-- The return from a loop that stopped. The clean-up and the return are reached where the item was
-- there, but could not be filled in.
unfoldable pub users_stop :
    Mutex → Held → Appended UserStats → SgError × VecPtr UserStats × Held × World
users_stop m h a = elim a.vector [
  | null ↦ (a.rc, null, h, a.world)
  | dangling ↦ (a.rc, dangling, h, a.world)
  | live v ↦
      let (h', w') = unlock_utmp m (close_database h) a.world in (sg_get_error w', live v, h', w')
]

-- From the end of the database to the return, without an error.
unfoldable pub users_end :
    Mutex → Held → Appended UserStats → SgError × VecPtr UserStats × Held × World
users_end m h a =
    if no_error a.rc
    then (let (h', w') = unlock_utmp m (close_database h) a.world in (error_none, a.vector, h', w'))
    else users_stop m h a

-- After the loop over utmpx: the loop over utmp, if there was no user.
unfoldable pub users_fallback :
    ℕ → List Utmpx → Mutex → Held → Appended UserStats → SgError × VecPtr UserStats × Held × World
users_fallback now ut m h a =
    if no_error a.rc
    then if a.count == 0
      then users_end m (open_database (close_database h))
          (append_loop user_stats_info (of_process (utmp_fill now)) ut a.count a.vector a.world)
      else users_end m h a
    else users_stop m h a

-- `sg_get_user_stats_int`, where `getutxent` and `getutent` return the records of `utx` and `ut`, and
-- `time` returns `now`. The vector comes from MULTI_COMP_ACCESS.
unfoldable pub sg_get_user_stats_int :
    ℕ
    → List Utmpx
    → List Utmpx
    → Mutex
    → SgVector UserStats
    → World
    → SgError × VecPtr UserStats × Held × World
sg_get_user_stats_int now utx ut m v w =
    let (h, w1) = lock_utmp m nothing_held w in
    users_fallback now ut m (open_database h)
      (append_loop user_stats_info (of_process (utmpx_fill now)) utx 0 (live v) w1)
