-- ===== src/Users/Tests.antt =====
-- Two records of user processes among three, on an empty vector.
use libstatgrab.Base.{ℕ, refl, arith, false, List, [], ◌∷◌}
use libstatgrab.Base.Bytes.{codes}
use libstatgrab.Error.{calm}
use libstatgrab.Vector.{SgVector}
use libstatgrab.Users.{UserStats, Utmpx, Mutex, user_stats_info, fresh_user, sg_get_user_stats_int}
use libstatgrab.Users.Listed.{UsersRead, listed_users, user_stats_lem}

abbrev record_of : ℕ → ℕ → Utmpx
record_of kind pid = record {
  ut_type = kind;
  ut_user = codes "ann";
  ut_host = codes "here";
  ut_line = codes "tty1";
  ut_id = (1, 2, 3, 4);
  ut_pid = pid;
  tv_sec = 1000;
}

abbrev records : List Utmpx
records = record_of 2 1 ∷ record_of 7 20 ∷ record_of 7 30 ∷ []

abbrev utmp_mutex : Mutex
utmp_mutex = record {
  globals = record {
    initialized = 1;
    glob_size = 0;
    glob_ofs = [];
    required_locks = codes "utmp" ∷ [];
    held = false;
  };
  lock_rc = 0;
  lock_text = [];
  unlock_rc = 0;
  unlock_text = [];
}

abbrev empty : SgVector UserStats
empty = record {
  used_count = 0;
  alloc_count = 2;
  block_shift = 1;
  info = user_stats_info;
  cells = fresh_user ∷ fresh_user ∷ [];
}

user_stats_lem_example :
    UsersRead utmp_mutex
      (listed_users 9 records [])
      calm
      (sg_get_user_stats_int 9 records [] utmp_mutex empty calm)
user_stats_lem_example =
    user_stats_lem 9 records [] utmp_mutex empty calm
      (record { used_in = omega arith; alloc_in = omega arith; sized = omega arith }) refl refl
      (record { count_fits = omega arith; item_sized = omega arith; bytes_fit = omega arith })
      (record { count_fits = omega arith; item_sized = omega arith; bytes_fit = omega arith })
