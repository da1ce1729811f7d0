-- ===== src/Users/Items.antt =====
-- The items that the loops of `sg_get_user_stats_int` make of records.
use libstatgrab.Base.{
  ◌≡◌, ℕ, refl, arith, List, Option, none, some, inl, inr, Bool-cases, take, ◌==◌, if◌then◌else◌,
}
use libstatgrab.Error.{World}
use libstatgrab.Error.Codes.{SgError}
use libstatgrab.Tools.Chains.{Ends, and_then-Ends}
use libstatgrab.Tools.Strings.Updates.{lupdate_string_lem, update_mem_lem}
use libstatgrab.Vector.Append.Growth.{Makes, all_made}
use libstatgrab.Users.{
  UserStats, Utmpx, user_stats_info, user_process, id_bytes, utmpx_fill, utmp_fill, of_process,
  sg_user_stats_item_init,
}

-- The user that a record tells of.
abbrev pub user_of : ℕ → Utmpx → UserStats
user_of now u = record {
  login_name = some (take 32 u.ut_user);
  record_id = some (id_bytes u.ut_id);
  record_id_size = 4;
  device = some (take 32 u.ut_line);
  hostname = some (take 256 u.ut_host);
  pid = u.ut_pid;
  login_time = u.tv_sec;
  systime = now;
}

abbrev pub user_made : ℕ → Utmpx → Option UserStats
user_made now u = if u.ut_type == 7 then some (user_of now u) else none

-- The users of the records of user processes.
abbrev pub users_of : ℕ → List Utmpx → List UserStats
users_of now us = all_made (user_made now) us

pub utmpx_fill-Ends :
    (now : ℕ) (u : Utmpx) (d : UserStats) (w : World)
    → Ends (user_of now u) w (utmpx_fill now u d w)
unfolding utmpx_fill
utmpx_fill-Ends now u d w =
    and_then-Ends (user_of now u) _ d.login_name (some (take 32 u.ut_user)) w _ _
      (lupdate_string_lem d.login_name u.ut_user 32 w)
      (λ w1.
        and_then-Ends (user_of now u) _ d.hostname (some (take 256 u.ut_host)) w1 _ _
          (lupdate_string_lem d.hostname u.ut_host 256 w1)
          (λ w2.
            and_then-Ends (user_of now u) _ d.device (some (take 32 u.ut_line)) w2 _ _
              (lupdate_string_lem d.device u.ut_line 32 w2)
              (λ w3.
                and_then-Ends (user_of now u) _ d.record_id (some (id_bytes u.ut_id)) w3 _ _
                  (update_mem_lem d.record_id (id_bytes u.ut_id) 4 w3 (omega arith) (omega arith))
                  (λ w4. (refl, inl (refl, refl))))))

pub utmp_fill-Ends :
    (now : ℕ) (u : Utmpx) (d : UserStats) (w : World) → Ends (user_of now u) w (utmp_fill now u d w)
unfolding utmp_fill
utmp_fill-Ends now u d w =
    and_then-Ends (user_of now u) _ d.device (some (take 32 u.ut_line)) w _ _
      (lupdate_string_lem d.device u.ut_line 32 w)
      (λ w1.
        and_then-Ends (user_of now u) _ d.login_name (some (take 32 u.ut_user)) w1 _ _
          (lupdate_string_lem d.login_name u.ut_user 32 w1)
          (λ w2.
            and_then-Ends (user_of now u) _ d.hostname (some (take 256 u.ut_host)) w2 _ _
              (lupdate_string_lem d.hostname u.ut_host 256 w2)
              (λ w3.
                and_then-Ends (user_of now u) _ d.record_id (some (id_bytes u.ut_id)) w3 _ _
                  (update_mem_lem d.record_id (id_bytes u.ut_id) 4 w3 (omega arith) (omega arith))
                  (λ w4. (refl, inl (refl, refl))))))

-- A filling that ends well, for the records of user processes.
pub process-Makes :
    (fill : Utmpx → UserStats → World → SgError × UserStats × World) (now : ℕ) (u : Utmpx)
    → ((d : UserStats) (w : World) → Ends (user_of now u) w (fill u d w))
    → Makes user_stats_info sg_user_stats_item_init refl
        (of_process fill)
        (λ a b. a ≡ b)
        (user_made now)
        u
process-Makes fill now u ends = elim (Bool-cases (u.ut_type == user_process)) [
  | inl e ↦
      rw e (inr (fill u, user_of now u, refl, refl, λ x w. ends (sg_user_stats_item_init x) w))
  | inr e ↦ rw e (inl (refl, refl))
]
