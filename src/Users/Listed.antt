-- ===== src/Users/Listed.antt =====
-- The users that `sg_get_user_stats_int` lists.
use libstatgrab.Base.{
  ℕ, ◌+◌, ◌≡◌, refl, ap, subst, sym, ◌∙◌, arith, List, [], ◌∷◌, ◌++◌, ◌&&◌, not, true, false, inl,
  inr, Bool-cases, length, length-take, take, ◌==◌, ==_iff,
}
use libstatgrab.Base.Bytes.{codes}
use libstatgrab.Error.{
  World, no_error, sg_get_error, sg_set_error_int, sg_set_error_fmt,
  sg_set_error_with_errno_code_fmt,
}
use libstatgrab.Globals.{find_lock, sg_lock_mutex, sg_unlock_mutex}
use libstatgrab.Globals.Mutexes.{lock_mutex-SetsOnly, unlock_mutex-SetsOnly}
use libstatgrab.Error.Codes.{SgError, error_none, error_malloc}
use libstatgrab.Vector.{SgVector, VecPtr, null, live}
use libstatgrab.Vector.Diff.{items}
use libstatgrab.Vector.Grow.{IsValid}
use libstatgrab.Vector.Append.{Appended, append_loop}
use libstatgrab.Vector.Append.Growth.{
  Room, Extended, all_there, not_filled, append_loop_lem, AllShow-eq,
}
use libstatgrab.Users.Items.{user_made, users_of, utmpx_fill-Ends, utmp_fill-Ends, process-Makes}
use libstatgrab.Users.{
  UserStats, Utmpx, Mutex, Held, nothing_held, open_database, close_database, user_stats_info,
  utmpx_fill, utmp_fill, of_process, utmp_mutex_name, unlock_utmp, lock_utmp, users_stop, users_end,
  users_fallback, sg_get_user_stats_int, sg_user_stats_item_init,
}

abbrev pub or_else_users : List UserStats → List UserStats → List UserStats
or_else_users [] others = others
or_else_users (u ∷ users) others = u ∷ users

-- What is held between lock and unlock: the database, and the mutex where there is a lock of that name and
-- `pthread_mutex_lock` returns 0.
abbrev pub taken : Mutex → Held
taken m = record {
  mutex = find_lock (codes "utmp") m.globals.required_locks && (m.lock_rc == 0);
  database = true;
}

-- What is held in the end: just the mutex, where it was locked and `pthread_mutex_unlock` fails.
abbrev pub kept_back : Mutex → Held
kept_back m = record {
  mutex =
      find_lock (codes "utmp") m.globals.required_locks
      && (m.lock_rc == 0)
      && not (m.unlock_rc == 0);
  database = false;
}

lock_utmp-held : (m : Mutex) (w : World) → open_database (lock_utmp m nothing_held w).0 ≡ taken m
unfolding lock_utmp sg_lock_mutex sg_set_error_fmt sg_set_error_with_errno_code_fmt sg_set_error_int
lock_utmp-held m w = elim (Bool-cases (find_lock utmp_mutex_name m.globals.required_locks)) [
  | inr e ↦ rw e refl
  | inl e ↦ rw e (elim (Bool-cases (m.lock_rc == 0)) [ inl z ↦ rw z refl | inr z ↦ rw z refl ])
]

unlock_utmp-held :
    (m : Mutex) (w : World) → (unlock_utmp m (close_database (taken m)) w).0 ≡ kept_back m
unfolding unlock_utmp sg_unlock_mutex sg_set_error_fmt sg_set_error_with_errno_code_fmt
    sg_set_error_int
unlock_utmp-held m w = elim (Bool-cases (find_lock utmp_mutex_name m.globals.required_locks)) [
  | inr e ↦ rw e refl
  | inl e ↦ rw e (elim (Bool-cases (m.unlock_rc == 0)) [
    | inl z ↦ elim (Bool-cases (m.lock_rc == 0)) [ inl l ↦ rw (z, l) refl | inr l ↦ rw (z, l) refl ]
    | inr z ↦ elim (Bool-cases (m.lock_rc == 0)) [ inl l ↦ rw (z, l) refl | inr l ↦ rw (z, l) refl ]
  ])
]

-- The outcome: all users are listed and what was taken is given back; or a string could not be copied, the error
-- is reported and it is given back; or there was no memory for an item, which is a fault with it taken.
pub data UsersRead (m : Mutex) (users : List UserStats) (w : World)
    (out : SgError × VecPtr UserStats × Held × World) : Type 0 where
  listed :
      (v : SgVector UserStats)
      → out.0 ≡ error_none
      → out.1 ≡ live v
      → IsValid v
      → items v ≡ users
      → out.2 ≡ kept_back m
      → out.3.fault ≡ w.fault
      → UsersRead m users w out
  not_copied :
      (v : SgVector UserStats)
      → no_error out.0 ≡ false
      → sg_get_error out.3 ≡ out.0
      → out.1 ≡ live v
      → IsValid v
      → out.2 ≡ kept_back m
      → out.3.fault ≡ w.fault
      → UsersRead m users w out
  through_null :
      out.0 ≡ error_malloc
      → sg_get_error out.3 ≡ error_malloc
      → out.1 ≡ null
      → out.2 ≡ taken m
      → out.3.fault ≡ true
      → UsersRead m users w out

length-items : (v : SgVector UserStats) → IsValid v → length (items v) ≡ v.used_count
length-items v valid = omega (arith, length-take v.used_count v.cells, valid)

abbrev Fill : Type 0
Fill = Utmpx → UserStats → World → SgError × UserStats × World

-- What one of the loops makes of the records `us`.
abbrev LoopEnds : Fill → ℕ → List Utmpx → SgVector UserStats → World → Appended UserStats → Type 0
LoopEnds fill now us v w a =
    Extended user_stats_info sg_user_stats_item_init refl (of_process fill) (λ a b. a ≡ b)
      (user_made now) us v w a

module _ (m : Mutex) (fill : Fill) (now : ℕ) where
  -- The clean-up of a loop that stopped, with an item that was not filled in.
  stop_lem :
      (users : List UserStats) (w : World) (a : Appended UserStats) (v : SgVector UserStats)
      → no_error a.rc ≡ false
      → sg_get_error a.world ≡ a.rc
      → a.vector ≡ live v
      → IsValid v
      → a.world.fault ≡ w.fault
      → UsersRead m users w (users_stop m (taken m) a)
  unfolding users_stop unlock_utmp
  stop_lem users w a v bad set vec valid fault =
      let (same, unlocked) =
        unlock_mutex-SetsOnly m.globals utmp_mutex_name m.unlock_text m.unlock_rc a.world in
      let reported : no_error (sg_get_error (unlock_utmp m (close_database (taken m)) a.world).1)
          ≡ false =
        elim unlocked [
          | inl e ↦ ap (λ (u : World). no_error (sg_get_error u)) e ∙ ap no_error set ∙ bad
          | inr other ↦ other
        ] in
      rw (vec, users_stop)
        (not_copied v reported refl refl valid (unlock_utmp-held m a.world) (same ∙ fault))

  null_lem :
      (users : List UserStats) (w : World) (a : Appended UserStats)
      → a.rc ≡ error_malloc
      → a.vector ≡ null
      → sg_get_error a.world ≡ error_malloc
      → a.world.fault ≡ true
      → UsersRead m users w (users_stop m (taken m) a)
  unfolding users_stop
  null_lem users w a rc vec set bad = rw (vec, users_stop) (through_null rc set refl refl bad)

  users_end_lem :
      (us : List Utmpx) (v : SgVector UserStats) (w : World) (a : Appended UserStats)
      → items v ≡ []
      → LoopEnds fill now us v w a
      → UsersRead m (users_of now us) w (users_end m (taken m) a)
  unfolding users_end unlock_utmp
  users_end_lem us v w a fresh (all_there v' rc vec valid same shift count new got all fault) =
      let go : no_error a.rc ≡ true = ap no_error rc in
      rw go (
        listed v' refl vec valid
          (got ∙ ap (λ l. l ++ new) fresh ∙ AllShow-eq new (users_of now us) all)
          (unlock_utmp-held m a.world)
          ((unlock_mutex-SetsOnly m.globals utmp_mutex_name m.unlock_text m.unlock_rc a.world).0
            ∙ fault))
  users_end_lem us v w a fresh (not_filled v' bad set vec valid same fault) =
      rw bad (stop_lem (users_of now us) w a v' bad set vec valid fault)
  users_end_lem us v w a fresh (Extended.through_null rc vec set bad) =
      let stop : no_error a.rc ≡ false = ap no_error rc in
      rw stop (null_lem (users_of now us) w a rc vec set bad)

or_else_some :
    (users others : List UserStats)
    → (length users == 0) ≡ false
    → or_else_users users others ≡ users
or_else_some [] others h = cc
or_else_some (u ∷ users) others h = refl

or_else_none :
    (users others : List UserStats)
    → (length users == 0) ≡ true
    → or_else_users users others ≡ others
or_else_none [] others h = refl
or_else_none (u ∷ users) others h = absurd (ground arith)

-- The users that are listed: those of utmpx, or of utmp where utmpx has none.
abbrev pub listed_users : ℕ → List Utmpx → List Utmpx → List UserStats
listed_users now utx ut = or_else_users (users_of now utx) (users_of now ut)

UsersRead-from :
    (m : Mutex) (users : List UserStats) (w w1 : World)
    (out : SgError × VecPtr UserStats × Held × World)
    → w1.fault ≡ w.fault
    → UsersRead m users w1 out
    → UsersRead m users w out
UsersRead-from m users w w1 out same (listed v a b c d e f) = listed v a b c d e (f ∙ same)
UsersRead-from m users w w1 out same (not_copied v a b c d e f) = not_copied v a b c d e (f ∙ same)
UsersRead-from m users w w1 out same (through_null a b c d e) = through_null a b c d e

-- The loop over utmp, on a vector with no item in use.
utmp_loop_lem :
    (m : Mutex) (now : ℕ) (ut : List Utmpx) (v : SgVector UserStats) (n : ℕ) (w : World)
    → IsValid v
    → v.info ≡ user_stats_info
    → n ≡ v.used_count
    → n ≡ 0
    → Room v.block_shift (length ut) 64
    → UsersRead m (users_of now ut) w (
        users_end m
          (taken m)
          (append_loop user_stats_info (of_process (utmp_fill now)) ut n (live v) w))
utmp_loop_lem m now ut v n w valid same count zeroed room =
    let grown : length ut ≡ n + length ut = omega (arith, zeroed) in
    users_end_lem m (utmp_fill now) now ut v w
      (append_loop user_stats_info (of_process (utmp_fill now)) ut n (live v) w)
      (ap (λ k. take k v.cells) (sym count ∙ zeroed))
      (append_loop_lem user_stats_info sg_user_stats_item_init refl (of_process (utmp_fill now))
        (λ a b. a ≡ b) (user_made now) ut v n w
        (λ u. process-Makes (utmp_fill now) now u (utmp_fill-Ends now u)) valid same count
        (subst (λ k. Room v.block_shift k 64) grown room))

fallback_lem :
    (m : Mutex) (now : ℕ) (utx ut : List Utmpx) (v : SgVector UserStats) (w : World)
    (a : Appended UserStats)
    → items v ≡ []
    → Room v.block_shift (length ut) 64
    → LoopEnds (utmpx_fill now) now utx v w a
    → UsersRead m (listed_users now utx ut) w (users_fallback now ut m (taken m) a)
unfolding users_fallback
fallback_lem m now utx ut v w a fresh room
      (all_there v' rc vec valid same shift count new got all fault) =
    let go : no_error a.rc ≡ true = ap no_error rc in
    let is : items v' ≡ users_of now utx =
      got ∙ ap (λ l. l ++ new) fresh ∙ AllShow-eq new (users_of now utx) all in
    let size : length (users_of now utx) ≡ a.count =
      ap length (sym is) ∙ length-items v' valid ∙ sym count in
    elim (Bool-cases (a.count == 0)) [
      | inl z ↦
          rw (go, z, or_else_none (users_of now utx) (users_of now ut) (ap (λ n. n == 0) size ∙ z))
            (subst
              (λ p. UsersRead m (users_of now ut) w (
                users_end m (taken m)
                  (append_loop user_stats_info (of_process (utmp_fill now)) ut a.count p a.world)))
              (sym vec)
              (UsersRead-from m (users_of now ut) w a.world _ fault (
                utmp_loop_lem m now ut v' a.count a.world valid same count ((==_iff a.count 0).0 z)
                  (subst (λ b. Room b (length ut) 64) (sym shift) room))))
      | inr z ↦
          rw (go, z, or_else_some (users_of now utx) (users_of now ut) (ap (λ n. n == 0) size ∙ z))
            (users_end_lem m (utmpx_fill now) now utx v w a fresh
              (all_there v' rc vec valid same shift count new got all fault))
    ]
fallback_lem m now utx ut v w a fresh room (not_filled v' bad set vec valid same fault) =
    rw bad
      (stop_lem m (utmpx_fill now) now (listed_users now utx ut) w a v' bad set vec valid fault)
fallback_lem m now utx ut v w a fresh room (Extended.through_null rc vec set bad) =
    let stop : no_error a.rc ≡ false = ap no_error rc in
    rw stop (null_lem m (utmpx_fill now) now (listed_users now utx ut) w a rc vec set bad)

-- `sg_get_user_stats_int` on a valid vector with no item in use and room for all records: the users
-- listed are those of the records of user processes, in their order, of utmpx, or of utmp where
-- utmpx has none; then no error is returned. The database is closed, and the mutex "utmp" is held in the end
-- just where there is such a lock, locking it succeeded and unlocking it failed. So it is too where a string
-- cannot be copied, and the error that is set is returned. Where there is no memory for an item, the macro
-- VECTOR_UPDATE does not return: `SG_ERROR_MALLOC` is set, the item is stored through NULL, and the database and
-- the mutex, where it was locked, are still held.
pub user_stats_lem :
    (now : ℕ) (utx ut : List Utmpx) (m : Mutex) (v : SgVector UserStats) (w : World)
    → IsValid v
    → v.info ≡ user_stats_info
    → v.used_count ≡ 0
    → Room v.block_shift (length utx) 64
    → Room v.block_shift (length ut) 64
    → UsersRead m (listed_users now utx ut) w (sg_get_user_stats_int now utx ut m v w)
unfolding sg_get_user_stats_int lock_utmp
user_stats_lem now utx ut m v w valid same unused room room2 =
    let grown : length utx ≡ 0 + length utx = omega arith in
    let w1 = (lock_utmp m nothing_held w).1 in
    let a = append_loop user_stats_info (of_process (utmpx_fill now)) utx 0 (live v) w1 in
    UsersRead-from m (listed_users now utx ut) w w1 _
      (lock_mutex-SetsOnly m.globals utmp_mutex_name m.lock_text m.lock_rc w).0
      (subst (λ h. UsersRead m (listed_users now utx ut) w1 (users_fallback now ut m h a))
        (sym (lock_utmp-held m w))
        (fallback_lem m now utx ut v w1 a (ap (λ k. take k v.cells) unused) room2 (
          append_loop_lem user_stats_info sg_user_stats_item_init refl (of_process (utmpx_fill now))
            (λ a b. a ≡ b) (user_made now) utx v 0 w1
            (λ u. process-Makes (utmpx_fill now) now u (utmpx_fill-Ends now u)) valid same
            (sym unused) (subst (λ k. Room v.block_shift k 64) grown room))))
