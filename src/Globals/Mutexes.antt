-- ===== src/Globals/Mutexes.antt =====
-- `sg_lock_mutex` and `sg_unlock_mutex` of src/libstatgrab/globals.c: what they leave of the world.
use libstatgrab.Base.{ℕ, ◌≡◌, refl, ap, some, false, ◌⊎◌, inl, inr, Bool-cases, ◌==◌}
use libstatgrab.Base.Bytes.{Bytes}
use libstatgrab.Error.{
  World, no_error, sg_get_error, sg_set_error_fmt, sg_set_error_with_errno_code_fmt,
}
use libstatgrab.Error.Slot.{set_SameRest, get_error-set}
use libstatgrab.Error.Codes.{error_mutex_lock, error_invalid_argument}
use libstatgrab.Globals.{Globals, find_lock, sg_lock_mutex, sg_unlock_mutex}

-- Nothing changes, or an error is set; nothing is accessed out of bounds.
abbrev pub SetsOnly : World → World → Type 0
SetsOnly w w' = (w'.fault ≡ w.fault) × ((w' ≡ w) ⊎ (no_error (sg_get_error w') ≡ false))

pub lock_mutex-SetsOnly :
    (g : Globals) (name text : Bytes) (rc : ℕ) (w : World)
    → SetsOnly w (sg_lock_mutex g name rc text w).1
unfolding sg_lock_mutex sg_set_error_fmt sg_set_error_with_errno_code_fmt
lock_mutex-SetsOnly g name text rc w = elim (Bool-cases (find_lock name g.required_locks)) [
  | inr e ↦ rw e (
    (set_SameRest error_invalid_argument 0 (some name) w).fault_kept,
    inr (ap no_error (get_error-set error_invalid_argument 0 (some name) w)),
  )
  | inl e ↦ rw e (elim (Bool-cases (rc == 0)) [
    | inl z ↦ rw z (refl, inl refl)
    | inr z ↦ rw z (
      (set_SameRest error_mutex_lock rc (some text) w).fault_kept,
      inr (ap no_error (get_error-set error_mutex_lock rc (some text) w)),
    )
  ])
]

pub unlock_mutex-SetsOnly :
    (g : Globals) (name text : Bytes) (rc : ℕ) (w : World)
    → SetsOnly w (sg_unlock_mutex g name rc text w).1
unfolding sg_unlock_mutex sg_lock_mutex
unlock_mutex-SetsOnly g name text rc w = lock_mutex-SetsOnly g name text rc w
