-- ===== src/Error/Slot.antt =====
-- What the setters of src/libstatgrab/error.c leave for the getters.
use libstatgrab.Base.{
  ℕ, ◌≡◌, refl, sym, ap, subst, ◌≤◌, ◌⊎◌, inl, inr, Option-cases, Option, none, some, false, [],
  arith, length, length-take, take,
}
use libstatgrab.Base.Bytes.{Bytes}
use libstatgrab.Error.Codes.{SgError, error_none}
use libstatgrab.Error.{
  World, SgErrorGlob, SgErrorDetails, no_errors, sg_get_error_glob, store_error_glob,
  sg_set_error_int, sg_clear_error, sg_get_error, sg_get_error_arg, sg_get_error_errno,
  sg_get_error_details, sg_error_init_comp, no_error,
}

-- What an operation on the error slot leaves alone.
pub record SameRest (w w' : World) : Type 0 where
  pub errno_kept : w'.errno ≡ w.errno
  pub oom_kept : w'.oom ≡ w.oom
  pub fault_kept : w'.fault ≡ w.fault

-- The one of the two slots that is not in use stays: the thread still has none, or the one from before
-- initialisation is as it was, and the thread still has one.
abbrev pub OtherKept : World → World → Type 0
OtherKept w w' =
    ((w.error_tls ≡ none) × (w'.error_tls ≡ none))
    ⊎ ((g g' : SgErrorGlob) × (w.error_tls ≡ some g)
        × (w'.error_tls ≡ some g')
        × (w'.pre_init_errs ≡ w.pre_init_errs))

store-OtherKept : (g : SgErrorGlob) (w : World) → OtherKept w (store_error_glob g w)
unfolding store_error_glob
store-OtherKept g w = elim (Option-cases w.error_tls) [
  | inl e ↦ rw (e, store_error_glob) (inl (refl, e))
  | inr (old, e) ↦ rw (e, store_error_glob) (inr (old, g, refl, refl, refl))
]

pub get-store : (g : SgErrorGlob) (w : World) → sg_get_error_glob (store_error_glob g w) ≡ g
unfolding sg_get_error_glob store_error_glob
get-store g w = ground arith

pub store_SameRest : (g : SgErrorGlob) (w : World) → SameRest w (store_error_glob g w)
unfolding store_error_glob
store_SameRest g w = ground arith

abbrev details_of : SgErrorGlob → SgErrorDetails
details_of g = record { error = g.error; errno_value = g.errno_value; error_arg = some g.error_arg }

no_error-cases : (c : SgError) → (c ≡ error_none) ⊎ (no_error c ≡ false)
no_error-cases error_none = inl refl
no_error-cases _ = inr refl

-- After `sg_set_error_int(code, errno_value, arg)`, with the slot of the thread or the one used
-- before initialisation, all getters agree: the code and the error number are those that were set,
-- the text is the formatted one cut to 4095 bytes, so it fits its buffer with its NUL, and
-- `sg_get_error_details` returns the same three. The call returns its code, and leaves alone `errno`, the answers
-- of `malloc`, and the other of the two slots: that from before initialisation where the thread has one.
pub set-get :
    (code : SgError) (errno_value : ℕ) (text : Bytes) (w : World)
    → let (rc, w') = sg_set_error_int code errno_value (some text) w in
      (rc ≡ code)
      × (sg_get_error w' ≡ code)
      × (sg_get_error_errno w' ≡ errno_value)
      × (sg_get_error_arg w' ≡ take 4095 text)
      × (length (sg_get_error_arg w') ≤ 4095)
      × (sg_get_error_details false w' ≡ (
        error_none,
        some
            (record { error = code; errno_value = errno_value; error_arg = some (take 4095 text) }),
        w',
      ))
      × SameRest w w'
      × OtherKept w w'
unfolding sg_set_error_int sg_get_error sg_get_error_arg sg_get_error_errno sg_get_error_details
set-get code errno_value text w =
    let p =
      get-store (record { error = code; errno_value = errno_value; error_arg = take 4095 text })
        w in
    (
      refl,
      ap (λ g. g.error) p,
      ap (λ g. g.errno_value) p,
      ap (λ g. g.error_arg) p,
      subst (λ g. length g.error_arg ≤ 4095) (sym p) (omega (arith, length-take 4095 text)),
      ap
          (λ g.
            (error_none, some (details_of g), (sg_set_error_int code errno_value (some text) w).1))
          p,
      store_SameRest _ w,
      store-OtherKept _ w,
    )

pub get_error-set :
    (code : SgError) (errno_value : ℕ) (arg : Option Bytes) (w : World)
    → sg_get_error (sg_set_error_int code errno_value arg w).1 ≡ code
unfolding sg_set_error_int sg_get_error
get_error-set code errno_value arg w = ap (λ g. g.error) (get-store _ w)

pub set_SameRest :
    (code : SgError) (errno_value : ℕ) (arg : Option Bytes) (w : World)
    → SameRest w (sg_set_error_int code errno_value arg w).1
unfolding sg_set_error_int
set_SameRest code errno_value arg w = store_SameRest _ w

-- `sg_clear_error` leaves no error, no error number and an empty text, whatever was set before.
pub clear-get :
    (w : World)
    → (sg_get_error (sg_clear_error w) ≡ error_none)
      × (sg_get_error_errno (sg_clear_error w) ≡ 0)
      × (sg_get_error_arg (sg_clear_error w) ≡ [])
      × SameRest w (sg_clear_error w)
unfolding sg_clear_error sg_get_error sg_get_error_arg sg_get_error_errno
clear-get w =
    let p = get-store no_errors w in
    (ap (λ g. g.error) p, ap (λ g. g.errno_value) p, ap (λ g. g.error_arg) p, store_SameRest _ w)

-- An error that is set before `sg_init` survives the initialisation of the error component: with a
-- zeroed slot or with none, the getters say after `sg_error_init_comp` what they said before, on a
-- thread that had no slot. Later errors then go to the new slot and leave the early ones alone.
pub init-keeps_error :
    (slot : Option SgErrorGlob) (w : World)
    → w.error_tls ≡ none
    → ((g : SgErrorGlob) → slot ≡ some g → g ≡ no_errors)
    → (w.pre_init_errs.error ≡ error_none → w.pre_init_errs ≡ no_errors)
    → let (rc, w') = sg_error_init_comp slot w in
      (rc ≡ error_none)
      × (sg_get_error_glob w' ≡ sg_get_error_glob w)
      × (w'.pre_init_errs ≡ w.pre_init_errs)
      × SameRest w w'
unfolding sg_error_init_comp sg_get_error_glob
init-keeps_error none w h z p = ground arith
init-keeps_error (some g) w h z p = elim (no_error-cases w.pre_init_errs.error) [
  | inl e ↦ ground (arith, z g refl, p e)
  | inr e ↦ ground arith
]
