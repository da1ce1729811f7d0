-- ===== src/Error/Tests.antt =====
-- The theorems on the error slot at concrete inputs.
use libstatgrab.Base.{◌≡◌, ◌≤◌, refl, [], ◌∷◌, none, some, true, false, length}
use libstatgrab.Base.Bytes.{codes}
use libstatgrab.Error.Codes.{error_none, error_parse}
use libstatgrab.Error.{
  World, SgErrorGlob, no_errors, sg_get_error_glob, sg_set_error_int, sg_clear_error, sg_get_error,
  sg_get_error_arg, sg_get_error_errno, sg_get_error_details, sg_error_init_comp,
}
use libstatgrab.Error.Slot.{SameRest, OtherKept, set-get, clear-get, init-keeps_error}

abbrev early : SgErrorGlob
early = record { error = error_parse; errno_value = 5; error_arg = codes "x" }

abbrev before_init : World
before_init = record {
  error_tls = none;
  pre_init_errs = early;
  errno = 2;
  oom = true ∷ [];
  fault = false;
}

set-get_example :
    let (rc, w') = sg_set_error_int error_parse 7 (some (codes "line 3")) before_init in
    (rc ≡ error_parse)
    × (sg_get_error w' ≡ error_parse)
    × (sg_get_error_errno w' ≡ 7)
    × (sg_get_error_arg w' ≡ codes "line 3")
    × (length (sg_get_error_arg w') ≤ 4095)
    × (sg_get_error_details false w' ≡ (
      error_none,
      some (record { error = error_parse; errno_value = 7; error_arg = some (codes "line 3") }),
      w',
    ))
    × SameRest before_init w'
    × OtherKept before_init w'
set-get_example = set-get error_parse 7 (codes "line 3") before_init

clear-get_example :
    (sg_get_error (sg_clear_error before_init) ≡ error_none)
    × (sg_get_error_errno (sg_clear_error before_init) ≡ 0)
    × (sg_get_error_arg (sg_clear_error before_init) ≡ [])
    × SameRest before_init (sg_clear_error before_init)
clear-get_example = clear-get before_init

init-keeps_error_example :
    let (rc, w') = sg_error_init_comp (some no_errors) before_init in
    (rc ≡ error_none)
    × (sg_get_error_glob w' ≡ early)
    × (w'.pre_init_errs ≡ early)
    × SameRest before_init w'
unfolding sg_get_error_glob
init-keeps_error_example = init-keeps_error (some no_errors) before_init refl (λ g e. cc) (λ e. cc)
