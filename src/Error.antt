-- ===== src/Error.antt =====
-- src/libstatgrab/error.c: the error slot of a thread. `World` is what the library's code shares
-- with its surroundings. The child modules hold the codes and the proofs.
pub mod Codes
pub mod Slot
mod Tests
use libstatgrab.Base.{
  ℕ, ◌-◌, ◌≡◌, String, Option, none, some, List, [], ◌∷◌, ◌++◌, Bool, true, false, take, ◌==◌,
  if◌then◌else◌,
}
use libstatgrab.Base.Bytes.{Bytes, codes}
use Codes.{SgError, error_none, error_invalid_argument, error_malloc, sg_str_error}

-- `struct sg_error_glob`; the buffer `error_arg` as the text up to its NUL.
pub record SgErrorGlob : Type 0 where
  pub error : SgError
  pub errno_value : ℕ
  pub error_arg : Bytes

-- `error_tls` is the slot that `GLOBAL_GET_TLS(error)` finds, `none` where that is NULL. `oom` holds
-- the coming answers of `malloc`, true for a failure. `fault` records an access outside of a block,
-- to a freed block or through NULL, which C leaves undefined.
pub record World : Type 0 where
  pub error_tls : Option SgErrorGlob
  pub pre_init_errs : SgErrorGlob
  pub errno : ℕ
  pub oom : List Bool
  pub fault : Bool

abbrev pub error_arg_max : ℕ
error_arg_max = 4096

abbrev pub enomem : ℕ
enomem = 12

abbrev pub no_errors : SgErrorGlob
no_errors = record { error = error_none; errno_value = 0; error_arg = [] }

-- A world where no thread has a slot, no error is set, and memory is plenty.
abbrev pub calm : World
calm = record { error_tls = none; pre_init_errs = no_errors; errno = 0; oom = []; fault = false }

-- `sg_get_error_glob`; it never returns NULL.
unfoldable pub sg_get_error_glob : World → SgErrorGlob
sg_get_error_glob w = elim w.error_tls [ none ↦ w.pre_init_errs | some glob ↦ glob ]

-- A store through the pointer that `sg_get_error_glob` returns.
unfoldable pub store_error_glob : SgErrorGlob → World → World
store_error_glob glob w = elim w.error_tls [
  | none ↦ record w { pre_init_errs = glob }
  | some _ ↦ record w { error_tls = some glob }
]

abbrev pub formatted : Option Bytes → Bytes
formatted none = []
formatted (some text) = take (error_arg_max - 1) text

-- `sg_set_error_int`. `arg` is the text that `vsnprintf` makes of the format and its arguments; it
-- stores what fits beside the NUL.
unfoldable pub sg_set_error_int : SgError → ℕ → Option Bytes → World → SgError × World
sg_set_error_int code errno_value arg w = (
  code,
  store_error_glob (record { error = code; errno_value = errno_value; error_arg = formatted arg })
      w,
)

unfoldable pub sg_clear_error : World → World
sg_clear_error w = store_error_glob no_errors w

unfoldable pub sg_set_error_fmt : SgError → Option Bytes → World → SgError × World
sg_set_error_fmt code arg w = sg_set_error_int code 0 arg w

unfoldable pub sg_set_error_with_errno_fmt : SgError → Option Bytes → World → SgError × World
sg_set_error_with_errno_fmt code arg w = sg_set_error_int code w.errno arg w

unfoldable pub sg_set_error_with_errno_code_fmt :
    SgError → ℕ → Option Bytes → World → SgError × World
sg_set_error_with_errno_code_fmt code errno_value arg w = sg_set_error_int code errno_value arg w

unfoldable pub sg_get_error : World → SgError
sg_get_error w = (sg_get_error_glob w).error

unfoldable pub sg_get_error_arg : World → Bytes
sg_get_error_arg w = (sg_get_error_glob w).error_arg

unfoldable pub sg_get_error_errno : World → ℕ
sg_get_error_errno w = (sg_get_error_glob w).errno_value

-- `sg_error_details`, where `error_arg` may be NULL.
pub record SgErrorDetails : Type 0 where
  pub error : SgError
  pub errno_value : ℕ
  pub error_arg : Option Bytes

-- `sg_get_error_details`; `is_null` says that the caller passed NULL. The details are what is
-- written through the pointer.
unfoldable pub sg_get_error_details : Bool → World → SgError × Option SgErrorDetails × World
sg_get_error_details is_null w =
    if is_null
    then (let (rc, w') =
          sg_set_error_int error_invalid_argument 0 (some (codes "sg_get_error_details")) w in
        (rc, none, w'))
    else (
      error_none,
      some (record {
        error = (sg_get_error_glob w).error;
        errno_value = (sg_get_error_glob w).errno_value;
        error_arg = some (sg_get_error_glob w).error_arg;
      }),
      w,
    )

abbrev pub no_error : SgError → Bool
no_error error_none = true
no_error _ = false

-- `sg_error_init_comp`, where `sg_comp_get_tls(id)` finds `slot`.
unfoldable pub sg_error_init_comp : Option SgErrorGlob → World → SgError × World
sg_error_init_comp none w = (error_none, record w { error_tls = none })
sg_error_init_comp (some glob) w = (
  error_none,
  record w { error_tls = some (if no_error w.pre_init_errs.error then glob else w.pre_init_errs) },
)

-- One answer of `malloc` or `realloc`. The list of answers has run out: memory is plenty.
unfoldable pub malloc : World → Bool × World
malloc w = elim w.oom [
  | [] ↦ (true, w)
  | true ∷ rest ↦ (false, record w { oom = rest; errno = enomem })
  | false ∷ rest ↦ (true, record w { oom = rest })
]

-- `*buf` of `sg_strperror`: `buf` is NULL, or `*buf` is not NULL, or all is well.
pub data BufArg : Type 0 where
  null_buf used_buf empty_buf : BufArg

abbrev pub strperror_buf_size : ℕ
strperror_buf_size = 1024

abbrev pub arg_text : Option Bytes → Bytes
arg_text none = []
arg_text (some text) = text

-- `snprintf(*buf, 1024, "%s (%s%s%s)", …)`
unfoldable pub details_text : SgErrorDetails → Bytes → Bytes
unfolding sg_str_error
details_text d errno_msg = take (strperror_buf_size - 1) (
    codes (sg_str_error d.error)
    ++ codes " ("
    ++ errno_msg
    ++ (if d.errno_value == 0 then [] else codes ": ")
    ++ arg_text d.error_arg
    ++ codes ")")

-- The details that `sg_strperror` prints: the caller's, or else the current error's.
abbrev pub chosen : Option SgErrorDetails → World → SgErrorDetails
chosen (some d) w = d
chosen none w = record {
  error = (sg_get_error_glob w).error;
  errno_value = (sg_get_error_glob w).errno_value;
  error_arg = some (sg_get_error_glob w).error_arg;
}

-- `strerror_r` of the C library, `none` where it fails.
module _ (strerror_r : ℕ → Option Bytes) where
  abbrev pub finish : SgErrorDetails → World → Option Bytes × World
  finish d w =
      if d.errno_value == 0
      then (some (details_text d []), w)
      else elim (strerror_r d.errno_value) [
        | none ↦ (none, (sg_set_error_int error_malloc w.errno (some (codes "strerror_r")) w).1)
        | some msg ↦ (some (details_text d msg), w)
      ]

  -- `sg_strperror` where `strerror_r` is there. The result is the new `*buf`.
  unfoldable pub sg_strperror : BufArg → Option SgErrorDetails → World → Option Bytes × World
  sg_strperror null_buf d w =
      (none, (sg_set_error_int error_invalid_argument 0 (some (codes "strperror")) w).1)
  sg_strperror used_buf d w =
      (none, (sg_set_error_int error_invalid_argument 0 (some (codes "strperror")) w).1)
  sg_strperror empty_buf d w =
      let (ok, w') = malloc w in
      if ok
      then finish (chosen d w) w'
      else (none, (sg_set_error_int error_malloc 0 (some (codes "sg_strperror")) w').1)
