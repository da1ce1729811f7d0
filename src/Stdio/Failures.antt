-- ===== src/Stdio/Failures.antt =====
-- What `fopen` and the system calls that fail leave: RETURN_WITH_SET_ERROR_WITH_ERRNO after `errno` was
-- set, and RETURN_WITH_SET_ERROR.
use libstatgrab.Base.{ℕ, ◌≡◌, refl, some, inl, inr, Option-cases}
use libstatgrab.Base.Bytes.{Bytes}
use libstatgrab.Error.{
  World, sg_get_error, sg_get_error_glob, sg_get_error_errno, sg_set_error_fmt,
  sg_set_error_with_errno_fmt,
}
use libstatgrab.Error.Codes.{SgError}
use libstatgrab.Error.Slot.{set-get}
use libstatgrab.Stdio.{Stream, set_errno, after_reads}

-- The code is returned and set, with an error number; nothing was accessed out of bounds.
abbrev pub Failed : SgError → ℕ → World → SgError × World → Type 0
Failed code e w out =
    (out.0 ≡ code)
    × (sg_get_error out.1 ≡ code)
    × (sg_get_error_errno out.1 ≡ e)
    × (out.1.fault ≡ w.fault)

pub set_with_errno-Failed :
    (code : SgError) (text : Bytes) (e : ℕ) (w : World)
    → Failed code e w (sg_set_error_with_errno_fmt code (some text) (set_errno e w))
unfolding sg_set_error_with_errno_fmt
set_with_errno-Failed code text e w =
    let (rc, code_set, number, _, _, _, rest, _) = set-get code e text (set_errno e w) in
    (rc, code_set, number, rest.fault_kept)

pub set-Failed :
    (code : SgError) (text : Bytes) (w : World)
    → Failed code 0 w (sg_set_error_fmt code (some text) w)
unfolding sg_set_error_fmt
set-Failed code text w =
    let (rc, code_set, number, _, _, _, rest, _) = set-get code 0 text w in
    (rc, code_set, number, rest.fault_kept)

-- `fgets` at the end of a stream leaves all but `errno` as it is.
pub after_reads_lem :
    (f : Stream) (w : World)
    → ((after_reads f w).fault ≡ w.fault) × (sg_get_error (after_reads f w) ≡ sg_get_error w)
unfolding sg_get_error sg_get_error_glob
after_reads_lem f w = elim (Option-cases f.read_error) [
  | inl e ↦ rw (e, after_reads) (refl, refl)
  | inr (n, e) ↦ rw (e, after_reads) (refl, refl)
]
