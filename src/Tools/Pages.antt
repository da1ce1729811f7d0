-- ===== src/Tools/Pages.antt =====
-- `sg_get_sys_page_size` of src/libstatgrab/tools.h.
use libstatgrab.Base.{ℕ, zero, suc, Option, none, some}
use libstatgrab.Base.Bytes.{codes}
use libstatgrab.Error.{World, sg_set_error_with_errno_fmt}
use libstatgrab.Error.Codes.{error_sysconf}
use libstatgrab.Stdio.{set_errno}

-- The static `sys_page_size`: a size, 0 where it was never asked for, and `none` for -1.
abbrev pub PageSize : Type 0
PageSize = Option ℕ

-- The answer of `sysconf(_SC_PAGESIZE)`, and the `errno` that a failure leaves.
unfoldable pub asked_size : PageSize × ℕ → World → PageSize × PageSize × World
asked_size (none, e) w = (
  none,
  none,
  (sg_set_error_with_errno_fmt error_sysconf (some (codes "_SC_PAGESIZE")) (set_errno e w)).1,
)
asked_size (some size, e) w = (some size, some size, w)

-- `sg_get_sys_page_size`: the result, the new static and the world.
unfoldable pub sg_get_sys_page_size : PageSize → PageSize × ℕ → World → PageSize × PageSize × World
sg_get_sys_page_size none asked w = (none, none, w)
sg_get_sys_page_size (some zero) asked w = asked_size asked w
sg_get_sys_page_size (some (suc size)) asked w = (some (suc size), some (suc size), w)
