-- ===== src/Tools/Alloc.antt =====
-- `sg_realloc` of src/libstatgrab/tools.c.
use libstatgrab.Base.{
  ℕ, zero, suc, ◌+◌, ◌/◌, ◌%◌, ◌≡◌, Bool, true, false, [], ◌∷◌, ◌++◌, some, ◌==◌, if◌then◌else◌,
  arith,
}
use libstatgrab.Base.Bytes.{Bytes, codes}
use libstatgrab.Error.{World, malloc, sg_set_error_with_errno_fmt, sg_get_error}
use libstatgrab.Error.Codes.{error_malloc}
use libstatgrab.Error.Slot.{get_error-set, set_SameRest}

-- `%lu`. A number below 2 ^ 64 has at most 20 digits.
abbrev decimal : ℕ → ℕ → Bytes → Bytes
decimal zero n tail = tail
decimal (suc fuel) n tail =
    let more = decimal fuel (n / 10) ((48 + n % 10) ∷ tail) in
    if n / 10 == 0 then (48 + n % 10) ∷ tail else more

realloc_text : ℕ → Bytes
realloc_text size =
    codes "sg_realloc: couldn't realloc(to " ++ decimal 20 size [] ++ codes " bytes)"

-- Whether the result is a block. A size of 0 frees the block and returns NULL with no error.
unfoldable pub sg_realloc : ℕ → World → Bool × World
unfolding realloc_text
sg_realloc size w =
    if size == 0
    then (false, w)
    else (let (ok, w') = malloc w in
        if ok
        then (true, w')
        else (false, (sg_set_error_with_errno_fmt error_malloc (some (realloc_text size)) w').1))

pub malloc-fault : (w : World) → (malloc w).1.fault ≡ w.fault
unfolding malloc
malloc-fault w = ground arith

pub realloc-fault : (size : ℕ) (w : World) → (sg_realloc size w).1.fault ≡ w.fault
unfolding sg_realloc sg_set_error_with_errno_fmt
realloc-fault size w = ground (
  arith,
  malloc-fault w,
  set_SameRest error_malloc (malloc w).1.errno (some (realloc_text size)) (malloc w).1,
)

-- Where a block of some size is refused, `SG_ERROR_MALLOC` is set.
pub realloc-error :
    (size : ℕ) (w : World)
    → (size == 0) ≡ false
    → (sg_realloc size w).0 ≡ false
    → sg_get_error (sg_realloc size w).1 ≡ error_malloc
unfolding sg_realloc sg_set_error_with_errno_fmt
realloc-error size w h k =
    ground
      (arith, get_error-set error_malloc (malloc w).1.errno (some (realloc_text size)) (malloc w).1)

-- Memory is plenty, and a block is given.
pub realloc-plenty :
    (size : ℕ) (w : World) → (size == 0) ≡ false → w.oom ≡ [] → sg_realloc size w ≡ (true, w)
unfolding sg_realloc malloc
realloc-plenty size w h g = rw (h, g)
