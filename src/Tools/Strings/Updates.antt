-- ===== src/Tools/Strings/Updates.antt =====
-- `sg_update_string`, `sg_lupdate_string`, `sg_update_mem` and `sg_concat_string`: the new string, or an
-- error with the old one kept.
use libstatgrab.Base.{
  ℕ, zero, suc, ◌+◌, ◌-◌, ◌≤◌, ◌<◌, ◌≡◌, refl, ap, subst, sym, ◌∙◌, arith, min, List, [], ◌∷◌, ◌++◌,
  Option, none, some, Bool, false, length, take, replicate, ◌==◌, ltb, ◌⊎◌, inl, inr, Bool-cases,
  length-append, length-take, length-replicate, take-length,
}
use libstatgrab.Base.Bytes.{Bytes}
use libstatgrab.Error.{World, sg_get_error}
use libstatgrab.Error.Codes.{SgError, error_none, error_malloc}
use libstatgrab.Tools.Alloc.{sg_realloc, realloc-fault, realloc-error, realloc-plenty}
use libstatgrab.Tools.Strings.{
  Byte, cstr, stored, garbage, old_bytes, regrown, strlcpy, sg_strnlen, keep_string,
  sg_update_string, sg_lupdate_string, sg_update_mem, concat_into, sg_concat_string,
}
use libstatgrab.Tools.Strings.Copying.{cstr_cons, strlcpy_lem, strlcat_lem, strnlen_lem}

-- The new value, or `SG_ERROR_MALLOC` returned and set and the old value; nothing is written out of bounds.
abbrev pub Updated : {A : Type 0} → A → A → World → SgError × A × World → Type 0
Updated before after w out =
    (out.2.fault ≡ w.fault)
    × (((out.0 ≡ error_malloc) × (sg_get_error out.2 ≡ error_malloc) × (out.1 ≡ before))
        ⊎ ((out.0 ≡ error_none) × (out.1 ≡ after)))

length-regrown : (dest : Option Bytes) (n : ℕ) → length (regrown dest n) ≡ n
length-regrown dest n = omega (
  arith,
  length-append (take n (old_bytes dest)) (replicate (n - length (old_bytes dest)) garbage),
  length-take n (old_bytes dest),
  length-replicate (n - length (old_bytes dest)) garbage,
)

keep_string_lem :
    (rc : ℕ) (block : List Byte) (bad : Bool) (text : Bytes) (w : World)
    → cstr block ≡ some text
    → bad ≡ false
    → keep_string (rc, block, bad) w ≡ (error_none, some text, w)
unfolding keep_string
keep_string_lem rc block bad text w h g = ground arith

some_size : (n : ℕ) → (n + 1 == 0) ≡ false
some_size n = ground arith

-- `strlcpy` of a string into its new block.
stored_string :
    (dest : Option Bytes) (src : Bytes) (n : ℕ) (w : World)
    → keep_string (strlcpy (regrown dest (n + 1)) src (n + 1)) w
      ≡ (error_none, some (take n src), w)
stored_string dest src n w =
    let l = length-regrown dest (n + 1) in
    let (_, text, ok, _) =
      strlcpy_lem (regrown dest (n + 1)) src (n + 1) (omega arith) (omega (arith, l)) in
    let e : n + 1 - 1 ≡ n = omega arith in
    keep_string_lem _ _ _ (take n src) w (text ∙ ap (λ k. some (take k src)) e) ok

copied_string :
    (dest : Option Bytes) (src : Bytes) (n : ℕ) (w w' : World)
    → w'.fault ≡ w.fault
    → Updated dest
        (some (take n src))
        w
        (keep_string (strlcpy (regrown dest (n + 1)) src (n + 1)) w')
copied_string dest src n w w' fault =
    subst (Updated dest (some (take n src)) w) (sym (stored_string dest src n w'))
      (fault, inr (refl, refl))

-- `sg_update_string` with a string leaves a copy of it in `*dest`, or returns `SG_ERROR_MALLOC` and
-- leaves `*dest` as it was. It writes nothing beyond the new block.
pub update_string_lem :
    (dest : Option Bytes) (src : Bytes) (w : World)
    → Updated dest (some src) w (sg_update_string dest (some src) w)
unfolding sg_update_string
update_string_lem dest src w =
    let size = length src + 1 in
    elim (Bool-cases (sg_realloc size w).0) [
      | inl ok ↦ rw ok (
          subst
            (λ t.
              Updated dest (some t) w
                (keep_string (strlcpy (regrown dest size) src size) (sg_realloc size w).1))
            (take-length (length src) src (omega arith))
            (copied_string dest src (length src) w (sg_realloc size w).1 (realloc-fault size w)))
      | inr bad ↦ rw bad (
        realloc-fault size w,
        let e = realloc-error size w (some_size (length src)) bad in inl (e, e, refl),
      )
    ]

-- The same for a string or NULL, which always succeeds.
pub update_string_any :
    (dest src : Option Bytes) (w : World) → Updated dest src w (sg_update_string dest src w)
unfolding sg_update_string
update_string_any dest none w = (refl, inr (refl, refl))
update_string_any dest (some src) w = update_string_lem dest src w

take-min : (n : ℕ) (s : Bytes) → take (min (length s) n) s ≡ take n s
take-min zero s = let e : min (length s) 0 ≡ 0 = omega arith in ap (λ k. take k s) e
take-min (suc n) [] = let e : min 0 (suc n) ≡ 0 = omega arith in ap (λ k. take k []) e
take-min (suc n) (c ∷ s) =
    let e : min (suc (length s)) (suc n) ≡ suc (min (length s) n) = omega arith in
    ap (λ k. take k (c ∷ s)) e ∙ ap (◌∷◌ c) (take-min n s)

-- `sg_lupdate_string` with a string leaves a copy of its first `maxlen` characters, or of all where
-- there are fewer, or else `SG_ERROR_MALLOC` and `*dest` as it was.
pub lupdate_string_lem :
    (dest : Option Bytes) (src : Bytes) (maxlen : ℕ) (w : World)
    → Updated dest (some (take maxlen src)) w (sg_lupdate_string dest (some src) maxlen w)
unfolding sg_lupdate_string
lupdate_string_lem dest src maxlen w =
    let size = sg_strnlen src maxlen + 1 in
    let e = ap (λ k. take k src) (strnlen_lem src maxlen) ∙ take-min maxlen src in
    elim (Bool-cases (sg_realloc size w).0) [
      | inl ok ↦ rw ok (
          subst
            (λ t.
              Updated dest (some t) w
                (keep_string (strlcpy (regrown dest size) src size) (sg_realloc size w).1))
            e
            (copied_string dest src (sg_strnlen src maxlen) w (sg_realloc size w).1
              (realloc-fault size w)))
      | inr bad ↦ rw bad (
        realloc-fault size w,
        let e = realloc-error size w (some_size (sg_strnlen src maxlen)) bad in inl (e, e, refl),
      )
    ]

-- With memory, both simply store the string.
pub update_string-plenty :
    (dest src : Option Bytes) (w : World)
    → w.oom ≡ []
    → sg_update_string dest src w ≡ (error_none, src, w)
unfolding sg_update_string
update_string-plenty dest none w h = refl
update_string-plenty dest (some src) w h =
    rw (realloc-plenty (length src + 1) w (some_size (length src)) h) (
      stored_string dest src (length src) w
      ∙ ap (λ (t : Bytes). (error_none, some t, w)) (take-length (length src) src (omega arith)))

pub lupdate_string-plenty :
    (dest : Option Bytes) (src : Bytes) (maxlen : ℕ) (w : World)
    → w.oom ≡ []
    → sg_lupdate_string dest (some src) maxlen w ≡ (error_none, some (take maxlen src), w)
unfolding sg_lupdate_string
lupdate_string-plenty dest src maxlen w h =
    let size = sg_strnlen src maxlen in
    rw (realloc-plenty (size + 1) w (some_size size) h) (
      stored_string dest src size w
      ∙ ap (λ (t : Bytes). (error_none, some t, w))
          (ap (λ k. take k src) (strnlen_lem src maxlen) ∙ take-min maxlen src))

-- `sg_update_mem` of `len` bytes, one or more, from a block that has them: a copy of them in
-- `*dest`, or `SG_ERROR_MALLOC` and `*dest` as it was.
pub update_mem_lem :
    (dest : Option (List ℕ)) (src : List ℕ) (len : ℕ) (w : World)
    → 1 ≤ len
    → len ≤ length src
    → Updated dest (some (take len src)) w (sg_update_mem dest (some src) len w)
unfolding sg_update_mem
update_mem_lem dest src len w some_bytes inside =
    let in_src : ltb (length src) len ≡ false = ground arith in
    let size_some : (len == 0) ≡ false = ground arith in
    elim (Bool-cases (sg_realloc len w).0) [
      | inl ok ↦ rw (ok, in_src) (realloc-fault len w, inr (refl, refl))
      | inr bad ↦
          rw (bad, size_some)
            (realloc-fault len w, let e = realloc-error len w size_some bad in inl (e, e, refl))
    ]

cstr-stored : (t : Bytes) (rest : List Byte) → cstr (stored t ++ rest) ≡ some t
cstr-stored [] rest = refl
cstr-stored (c ∷ t) rest = cstr_cons c (stored t ++ rest) t (cstr-stored t rest)

length-stored : (t : Bytes) → length (stored t) ≡ length t + 1
length-stored [] = omega arith
length-stored (c ∷ t) = omega (arith, length-stored t)

cstr-regrown : (t : Bytes) (n : ℕ) → length t < n → cstr (regrown (some t) n) ≡ some t
cstr-regrown t n h =
    ap (λ (b : List Byte). cstr (b ++ replicate (n - length (stored t)) garbage))
      (take-length n (stored t) (omega (arith, length-stored t)))
    ∙ cstr-stored t (replicate (n - length (stored t)) garbage)

-- `sg_concat_string` of a string to a string: both joined in `*dest`, or `SG_ERROR_MALLOC` and
-- `*dest` as it was. It writes nothing beyond the new block.
pub concat_string_lem :
    (text src : Bytes) (w : World)
    → Updated (some text) (some (text ++ src)) w (sg_concat_string (some text) (some src) w)
unfolding sg_concat_string concat_into
concat_string_lem text src w =
    let n = length text + length src in
    let block = regrown (some text) (n + 1) in
    elim (Bool-cases (sg_realloc (n + 1) w).0) [
      | inl ok ↦
          let (_, joined, inside, _) =
            strlcat_lem block text src (n + 1) (cstr-regrown text (n + 1) (omega arith))
              (omega arith) (omega (arith, length-regrown (some text) (n + 1))) in
          let all : take (n + 1 - 1) (text ++ src) ≡ text ++ src =
            take-length (n + 1 - 1) (text ++ src) (omega (arith, length-append text src)) in
          rw ok (
            subst (Updated (some text) (some (text ++ src)) w)
              (sym (
                keep_string_lem _ _ _ (text ++ src) (sg_realloc (n + 1) w).1 (joined ∙ ap some all)
                  inside))
              (realloc-fault (n + 1) w, inr (refl, refl)))
      | inr bad ↦ rw bad (
        realloc-fault (n + 1) w,
        let e = realloc-error (n + 1) w (some_size n) bad in inl (e, e, refl),
      )
    ]
