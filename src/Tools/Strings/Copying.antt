-- ===== src/Tools/Strings/Copying.antt =====
-- `strlcpy`, `strlcat` and `sg_strnlen` stay in their blocks and keep what fits.
use libstatgrab.Base.{
  ℕ, zero, suc, ◌+◌, ◌-◌, ◌≤◌, ◌<◌, ◌≡◌, refl, ap, ◌∙◌, arith, min, List, [], ◌∷◌, ◌++◌, some,
  false, length, take, ◌==◌, inl, inr, Option-cases, Bool-cases,
}
use libstatgrab.Base.Bytes.{Bytes}
use libstatgrab.Tools.Strings.{
  Byte, nul, chr, cstr, fill, strlcpy, strlcat, sg_strnlen, strnlen_loop,
}

pub cstr_cons :
    (c : ℕ) (block : List Byte) (t : Bytes)
    → cstr block ≡ some t
    → cstr (chr c ∷ block) ≡ some (c ∷ t)
cstr_cons c block t h = ground arith

pub fill_lem :
    (room : ℕ) (src : Bytes) (block : List Byte)
    → room < length block
    → let (block', bad) = fill room src block in
      (cstr block' ≡ some (take room src)) × (bad ≡ false) × (length block' ≡ length block)
unfolding fill
fill_lem room src [] h = absurd (omega arith)
fill_lem zero src (b ∷ block) h = (refl, refl, refl)
fill_lem (suc room) [] (b ∷ block) h = (refl, refl, refl)
fill_lem (suc room) (c ∷ src) (b ∷ block) h =
    let (text, ok, l) = fill_lem room src block (omega arith) in
    (cstr_cons c (fill room src block).0 (take room src) text, ok, ap suc l)

-- `strlcpy` into a block of at least `siz` bytes, and of one or more, stays in the block, leaves the
-- first `siz - 1` characters of the source there with a NUL, and returns the length of the source.
pub strlcpy_lem :
    (dst : List Byte) (src : Bytes) (siz : ℕ)
    → 1 ≤ siz
    → siz ≤ length dst
    → let (rc, dst', bad) = strlcpy dst src siz in
      (rc ≡ length src)
      × (cstr dst' ≡ some (take (siz - 1) src))
      × (bad ≡ false)
      × (length dst' ≡ length dst)
unfolding strlcpy
strlcpy_lem dst src zero h g = absurd (omega arith)
strlcpy_lem dst src (suc room) h g =
    let (text, ok, l) = fill_lem room src dst (omega arith) in
    let e : room ≡ suc room - 1 = omega arith in (refl, text ∙ ap (λ n. some (take n src)) e, ok, l)

cstr_chr_inv :
    (c : ℕ) (block : List Byte) (text : Bytes)
    → cstr (chr c ∷ block) ≡ some text
    → (t : Bytes) × (cstr block ≡ some t) × (text ≡ c ∷ t)
cstr_chr_inv c block text h = elim (Option-cases (cstr block)) [
  | inl e ↦ absurd (ground arith)
  | inr (t, e) ↦ (t, e, ground arith)
]

-- `strlcat` to a string that ends within the first `siz` bytes of its block: it stays in the block,
-- leaves the first `siz - 1` characters of both strings joined, with a NUL, and returns the sum of
-- the two lengths.
pub strlcat_lem :
    (dst : List Byte) (text src : Bytes) (siz : ℕ)
    → cstr dst ≡ some text
    → length text < siz
    → siz ≤ length dst
    → let (rc, dst', bad) = strlcat dst src siz in
      (rc ≡ length text + length src)
      × (cstr dst' ≡ some (take (siz - 1) (text ++ src)))
      × (bad ≡ false)
      × (length dst' ≡ length dst)
unfolding strlcat
strlcat_lem dst text src zero e h g = absurd (omega arith)
strlcat_lem [] text src (suc siz) e h g = absurd (omega arith)
strlcat_lem (nul ∷ dst) [] src (suc siz) e h g =
    let (text', ok, l) = fill_lem siz src (nul ∷ dst) (omega arith) in
    let e1 : siz ≡ suc siz - 1 = omega arith in
    (omega arith, text' ∙ ap (λ n. some (take n src)) e1, ok, l)
strlcat_lem (nul ∷ dst) (c ∷ text) src (suc siz) e h g = absurd (ground arith)
strlcat_lem (chr c ∷ dst) [] src (suc siz) e h g =
    let (_, _, e2) = cstr_chr_inv c dst [] e in absurd (ground arith)
strlcat_lem (chr c ∷ dst) (d ∷ text) src (suc zero) e h g = absurd (omega arith)
strlcat_lem (chr c ∷ dst) (d ∷ text) src (suc (suc siz)) e h g =
    let (t, e1, e2) = cstr_chr_inv c dst (d ∷ text) e in
    let same : cstr dst ≡ some text = ground arith in
    let first : c ≡ d = ground arith in
    let (rc, text', ok, l) = strlcat_lem dst text src (suc siz) same (omega arith) (omega arith) in
    let p1 : suc siz - 1 ≡ siz = omega arith in
    let p2 : suc siz ≡ suc (suc siz) - 1 = omega arith in
    (
      omega (arith, rc),
      cstr_cons c (strlcat dst src (suc siz)).1 _ (text' ∙ ap (λ n. some (take n (text ++ src))) p1)
          ∙ ap (λ x. some (x ∷ take siz (text ++ src))) first
          ∙ ap (λ n. some (take n (d ∷ (text ++ src)))) p2,
      ok,
      ap suc l,
    )

strnlen_loop_lem :
    (s : Bytes) (maxlen n : ℕ) → n ≤ maxlen → strnlen_loop s maxlen n ≡ min (n + length s) maxlen
unfolding strnlen_loop
strnlen_loop_lem [] maxlen n h = omega arith
strnlen_loop_lem (c ∷ s) maxlen n h = elim (Bool-cases (maxlen == n)) [
  | inl e ↦ rw e (ground arith)
  | inr e ↦ rw e (omega (arith, strnlen_loop_lem s maxlen (n + 1) (ground arith)))
]

-- `sg_strnlen` is the length of the string, but at most `maxlen`.
pub strnlen_lem : (s : Bytes) (maxlen : ℕ) → sg_strnlen s maxlen ≡ min (length s) maxlen
unfolding sg_strnlen
strnlen_lem s maxlen = elim (Bool-cases (maxlen == 0)) [
  | inl e ↦ rw e (ground arith)
  | inr e ↦ rw e (omega (arith, strnlen_loop_lem s maxlen 0 (omega arith)))
]
