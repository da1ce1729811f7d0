-- ===== src/Vector/Sizes.antt =====
-- The arithmetic of block sizes: rounding up, the block shift, and the items that a block holds.
use native.Mathlib.Nat.{
  mul-div_cancel, div-add-mod', mod-lt, mod-eq_of_lt, div-le_self, one-le-pow, add-sub_cancel,
}
use libstatgrab.Base.{
  ℕ, zero, suc, ◌+◌, ◌-◌, ◌*◌, ◌/◌, ◌^◌, ◌≤◌, ◌<◌, ◌≡◌, refl, ap, ◌⊎◌, inl, inr, arith, ltb,
  Bool-cases, ltb→lt,
}
use libstatgrab.Base.Word.{u64_mod, add64, sub64, mul64}
use libstatgrab.Vector.{next_power2_in, shift_loop, block_size, items_of_block, vector_size}

-- Rounding up to a multiple of `p`.
round_up : (x p : ℕ) → 0 < p → 1 ≤ x → (x ≤ ((x - 1) / p + 1) * p) × (((x - 1) / p + 1) * p < x + p)
round_up x p hp hx = grind (arith, div-add-mod' (x - 1) p, mod-lt)

round_word :
    (x p : ℕ)
    → 0 < p
    → 1 ≤ x
    → x + p ≤ u64_mod
    → mul64 (add64 (sub64 x 1 / p) 1) p ≡ ((x - 1) / p + 1) * p
round_word x p hp hx hb =
    let e : sub64 x 1 ≡ x - 1 = omega arith in
    let d : add64 ((x - 1) / p) 1 ≡ (x - 1) / p + 1 = omega (arith, div-le_self (x - 1) p) in
    rw (e, d) (mod-eq_of_lt (omega (arith, round_up x p hp hx)))

-- `NEXT_POWER2_IN` rounds a count up to a multiple of its power of 2: the result is at least the
-- count and at least the power, less than the power above the count, and nothing wraps if the sum
-- of count and power is within a word. At the count 0 it wraps around to 0.
pub next_power2_in_lem :
    (x bs : ℕ)
    → 1 ≤ x
    → x + 2 ^ bs ≤ u64_mod
    → (next_power2_in x bs ≡ ((x - 1) / 2 ^ bs + 1) * 2 ^ bs)
      × (x ≤ next_power2_in x bs)
      × (2 ^ bs ≤ next_power2_in x bs)
      × (next_power2_in x bs < x + 2 ^ bs)
unfolding next_power2_in
next_power2_in_lem x bs hx hb =
    let hp = one-le-pow bs 2 (omega arith) in
    let u = round_up x (2 ^ bs) hp hx in
    let e = round_word x (2 ^ bs) hp hx hb in
    (e, omega (arith, e, u), rw e (grind arith), omega (arith, e, u))

shift_loop_from :
    (fuel b size : ℕ)
    → size ≤ 2 ^ 31
    → fuel + b ≡ 32
    → (b ≡ 0) ⊎ (2 ^ (b - 1) < size)
    → let bs = shift_loop fuel b size in
      (bs ≤ 31) × (size ≤ 2 ^ bs) × ((bs ≡ 0) ⊎ (2 ^ (bs - 1) < size))
unfolding shift_loop
shift_loop_from zero b size h e (inl z) = absurd (omega arith)
shift_loop_from zero b size h e (inr l) =
    let eb : b ≡ 32 = omega arith in absurd (omega (arith, ap (λ (k : ℕ). 2 ^ (k - 1)) eb))
shift_loop_from (suc fuel) b size h e low = elim (Bool-cases (ltb (2 ^ b) size)) [
  | inl more ↦ rw more (
      shift_loop_from fuel (b + 1) size h (omega arith)
        (inr (rw (add-sub_cancel b 1) (ltb→lt _ _ more))))
  | inr done ↦ rw done (omega arith, ground arith, low)
]

-- The loop of `sg_vector_create` ends within its 32 rounds for every block size up to 2 ^ 31, at the
-- least shift whose power of 2 is enough.
pub shift_loop_lem :
    (size : ℕ)
    → size ≤ 2 ^ 31
    → let bs = shift_loop 32 0 size in
      (bs ≤ 31) × (size ≤ 2 ^ bs) × ((bs ≡ 0) ⊎ (2 ^ (bs - 1) < size))
shift_loop_lem size h = shift_loop_from 32 0 size h refl (inl refl)

pub items-block :
    (r s : ℕ) → 0 < s → vector_size + r * s < u64_mod → items_of_block (block_size r s) s ≡ r
items-block r s hs h =
    let e : mul64 r s ≡ r * s = mod-eq_of_lt (omega arith) in
    let d : block_size r s - vector_size ≡ r * s = rw e (omega arith) in rw d (mul-div_cancel r hs)
