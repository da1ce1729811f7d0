-- ===== src/Base/Word.antt =====
-- `size_t`, `unsigned long long` and `time_t` arithmetic of an LP64 machine: 64 bits, wrapping.
use Prim.Native.Nat.{ℕ, ◌+◌, ◌-◌, ◌*◌, ◌%◌, ◌^◌, ◌<◌, ◌≤◌}
use mathlib.Core.Path.{◌≡◌}
use native.Mathlib.Omega.{arith}

abbrev pub u64_mod : ℕ
u64_mod = 2 ^ 64

abbrev pub add64 : ℕ → ℕ → ℕ
add64 a b = (a + b) % u64_mod

-- `-` on ℕ stops at 0, so the modulus is added first. It is the C subtraction of two words.
abbrev pub sub64 : ℕ → ℕ → ℕ
sub64 a b = (a + u64_mod - b) % u64_mod

abbrev pub mul64 : ℕ → ℕ → ℕ
mul64 a b = a * b % u64_mod

pub sub64-add64 : (a b : ℕ) → a < u64_mod → b < u64_mod → sub64 (add64 a b) b ≡ a
sub64-add64 a b ha hb = omega arith

pub sub64_exact : (a b : ℕ) → a < u64_mod → b ≤ a → sub64 a b ≡ a - b
sub64_exact a b ha h = omega arith
