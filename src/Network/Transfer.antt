-- ===== src/Network/Transfer.antt =====
-- The differences of counters in src/libstatgrab/network_stats.c.
use libstatgrab.Base.{ℕ, ◌+◌, ◌%◌, ◌^◌, ◌<◌, ◌≤◌, ◌≡◌, arith, inl, inr, Bool-cases}
use libstatgrab.Network.{transfer_diff, signed_le}

-- Where a counter of 32 bits has advanced by `delta`, less than 2 ^ 32, the difference is `delta`, also
-- where the counter has wrapped around.
pub transfer_diff-wrap :
    (old delta : ℕ)
    → old < 2 ^ 32
    → delta < 2 ^ 32
    → transfer_diff ((old + delta) % 2 ^ 32) old ≡ delta
unfolding transfer_diff
transfer_diff-wrap old delta ho hd = elim (Bool-cases (signed_le old ((old + delta) % 2 ^ 32))) [
  | inl e ↦ rw e (let le : old ≤ (old + delta) % 2 ^ 32 = ground arith in omega arith)
  | inr e ↦ rw e (let lt : (old + delta) % 2 ^ 32 < old = ground arith in omega arith)
]

-- A counter of up to 63 bits that has not gone back is subtracted exactly.
pub transfer_diff_exact :
    (old delta : ℕ) → old + delta < 2 ^ 63 → transfer_diff (old + delta) old ≡ delta
unfolding transfer_diff
transfer_diff_exact old delta h = ground arith
