-- ===== src/Load.antt =====
-- src/libstatgrab/load_stats.c with `getloadavg`. `A` is the type of floating point numbers.
use libstatgrab.Base.{ℕ}
use libstatgrab.Error.{World}
use libstatgrab.Error.Codes.{SgError, error_none}

-- `sg_load_stats`
pub record LoadStats (A : Type 0) : Type 0 where
  pub min1 : A
  pub min5 : A
  pub min15 : A
  pub systime : ℕ

-- `sg_get_load_stats_int`, where the array has these numbers after `getloadavg`, of which the result is not
-- looked at, and `time` returns `now`.
unfoldable pub sg_get_load_stats_int :
    {A : Type 0} → A × A × A → ℕ → LoadStats A → World → SgError × LoadStats A × World
sg_get_load_stats_int (a, b, c) now s w =
    (error_none, record { min1 = a; min5 = b; min15 = c; systime = now }, w)
