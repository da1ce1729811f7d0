-- ===== src/Vector/Append/Tests.antt =====
-- A loop that appends the numbers of a list to no vector.
use libstatgrab.Base.{ℕ, refl, arith, ◌≡◌, none, some, Option, [], ◌∷◌, inr}
use libstatgrab.Error.{World, calm}
use libstatgrab.Error.Codes.{SgError, error_none}
use libstatgrab.Vector.{VectorInfo, null}
use libstatgrab.Vector.Append.{append_loop}
use libstatgrab.Vector.Append.Plenty.{AllAppended, append_loop-plenty}

abbrev cleared : ℕ → ℕ
cleared x = 0

abbrev number_info : VectorInfo ℕ
number_info = record {
  item_size = 8;
  init_fn = some cleared;
  copy_fn = none;
  compute_diff_fn = none;
  compare_fn = none;
  destroy_fn = none;
  raw = 7;
}

abbrev store_number : ℕ → Option (ℕ → World → SgError × ℕ × World)
store_number n = some (λ x w. (error_none, n, w))

abbrev Plenty : World → Type 0
Plenty w = w.oom ≡ []

append_loop-plenty_example :
    AllAppended number_info cleared refl 0 store_number
      (λ a b. a ≡ b)
      (λ n. some n)
      Plenty
      (λ w h. h)
      (4 ∷ 9 ∷ [])
      []
      (append_loop number_info store_number (4 ∷ 9 ∷ []) 0 null calm)
append_loop-plenty_example =
    append_loop-plenty number_info cleared refl 0 store_number (λ a b. a ≡ b) (λ n. some n) Plenty
      (λ w h. h) (4 ∷ 9 ∷ []) 0 [] null calm
      (λ r. inr ((λ x w. (error_none, r, w)), r, refl, refl, λ x w h. (refl, refl, h))) refl
      (refl, refl, refl)
      (record { count_fits = omega arith; item_sized = omega arith; bytes_fit = omega arith })
