-- ===== src/Vector/Tests.antt =====
-- Vectors of numbered counters, for the theorems on vectors at concrete inputs.
use libstatgrab.Base.{
  ℕ, ◌≤◌, ◌<◌, ◌^◌, ◌⊎◌, ◌-◌, ◌≡◌, refl, arith, List, [], ◌∷◌, none, some, true, false, inr,
  compare, Ordering,
}
use libstatgrab.Error.{calm}
use libstatgrab.Error.Codes.{error_none}
use libstatgrab.Vector.{
  SgVector, VectorInfo, null, live, dangling, next_power2_in, shift_loop, sg_vector_create,
  sg_vector_resize, sg_vector_clear, sg_vector_destroy_unused,
}
use libstatgrab.Vector.Grow.{IsValid, Fits, Created, SameBlock, create_lem}
use libstatgrab.Vector.Resize.{resize_lem, Resized, clear_lem}
use libstatgrab.Vector.Sizes.{next_power2_in_lem, shift_loop_lem}
use libstatgrab.Vector.Clone.{CopyFn, sg_vector_clone, sg_vector_clone_into}
use libstatgrab.Vector.Copies.{Copies, clone_lem, Cloned}
use libstatgrab.Vector.Into.{clone_into_lem, clone_into_empty, ClonedInto, Refused}
use libstatgrab.Vector.Diff.{diff_items, no_bits, sg_vector_compute_diff}
use libstatgrab.Vector.Matching.{Keyed, diff_items_lem}
use libstatgrab.Vector.Differences.{
  compute_diff_new, compute_diff_again, compute_diff_empty, Differs,
}

abbrev Counter : Type 0
Counter = ℕ × ℕ

abbrev by_number : Counter → Counter → Ordering
by_number a b = compare a.0 b.0

abbrev less_last : Counter → Counter → Counter
less_last l d = (d.0, d.1 - l.1)

abbrev number : Counter → ℕ
number a = a.0

abbrev copy_counter : CopyFn Counter
copy_counter s d w = (error_none, s, w)

abbrev counter_info : VectorInfo Counter
counter_info = record {
  item_size = 16;
  init_fn = some (λ _. (0, 0));
  copy_fn = some copy_counter;
  compute_diff_fn = some less_last;
  compare_fn = some by_number;
  destroy_fn = none;
  raw = (99, 99);
}

abbrev vector_of : ℕ → List Counter → SgVector Counter
vector_of used cells = record {
  used_count = used;
  alloc_count = 2;
  block_shift = 1;
  info = counter_info;
  cells = cells;
}

abbrev current : SgVector Counter
current = vector_of 2 ((3, 50) ∷ (7, 20) ∷ [])

abbrev earlier : SgVector Counter
earlier = vector_of 1 ((7, 15) ∷ (0, 0) ∷ [])

current-IsValid : IsValid current
current-IsValid = record { used_in = omega arith; alloc_in = omega arith; sized = omega arith }

earlier-IsValid : IsValid earlier
earlier-IsValid = record { used_in = omega arith; alloc_in = omega arith; sized = omega arith }

counter-Keyed : Keyed by_number less_last number
counter-Keyed = record {
  eq_of_key = λ a b h. ground arith;
  key_of_eq = λ a b h. ground arith;
  key_kept = λ a b. refl;
}

counter-Copies : Copies (λ (x : Counter). x) copy_counter
counter-Copies = record { content_copied = λ s d w h. refl; clean = λ s d w. refl }

two-Fits : Fits 1 2 16
two-Fits = record {
  some_items = omega arith;
  count_fits = omega arith;
  item_sized = omega arith;
  bytes_fit = omega arith;
}

compute_diff_new_example :
    Differs by_number less_last number counter-Keyed copy_counter counter-Copies current earlier
      current-IsValid earlier-IsValid refl refl refl calm
      (sg_vector_compute_diff null (live current) (live earlier) calm)
compute_diff_new_example =
    compute_diff_new by_number less_last number counter-Keyed copy_counter counter-Copies current
      earlier current-IsValid earlier-IsValid refl refl refl calm two-Fits (tt, tt)
      ((λ e. absurd (omega arith), tt), (tt, tt))

compute_diff_again_example :
    let out = sg_vector_compute_diff (live earlier) (live current) (live earlier) calm in
    (Refused (λ x. x) copy_counter counter-Copies current current-IsValid refl earlier calm
      × (out.1 ≡ null))
    ⊎ Differs by_number less_last number counter-Keyed copy_counter counter-Copies current earlier
        current-IsValid earlier-IsValid refl refl refl calm out
compute_diff_again_example =
    compute_diff_again by_number less_last number counter-Keyed copy_counter counter-Copies current
      earlier current-IsValid earlier-IsValid refl refl refl earlier calm earlier-IsValid refl
      (inr two-Fits) (tt, tt) ((λ e. absurd (omega arith), tt), (tt, tt))

resize_lem_example : Resized earlier 2 calm (sg_vector_resize (live earlier) 2 calm)
resize_lem_example = resize_lem earlier 2 calm earlier-IsValid two-Fits

diff_items_lem_example :
    diff_items by_number less_last ((7, 15) ∷ []) (no_bits 1) ((3, 50) ∷ (7, 20) ∷ [])
    ≡ (3, 50) ∷ (7, 5) ∷ []
diff_items_lem_example =
    diff_items_lem by_number less_last number counter-Keyed ((7, 15) ∷ []) 1
      ((3, 50) ∷ (7, 20) ∷ []) (tt, tt) ((λ e. absurd (omega arith), tt), (tt, tt))

next_power2_in_lem_example :
    (next_power2_in 5 2 ≡ 8)
    × (5 ≤ next_power2_in 5 2)
    × (4 ≤ next_power2_in 5 2)
    × (next_power2_in 5 2 < 9)
next_power2_in_lem_example = next_power2_in_lem 5 2 (omega arith) (omega arith)

shift_loop_lem_example :
    let bs = shift_loop 32 0 5 in (bs ≤ 31) × (5 ≤ 2 ^ bs) × ((bs ≡ 0) ⊎ (2 ^ (bs - 1) < 5))
shift_loop_lem_example = shift_loop_lem 5 (omega arith)

create_lem_example :
    let bs = shift_loop 32 0 2 in
    (2 ≤ 2 ^ bs)
    × ((bs ≡ 0) ⊎ (2 ^ (bs - 1) < 2))
    × Created bs 2 2 counter_info calm (sg_vector_create 2 0 2 counter_info calm)
unfolding shift_loop
create_lem_example = create_lem 2 0 2 counter_info calm (omega arith) two-Fits

clone_lem_example :
    Cloned
      (λ x. x)
      copy_counter
      counter-Copies
      current
      current-IsValid
      refl
      calm
      (sg_vector_clone (live current) calm)
clone_lem_example =
    clone_lem (λ x. x) copy_counter counter-Copies current current-IsValid refl calm two-Fits

clone_into_lem_example :
    let out = sg_vector_clone_into (live earlier) (live current) calm in
    (Refused (λ x. x) copy_counter counter-Copies current current-IsValid refl earlier calm
      × (out.1 ≡ null)
      × (out.2.fault ≡ true))
    ⊎ ClonedInto (λ x. x) copy_counter counter-Copies current current-IsValid refl calm out
clone_into_lem_example =
    clone_into_lem (λ x. x) copy_counter counter-Copies current current-IsValid refl earlier calm
      earlier-IsValid refl (inr two-Fits)

clone_into_empty_example :
    let (rc, p, w') = sg_vector_clone_into (live earlier) (live (vector_of 0 [])) calm in
    (rc ≡ error_none) × (p ≡ dangling) × (w'.fault ≡ false)
clone_into_empty_example =
    clone_into_empty earlier (vector_of 0 []) calm earlier-IsValid (λ e. absurd (omega arith)) refl

compute_diff_empty_example :
    let (rc, p, w') =
      sg_vector_compute_diff (live earlier) (live (vector_of 0 [])) (live current) calm in
    (rc ≡ error_none) × (p ≡ dangling) × (w'.fault ≡ true)
compute_diff_empty_example =
    compute_diff_empty earlier (vector_of 0 []) current calm earlier-IsValid
      (λ e. absurd (omega arith)) refl

clear_lem_example :
    let v' = (sg_vector_destroy_unused current 0 calm).0 in
    (sg_vector_clear (live current) calm ≡ (live v', calm))
    × IsValid v'
    × (v'.used_count ≡ 0)
    × SameBlock current v'
clear_lem_example = clear_lem current calm current-IsValid
