-- ===== src/Vector/Cells.antt =====
-- The loops of src/libstatgrab/vector.c that destroy and initialise items: within the block they
-- touch only their own items and fault nowhere.
use libstatgrab.Base.{
  ℕ, zero, suc, ◌+◌, ◌≤◌, ◌<◌, ◌≡◌, refl, ap, sym, ◌∙◌, arith, dec_lt, List, some, lt→ltb, length,
  take, get_elem?, modify, length-modify, take-modify, get_elem?-modify_self, get_elem?-modify_ne,
  get_elem?_exists,
}
use libstatgrab.Error.{World}
use libstatgrab.Vector.{touch, init_loop, destroy_loop}

module _ {T : Type 0} (f : T → T) where
  touch_in :
      (i : ℕ) (cells : List T) (w : World)
      → i < length cells
      → touch f i cells w ≡ (modify cells i f, w)
  unfolding touch
  touch_in i cells w h = rw (lt→ltb i (length cells) h)

  init_loop_step :
      (k i : ℕ) (cells : List T) (w : World)
      → i < length cells
      → init_loop f (suc k) i cells w ≡ init_loop f k (i + 1) (modify cells i f) w
  unfolding init_loop
  init_loop_step k i cells w h = ap (λ p. init_loop f k (i + 1) p.0 p.1) (touch_in i cells w h)

  pub init_loop-world :
      (k i : ℕ) (cells : List T) (w : World)
      → i + k ≤ length cells
      → (init_loop f k i cells w).1 ≡ w
  unfolding init_loop
  init_loop-world zero i cells w h = refl
  init_loop-world (suc k) i cells w h =
      ap (λ p. p.1) (init_loop_step k i cells w (omega arith))
      ∙ init_loop-world k (i + 1) (modify cells i f) w (omega (arith, length-modify cells i f))

  pub length-init_loop :
      (k i : ℕ) (cells : List T) (w : World)
      → i + k ≤ length cells
      → length (init_loop f k i cells w).0 ≡ length cells
  unfolding init_loop
  length-init_loop zero i cells w h = refl
  length-init_loop (suc k) i cells w h =
      ap (λ p. length p.0) (init_loop_step k i cells w (omega arith))
      ∙ length-init_loop k (i + 1) (modify cells i f) w (omega (arith, length-modify cells i f))
      ∙ length-modify cells i f

  -- The items before the first one are kept.
  pub take-init_loop :
      (n k i : ℕ) (cells : List T) (w : World)
      → i + k ≤ length cells
      → n ≤ i
      → take n (init_loop f k i cells w).0 ≡ take n cells
  unfolding init_loop
  take-init_loop n zero i cells w h le = refl
  take-init_loop n (suc k) i cells w h le =
      ap (λ p. take n p.0) (init_loop_step k i cells w (omega arith))
      ∙ take-init_loop n k (i + 1) (modify cells i f) w (omega (arith, length-modify cells i f))
          (omega arith)
      ∙ take-modify n cells i f le

  pub get-init_loop_before :
      (k i j : ℕ) (cells : List T) (w : World)
      → i + k ≤ length cells
      → j < i
      → get_elem? (init_loop f k i cells w).0 j ≡ get_elem? cells j
  unfolding init_loop
  get-init_loop_before zero i j cells w h lt = refl
  get-init_loop_before (suc k) i j cells w h lt =
      ap (λ p. get_elem? p.0 j) (init_loop_step k i cells w (omega arith))
      ∙ get-init_loop_before k (i + 1) j (modify cells i f) w
          (omega (arith, length-modify cells i f)) (omega arith)
      ∙ get_elem?-modify_ne cells i j f (omega arith)

  -- Each item of the range is what `f` makes of the memory that stood there.
  pub get-init_loop :
      (k i j : ℕ) (cells : List T) (w : World)
      → i + k ≤ length cells
      → i ≤ j
      → j < i + k
      → (x : T) × (get_elem? cells j ≡ some x)
        × (get_elem? (init_loop f k i cells w).0 j ≡ some (f x))
  get-init_loop zero i j cells w h le lt = absurd (omega arith)
  get-init_loop (suc k) i j cells w h le lt = elim (dec_lt i j) [
    | yes p ↦
        let (x, e, g) =
          get-init_loop k (i + 1) j (modify cells i f) w (omega (arith, length-modify cells i f))
            (omega arith) (omega arith) in
        (
          x,
          sym (get_elem?-modify_ne cells i j f (omega arith)) ∙ e,
          ap (λ p. get_elem? p.0 j) (init_loop_step k i cells w (omega arith)) ∙ g,
        )
    | no p ↦
        let e : i ≡ j = omega arith in
        let (x, g) = get_elem?_exists cells i (omega arith) in
        rw (← e) (
          x,
          g,
          ap (λ p. get_elem? p.0 i) (init_loop_step k i cells w (omega arith))
              ∙ get-init_loop_before k (i + 1) i (modify cells i f) w
                  (omega (arith, length-modify cells i f)) (omega arith)
              ∙ get_elem?-modify_self cells i f x g,
        )
  ]

  destroy_loop_step :
      (k n : ℕ) (cells : List T) (w : World)
      → n + k < length cells
      → destroy_loop f (suc k) n cells w ≡ destroy_loop f k n (modify cells (n + k) f) w
  unfolding destroy_loop
  destroy_loop_step k n cells w h =
      ap (λ p. destroy_loop f k n p.0 p.1) (touch_in (n + k) cells w h)

  pub destroy_loop-world :
      (k n : ℕ) (cells : List T) (w : World)
      → n + k ≤ length cells
      → (destroy_loop f k n cells w).1 ≡ w
  unfolding destroy_loop
  destroy_loop-world zero n cells w h = refl
  destroy_loop-world (suc k) n cells w h =
      ap (λ p. p.1) (destroy_loop_step k n cells w (omega arith))
      ∙ destroy_loop-world k n (modify cells (n + k) f) w
          (omega (arith, length-modify cells (n + k) f))

  pub length-destroy_loop :
      (k n : ℕ) (cells : List T) (w : World)
      → n + k ≤ length cells
      → length (destroy_loop f k n cells w).0 ≡ length cells
  unfolding destroy_loop
  length-destroy_loop zero n cells w h = refl
  length-destroy_loop (suc k) n cells w h =
      ap (λ p. length p.0) (destroy_loop_step k n cells w (omega arith))
      ∙ length-destroy_loop k n (modify cells (n + k) f) w
          (omega (arith, length-modify cells (n + k) f))
      ∙ length-modify cells (n + k) f

  -- The items that stay are kept.
  pub take-destroy_loop :
      (k n : ℕ) (cells : List T) (w : World)
      → n + k ≤ length cells
      → take n (destroy_loop f k n cells w).0 ≡ take n cells
  unfolding destroy_loop
  take-destroy_loop zero n cells w h = refl
  take-destroy_loop (suc k) n cells w h =
      ap (λ p. take n p.0) (destroy_loop_step k n cells w (omega arith))
      ∙ take-destroy_loop k n (modify cells (n + k) f) w
          (omega (arith, length-modify cells (n + k) f))
      ∙ take-modify n cells (n + k) f (omega arith)
