-- ===== src/Stdio/Pairs.antt =====
-- The loop by which src/libstatgrab/swap_stats.c and page_stats.c look for two figures: it ends with
-- the file, or once two lines matched.
pub mod Found
use libstatgrab.Base.{ℕ, ◌+◌, List, [], ◌∷◌, Option, none, some, length, ltb, if◌then◌else◌}
use libstatgrab.Base.Bytes.{Bytes}
use libstatgrab.Stdio.{strncmp_eq}

-- The two figures and the counter `matches`, which does not go beyond 2.
pub record Pair : Type 0 where
  pub first : ℕ
  pub second : ℕ
  pub matches : ℕ

-- `value` is what `sscanf` finds in a line, and what is made of it before it is stored.
module _ (value : Bytes → Option ℕ) (first_word second_word : Bytes) where
  unfoldable pub pair_store : Bytes → ℕ → Pair → Pair
  pair_store line x p =
      if strncmp_eq line first_word (length first_word)
      then record p { first = x; matches = p.matches + 1 }
      else if strncmp_eq line second_word (length second_word)
      then record p { second = x; matches = p.matches + 1 }
      else p

  unfoldable pub pair_step : Bytes → Pair → Pair
  pair_step line p = elim (value line) [ none ↦ p | some x ↦ pair_store line x p ]

  unfoldable pub pair_loop : List Bytes → Pair → Pair
  pair_loop [] p = p
  pair_loop (line ∷ lines) p =
      let rest = pair_loop lines (pair_step line p) in if ltb p.matches 2 then rest else p
