-- ===== src/Stdio/Pairs/Found.antt =====
-- The two figures are those of the first two lines that begin with one of the words.
use libstatgrab.Base.{
  ℕ, zero, suc, ◌+◌, ◌-◌, ◌≡◌, refl, ap, sym, subst, ◌∙◌, arith, Bool, true, false, List, [], ◌∷◌,
  Option, none, some, ltb, take, ◌⊎◌, inl, inr, Bool-cases, if◌then◌else◌,
}
use libstatgrab.Base.Bytes.{Bytes}
use libstatgrab.Stdio.Prefixes.{begins}
use libstatgrab.Stdio.Pairs.{Pair, pair_store, pair_step, pair_loop}

-- What a line tells: a value for the first word (`true`) or for the second.
abbrev pub Hit : Type 0
Hit = Bool × ℕ

module _ (value : Bytes → Option ℕ) (first_word second_word : Bytes) where
  abbrev pub hit_of : Bytes → Option Hit
  hit_of line = elim (value line) [
    | none ↦ none
    | some x ↦
        if begins first_word line
        then some (true, x)
        else if begins second_word line
        then some (false, x)
        else none
  ]

  abbrev pub add_hit : Option Hit → List Hit → List Hit
  add_hit none hits = hits
  add_hit (some h) hits = h ∷ hits

  abbrev pub hits_of : List Bytes → List Hit
  hits_of [] = []
  hits_of (line ∷ lines) = add_hit (hit_of line) (hits_of lines)

abbrev pub apply_hit : Hit → Pair → Pair
apply_hit (true, x) p = record p { first = x; matches = p.matches + 1 }
apply_hit (false, x) p = record p { second = x; matches = p.matches + 1 }

abbrev apply_option : Option Hit → Pair → Pair
apply_option none p = p
apply_option (some h) p = apply_hit h p

abbrev apply_hits : List Hit → Pair → Pair
apply_hits [] p = p
apply_hits (h ∷ hits) p = apply_hits hits (apply_hit h p)

matches-apply_hit : (h : Hit) (p : Pair) → (apply_hit h p).matches ≡ p.matches + 1
matches-apply_hit (true, x) p = refl
matches-apply_hit (false, x) p = refl

-- What two figures the first two hits give, over zeroes; `none` where there are fewer hits.
abbrev pub pair_of : List Hit → Option (ℕ × ℕ)
pair_of [] = none
pair_of (h ∷ []) = none
pair_of ((true, x) ∷ (true, y) ∷ hits) = some (y, 0)
pair_of ((true, x) ∷ (false, y) ∷ hits) = some (x, y)
pair_of ((false, x) ∷ (true, y) ∷ hits) = some (y, x)
pair_of ((false, x) ∷ (false, y) ∷ hits) = some (0, y)

abbrev pub no_pair : Pair
no_pair = record { first = 0; second = 0; matches = 0 }

module _ (value : Bytes → Option ℕ) (first_word second_word : Bytes) where
  pair_step_lem :
      (line : Bytes) (p : Pair)
      → pair_step value first_word second_word line p
        ≡ apply_option (hit_of value first_word second_word line) p
  unfolding pair_step pair_store
  pair_step_lem line p = ground arith

  pair_loop_done :
      (lines : List Bytes) (p : Pair)
      → ltb p.matches 2 ≡ false
      → pair_loop value first_word second_word lines p ≡ p
  unfolding pair_loop
  pair_loop_done [] p h = refl
  pair_loop_done (line ∷ lines) p h = rw h

  take_done : (n : ℕ) (hits : List Hit) → ltb n 2 ≡ false → take (2 - n) hits ≡ []
  take_done n hits h = let e : 2 - n ≡ 0 = ground arith in ap (λ k. take k hits) e

  -- The step of the induction, for what the line tells.
  next_hit :
      (o : Option Hit) (hits : List Hit) (p : Pair)
      → ltb p.matches 2 ≡ true
      → apply_hits (take (2 - (apply_option o p).matches) hits) (apply_option o p)
        ≡ apply_hits (take (2 - p.matches) (add_hit value first_word second_word o hits)) p
  next_hit none hits p h = refl
  next_hit (some hit) hits p h =
      let e : 2 - p.matches ≡ suc (2 - (p.matches + 1)) = ground arith in
      ap (λ k. apply_hits (take (2 - k) hits) (apply_hit hit p)) (matches-apply_hit hit p)
      ∙ ap (λ k. apply_hits (take k (hit ∷ hits)) p) (sym e)

  take_none : (n : ℕ) → take {A = Hit} n [] ≡ []
  take_none zero = refl
  take_none (suc n) = refl

  pair_loop-hits :
      (lines : List Bytes) (p : Pair)
      → pair_loop value first_word second_word lines p
        ≡ apply_hits (take (2 - p.matches) (hits_of value first_word second_word lines)) p
  unfolding pair_loop
  pair_loop-hits [] p = ap (λ h. apply_hits h p) (sym (take_none (2 - p.matches)))
  pair_loop-hits (line ∷ lines) p = elim (Bool-cases (ltb p.matches 2)) [
    | inl more ↦ rw more (
        ap (pair_loop value first_word second_word lines) (pair_step_lem line p)
        ∙ pair_loop-hits lines (apply_option (hit_of value first_word second_word line) p)
        ∙ next_hit (hit_of value first_word second_word line)
            (hits_of value first_word second_word lines) p more)
    | inr done ↦ rw done (ap (λ h. apply_hits h p) (sym (take_done p.matches _ done)))
  ]

-- Two figures were found and both counted, or fewer than two counted.
abbrev pub FoundPair : List Hit → Pair → Type 0
FoundPair hits p =
    ((p.matches ≡ 2) × (pair_of hits ≡ some (p.first, p.second)))
    ⊎ ((ltb p.matches 2 ≡ true) × (pair_of hits ≡ none))

two_hits : (hits : List Hit) → FoundPair hits (apply_hits (take 2 hits) no_pair)
two_hits [] = inr (refl, refl)
two_hits ((true, x) ∷ []) = inr (refl, refl)
two_hits ((false, x) ∷ []) = inr (refl, refl)
two_hits ((true, x) ∷ (true, y) ∷ hits) = inl (refl, refl)
two_hits ((true, x) ∷ (false, y) ∷ hits) = inl (refl, refl)
two_hits ((false, x) ∷ (true, y) ∷ hits) = inl (refl, refl)
two_hits ((false, x) ∷ (false, y) ∷ hits) = inl (refl, refl)

-- From zeroes, the loop finds the two figures of the first two hits.
pub pair_loop_lem :
    (value : Bytes → Option ℕ) (first_word second_word : Bytes) (lines : List Bytes)
    → FoundPair
        (hits_of value first_word second_word lines)
        (pair_loop value first_word second_word lines no_pair)
pair_loop_lem value first_word second_word lines =
    let hits = hits_of value first_word second_word lines in
    subst (FoundPair hits) (sym (pair_loop-hits value first_word second_word lines no_pair))
      (two_hits hits)
