-- ===== src/Process/Counts.antt =====
-- `sg_get_process_count_int` counts every process once, under its state.
use libstatgrab.Base.{
  ℕ, zero, suc, ◌+◌, ◌≤◌, ◌<◌, ◌≡◌, refl, subst, sym, ◌∙◌, arith, List, [], ◌∷◌, some, length, take,
  get_elem?, get_elem?_exists, length-take,
}
use libstatgrab.Base.Word.{u64_mod, add64}
use libstatgrab.Error.{World}
use libstatgrab.Vector.{SgVector}
use libstatgrab.Vector.Grow.{IsValid}
use libstatgrab.Process.{
  ProcessState, running, sleeping, stopped, zombie, unknown, ProcessStats, ProcessCount,
  count_state, count_loop, fresh_count, sg_get_process_count_int,
}

-- The field for a state.
abbrev pub count_for : ProcessState → ProcessCount → ℕ
count_for running c = c.running_count
count_for sleeping c = c.sleeping_count
count_for stopped c = c.stopped_count
count_for zombie c = c.zombie_count
count_for unknown c = c.unknown_count

abbrev pub same_state : ProcessState → ProcessState → ℕ
same_state running running = 1
same_state sleeping sleeping = 1
same_state stopped stopped = 1
same_state zombie zombie = 1
same_state unknown unknown = 1
same_state _ _ = 0

-- The specification: how many processes of a list are in a state.
abbrev pub number_of : ProcessState → List ProcessStats → ℕ
number_of s [] = 0
number_of s (p ∷ ps) = same_state s p.state + number_of s ps

number_of_grows :
    (s : ProcessState) (k : ℕ) (ps : List ProcessStats) (p : ProcessStats)
    → get_elem? ps k ≡ some p
    → number_of s (take (suc k) ps) ≡ number_of s (take k ps) + same_state s p.state
number_of_grows s k [] p h = ground arith
number_of_grows s zero (x ∷ ps) p h =
    let e : x ≡ p = ground arith in
    subst (λ y. same_state s x.state + 0 ≡ 0 + same_state s y.state) e (omega arith)
number_of_grows s (suc k) (x ∷ ps) p h = omega (arith, number_of_grows s k ps p h)

add_one : (n : ℕ) → n + 1 < u64_mod → add64 n 1 ≡ n + 1
add_one n h = omega arith

count_for-count_state :
    (s t : ProcessState) (c : ProcessCount)
    → count_for s c + 1 < u64_mod
    → count_for s (count_state t c) ≡ count_for s c + same_state s t
count_for-count_state s t c h = ground arith

total-count_state :
    (t : ProcessState) (c : ProcessCount)
    → ((count_state t c).total ≡ c.total) × ((count_state t c).systime ≡ c.systime)
total-count_state t c = ground arith

same_state_le : (s t : ProcessState) → same_state s t ≤ 1
same_state_le s t = ground arith

one_state :
    (t : ProcessState)
    → same_state running t
        + same_state sleeping t
        + same_state stopped t
        + same_state zombie t
        + same_state unknown t
      ≡ 1
one_state t = ground arith

fresh_small :
    (s : ProcessState) (n time : ℕ) → n < u64_mod → count_for s (fresh_count n time) + n < u64_mod
fresh_small s n time h = ground arith

fresh_zero : (s : ProcessState) (n time k : ℕ) → count_for s (fresh_count n time) + k ≡ k
fresh_zero s n time k = ground arith

count_loop_step :
    (k : ℕ) (ps : List ProcessStats) (c : ProcessCount) (w : World) (p : ProcessStats)
    → get_elem? ps k ≡ some p
    → count_loop (suc k) ps c w ≡ count_loop k ps (count_state p.state c) w
unfolding count_loop
count_loop_step k ps c w p h = ground arith

-- What the loop adds to the counts, with `k` processes left.
abbrev Counted : ℕ → List ProcessStats → ProcessCount → World → ProcessCount × World → Type 0
Counted k ps c w out =
    (out.1 ≡ w)
    × (out.0.total ≡ c.total)
    × (out.0.systime ≡ c.systime)
    × ((s : ProcessState) → count_for s out.0 ≡ count_for s c + number_of s (take k ps))

count_loop_lem :
    (k : ℕ) (ps : List ProcessStats) (c : ProcessCount) (w : World)
    → k ≤ length ps
    → ((s : ProcessState) → count_for s c + k < u64_mod)
    → Counted k ps c w (count_loop k ps c w)
unfolding count_loop
count_loop_lem zero ps c w h small = (refl, refl, refl, λ s. omega arith)
count_loop_lem (suc k) ps c w h small =
    let (p, at) = get_elem?_exists ps k (omega arith) in
    let one = λ (s : ProcessState). count_for-count_state s p.state c (omega (arith, small s)) in
    let (total, time) = total-count_state p.state c in
    let (world, total', time', counts) =
      count_loop_lem k ps (count_state p.state c) w (omega arith)
        (λ s. omega (arith, one s, small s, same_state_le s p.state)) in
    subst (Counted (suc k) ps c w) (sym (count_loop_step k ps c w p at)) (
      world,
      total' ∙ total,
      time' ∙ time,
      λ s. omega (arith, counts s, one s, number_of_grows s k ps p at),
    )

-- Every process has one of the five states.
number_of_all :
    (ps : List ProcessStats)
    → number_of running ps
        + number_of sleeping ps
        + number_of stopped ps
        + number_of zombie ps
        + number_of unknown ps
      ≡ length ps
number_of_all [] = omega arith
number_of_all (p ∷ ps) = omega (arith, number_of_all ps, one_state p.state)

-- `sg_get_process_count_int` for a valid vector of one process or more, less than 2 ^ 64: the total is
-- the number of processes in use, each count is the number of processes in that state, so the
-- five counts add up to the total, and the time is that of the first process. Nothing outside
-- of the vector is read.
pub process_count_lem :
    (v : SgVector ProcessStats) (w : World)
    → IsValid v
    → 1 ≤ v.used_count
    → v.used_count < u64_mod
    → let (c, w') = sg_get_process_count_int v w in
      let ps = take v.used_count v.cells in
      (w' ≡ w)
      × (c.total ≡ v.used_count)
      × ((s : ProcessState) → count_for s c ≡ number_of s ps)
      × (c.running_count + c.sleeping_count + c.stopped_count + c.zombie_count + c.unknown_count
          ≡ c.total)
      × ((p : ProcessStats) → get_elem? v.cells 0 ≡ some p → c.systime ≡ p.systime)
unfolding sg_get_process_count_int
process_count_lem v w valid some_used small =
    let (p, at) = get_elem?_exists v.cells 0 (omega (arith, valid.used_in)) in
    let (world, total, time, counts) =
      count_loop_lem v.used_count v.cells (fresh_count v.used_count p.systime) w valid.used_in
        (λ s. fresh_small s v.used_count p.systime small) in
    let ps = take v.used_count v.cells in
    rw (at, sg_get_process_count_int)
      (
        world,
        total,
        λ s. counts s ∙ fresh_zero s v.used_count p.systime (number_of s ps),
        omega (
          arith,
          counts running,
          counts sleeping,
          counts stopped,
          counts zombie,
          counts unknown,
          total,
          number_of_all ps,
          length-take v.used_count v.cells,
          valid.used_in,
        ),
        λ q g. time ∙ ground arith,
      )
