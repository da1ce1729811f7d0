-- ===== src/Cpu/Percents/Sources.antt =====
-- What `sg_get_cpu_percents_of` makes its percentages from, and the entries that it reports.
use libstatgrab.Base.{ℕ, ◌≡◌, refl, ap, subst, ◌∙◌, some, true, inl, inr, modify}
use libstatgrab.Base.{get_elem?-modify_self, length-modify, arith}
use libstatgrab.Error.{World, no_error}
use libstatgrab.Error.Codes.{SgError, error_none}
use libstatgrab.Vector.{SgVector, VectorInfo, VecPtr, null, live, sg_get_nelements}
use libstatgrab.Access.{Slots, Answer, or_create, easy_access}
use libstatgrab.Access.Items.{Holds, Diffed, easy_diff_lem}
use libstatgrab.Cpu.{CpuStats, cpu_subtract, sg_get_cpu_stats_diff_int}
use libstatgrab.Cpu.Percents.{
  entire_cpu_percent, last_diff_cpu_percent, new_diff_cpu_percent, CpuSlots, Percents, Chosen,
  diff_items_of, source_of, fill_percents, with_chosen, new_diff, entire, last_diff, choose_stats,
  percents_run, sg_get_cpu_percents_of,
}

abbrev given : SgVector CpuStats → Slots CpuStats → Chosen
given v s = record { vector = live v; cs_ptr = null; slots = s }

module _ {P : Type 0} (percents_int : CpuStats → P → P) (info : VectorInfo CpuStats)
    (percent_info : VectorInfo P) (fn_int : CpuStats → World → SgError × CpuStats × World) where
  -- Percentages of `x`, with `count` entries, and the slots of the statistics afterwards.
  abbrev pub MadeFrom : CpuStats → P → ℕ → Percents P × CpuSlots P × World → Type 0
  MadeFrom x y count out =
      (p : SgVector P) × (out.0 ≡ record { usage = live p; stored = some count })
      × (out.1.percent ≡ live p)
      × Holds p (percents_int x y)

  fill_lem :
      (p : SgVector P) (y : P) (v : SgVector CpuStats) (x : CpuStats) (count : ℕ) (w : World)
      → Holds p y
      → Holds v x
      → let p' = record p { cells = modify p.cells 0 (percents_int x) } in
        (fill_percents percents_int p (live v) count w
          ≡ (record { usage = live p'; stored = some count }, live p', w))
        × Holds p' (percents_int x y)
  unfolding fill_percents
  fill_lem p y v x count w holds v_holds =
      let l = length-modify p.cells 0 (percents_int x) in
      (
        rw (v_holds.item, fill_percents) refl,
        record {
          valid = record {
            used_in = omega (arith, l, holds.valid);
            alloc_in = omega (arith, l, holds.valid);
            sized = holds.valid.sized;
          };
          one_item = holds.one_item;
          item = get_elem?-modify_self p.cells 0 (percents_int x) y holds.item;
        },
      )

  chosen_lem :
      (p : SgVector P) (y : P) (c : Chosen) (v : SgVector CpuStats) (x : CpuStats) (w : World)
      → Holds p y
      → Holds v x
      → source_of c ≡ live v
      → MadeFrom x y (sg_get_nelements c.vector) (with_chosen percents_int p (c, w))
  unfolding with_chosen
  chosen_lem p y c v x w holds v_holds e =
      let (filled, held) = fill_lem p y v x (sg_get_nelements c.vector) w holds v_holds in
      let out = ap (λ q. fill_percents percents_int p q (sg_get_nelements c.vector) w) e ∙ filled in
      rw out (_, refl, refl, held)

  -- `sg_get_cpu_percents_of` where the vector asked for is there, with one item, and the vector of
  -- percentages too: for all statistics since the start and for the last difference, the
  -- percentages are made from that item, 1 entry is reported, and the statistics stay as they are.
  pub percents_of_given :
      (v : SgVector CpuStats) (x : CpuStats) (other : VecPtr CpuStats) (p : SgVector P) (y : P)
      (w : World)
      → Holds v x
      → Holds p y
      → let slots : Slots CpuStats = record { now = live v; diff = other } in
        let last : Slots CpuStats = record { now = other; diff = live v } in
        let out =
          sg_get_cpu_percents_of percents_int info percent_info fn_int entire_cpu_percent
            (record { stats = slots; percent = live p })
            w in
        let out' =
          sg_get_cpu_percents_of percents_int info percent_info fn_int last_diff_cpu_percent
            (record { stats = last; percent = live p })
            w in
        MadeFrom x y 1 out × (out.1.stats ≡ slots) × MadeFrom x y 1 out' × (out'.1.stats ≡ last)
  unfolding sg_get_cpu_percents_of percents_run choose_stats entire last_diff or_create with_chosen
  percents_of_given v x other p y w v_holds holds =
      let slots : Slots CpuStats = record { now = live v; diff = other } in
      let last : Slots CpuStats = record { now = other; diff = live v } in
      let made = λ (s : Slots CpuStats).
        subst (λ n. MadeFrom x y n (with_chosen percents_int p (given v s, w))) v_holds.one_item
          (chosen_lem p y (given v s) v x w holds v_holds refl) in
      (made slots, refl, made last, refl)

  new_diff_lem :
      (p : SgVector P) (y : P) (x x' : CpuStats) (w : World)
      (out : Answer CpuStats × Slots CpuStats × World)
      → Holds p y
      → Diffed info fn_int diff_items_of x' (error_none, cpu_subtract x' x, w) out
      → MadeFrom (cpu_subtract x' x) y 0 (
          with_chosen percents_int p
            (record { vector = null; cs_ptr = out.0.stats; slots = out.1 }, out.2))
  new_diff_lem p y x x' w (a, slots, w') holds (now', d', _, _, held, _, inl (_, e, _, _)) =
      chosen_lem p y (record { vector = null; cs_ptr = a.stats; slots = slots }) d'
        (cpu_subtract x' x) w' holds held
        (ap (λ q. source_of (record { vector = null; cs_ptr = q.stats; slots = slots })) e)
  new_diff_lem p y x x' w (a, slots, w') holds (now', d', _, _, held, _, inr (bad, _)) = absurd (cc)

  -- `sg_get_cpu_percents_of` for a new difference, where all vectors are there with one item and the
  -- reader reports no error: the percentages are made from the difference of the new statistics to
  -- those before, but 0 entries are reported with them.
  pub percents_of_new :
      (now d : SgVector CpuStats) (x old : CpuStats) (p : SgVector P) (y : P) (w : World)
      → Holds now x
      → Holds d old
      → Holds p y
      → no_error (fn_int x w).0 ≡ true
      → MadeFrom (cpu_subtract (fn_int x w).1 x) y 0 (
          sg_get_cpu_percents_of percents_int info percent_info fn_int new_diff_cpu_percent
            (record { stats = record { now = live now; diff = live d }; percent = live p })
            w)
  unfolding sg_get_cpu_percents_of percents_run choose_stats new_diff or_create diff_items_of
      sg_get_cpu_stats_diff_int
  percents_of_new now d x old p y w holds d_holds p_holds ok =
      new_diff_lem p y x (fn_int x w).1 (easy_access info fn_int (live now) w).2 _ p_holds
        (easy_diff_lem info fn_int diff_items_of now d x old w holds d_holds ok)
