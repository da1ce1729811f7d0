-- ===== src/Cpu/Reader/Counters.antt =====
-- The counters that `sg_get_cpu_stats_int` finds in /proc/stat.
use libstatgrab.Base.{
  ℕ, zero, suc, ◌+◌, ◌-◌, ◌≡◌, ◌<◌, refl, ap, sym, subst, ◌∙◌, arith, true, false, List, [], ◌∷◌,
  Option, none, some, not, length, take, ltb, ◌==◌, ◌⊎◌, inl, inr, Bool-cases, Option-cases,
  if◌then◌else◌,
}
use libstatgrab.Base.Word.{add64}
use libstatgrab.Base.Bytes.{Bytes, codes}
use libstatgrab.Error.{World}
use libstatgrab.Error.Codes.{SgError, error_none, error_open, error_parse}
use libstatgrab.Stdio.{Stream, refused, opened, after_reads, lines_of}
use libstatgrab.Stdio.Failures.{Failed, set-Failed, set_with_errno-Failed, after_reads_lem}
use libstatgrab.Cpu.{CpuStats, no_cpu_stats}
use libstatgrab.Cpu.Reader.Entries.{
  cpu_numbers-of, word_of, line_word_lem, Entry, entries, good, good-wrong, all_good, apply_entries,
  CountersOf, apply_entries-CountersOf,
}
use libstatgrab.Cpu.Reader.{
  CpuWord, word_text, line_word, cpu_numbers, cpu_store, cpu_wrong, passed, counted, wrong,
  cpu_line, CpuLoop, cpu_next, cpu_loop, cpu_end, cpu_buf_size, sg_get_cpu_stats_int,
}

-- What the loop does with the entries it comes to: the counters, how many lines matched, and the word of a
-- line that could not be read.
abbrev run : List Entry → CpuStats → ℕ → CpuStats × ℕ × Option CpuWord
run [] s m = (s, m, none)
run ((k, ns) ∷ es) s m =
    let rest = run es (cpu_store k ns s) (m + 1) in
    if cpu_wrong k (length ns) then (cpu_store k ns s, m, some k) else rest

abbrev seen : CpuLoop → CpuStats × ℕ × Option CpuWord
seen l = (l.stats, l.matched, l.bad)

take_none : (n : ℕ) → take {A = Entry} n [] ≡ []
take_none zero = refl
take_none (suc n) = refl

cpu_line-none :
    (line : Bytes) (s : CpuStats) → line_word line ≡ none → cpu_line line s ≡ (s, passed)
unfolding cpu_line
cpu_line-none line s e = rw (e, cpu_line) refl

cpu_line-some :
    (line : Bytes) (k : CpuWord) (s : CpuStats)
    → line_word line ≡ some k
    → cpu_line line s ≡ (
      cpu_store k (cpu_numbers k line) s,
      if cpu_wrong k (length (cpu_numbers k line)) then wrong k else counted,
    )
unfolding cpu_line
cpu_line-some line k s e = rw (e, cpu_line) refl

-- The loop reads the entries of the lines, up to four in all.
cpu_loop-run :
    (lines : List Bytes) (s : CpuStats) (m : ℕ)
    → seen (cpu_loop lines s m) ≡ run (take (4 - m) (entries lines)) s m
unfolding cpu_loop cpu_next
cpu_loop-run [] s m = ap (λ es. run es s m) (sym (take_none (4 - m)))
cpu_loop-run (line ∷ lines) s m = elim (Bool-cases (ltb m 4)) [
  | inl more ↦ elim (Option-cases (line_word line)) [
    | inl e ↦
        rw (more, cpu_line-none line s e, sym (line_word_lem line) ∙ e) (cpu_loop-run lines s m)
    | inr (k, e) ↦
        let word : word_of line ≡ some k = sym (line_word_lem line) ∙ e in
        let left : 4 - m ≡ suc (4 - (m + 1)) = ground arith in
        elim (Bool-cases (cpu_wrong k (length (cpu_numbers k line)))) [
          | inl bad ↦
              rw (more, cpu_line-some line k s e, word, left, bad, sym (cpu_numbers-of k line))
                (rw bad refl)
          | inr ok ↦
              rw (more, cpu_line-some line k s e, word, left, ok, sym (cpu_numbers-of k line))
                (rw ok (cpu_loop-run lines (cpu_store k (cpu_numbers k line) s) (m + 1)))
        ]
  ]
  | inr done ↦ let left : 4 - m ≡ 0 = ground arith in rw (done, left)
]

run-all_good :
    (es : List Entry) (s : CpuStats) (m : ℕ)
    → all_good es ≡ true
    → run es s m ≡ (apply_entries es s, m + length es, none)
run-all_good [] s m h = let e : m + 0 ≡ m = omega arith in rw e
run-all_good ((k, ns) ∷ es) s m h = elim (Bool-cases (cpu_wrong k (length ns))) [
  | inl bad ↦
      let fails : good (k, ns) ≡ false = good-wrong k ns ∙ ap not bad in ground (arith, h, fails)
  | inr ok ↦
      let fits : good (k, ns) ≡ true = good-wrong k ns ∙ ap not ok in
      let rest : all_good es ≡ true = ground (arith, h, fits) in
      let count : (m + 1) + length es ≡ m + suc (length es) = omega arith in
      rw (ok, run-all_good es (cpu_store k ns s) (m + 1) rest, count)
]

run-bad :
    (es : List Entry) (s : CpuStats) (m : ℕ)
    → all_good es ≡ false
    → (k : CpuWord) × ((run es s m).2 ≡ some k)
run-bad [] s m h = cc
run-bad ((k, ns) ∷ es) s m h = elim (Bool-cases (cpu_wrong k (length ns))) [
  | inl bad ↦ rw bad (k, refl)
  | inr ok ↦
      let fits : good (k, ns) ≡ true = good-wrong k ns ∙ ap not ok in
      let rest : all_good es ≡ false = ground (arith, h, fits) in
      rw ok (run-bad es (cpu_store k ns s) (m + 1) rest)
]

-- The counters of four entries or fewer, or a failure where one of them has too few numbers or there is
-- none.
abbrev pub CpuRead : List Entry → ℕ → World → SgError × CpuStats × World → Type 0
CpuRead es now w out =
    ((all_good es ≡ true)
      × (0 < length es)
      × (out.0 ≡ error_none)
      × CountersOf es no_cpu_stats out.1
      × (out.1.total ≡ add64 (add64 (add64 out.1.user out.1.nice) out.1.kernel) out.1.idle)
      × (out.1.systime ≡ now)
      × (out.2.fault ≡ w.fault))
    ⊎ (((all_good es ≡ false) ⊎ (es ≡ [])) × Failed error_parse 0 w (out.0, out.2))

cpu_end-good :
    (es : List Entry) (l : CpuLoop) (now : ℕ) (w : World)
    → all_good es ≡ true
    → l.stats ≡ apply_entries es no_cpu_stats
    → l.matched ≡ length es
    → l.bad ≡ none
    → CpuRead es now w (cpu_end l now w)
unfolding cpu_end
cpu_end-good [] l now w h stats count fine =
    let zero_matched : (l.matched == 0) ≡ true = ground (arith, count) in
    rw (fine, zero_matched)
      (inr (
        inr refl,
        set-Failed error_parse
            (codes "all from 'cpu', 'intr', 'ctxt', 'softirq' missing from '/proc/stat'") w,
      ))
cpu_end-good (e ∷ es) l now w h stats count fine =
    let some_matched : (l.matched == 0) ≡ false = ground (arith, count) in
    rw (fine, some_matched)
      (inl (
        h,
        omega arith,
        refl,
        subst (λ s. CountersOf (e ∷ es) no_cpu_stats s) (sym stats)
            (apply_entries-CountersOf (e ∷ es) no_cpu_stats),
        refl,
        refl,
        refl,
      ))

cpu_end_lem :
    (es : List Entry) (l : CpuLoop) (now : ℕ) (w : World)
    → seen l ≡ run es no_cpu_stats 0
    → CpuRead es now w (cpu_end l now w)
unfolding cpu_end
cpu_end_lem es l now w is = elim (Bool-cases (all_good es)) [
  | inl h ↦
      let all = is ∙ run-all_good es no_cpu_stats 0 h in
      cpu_end-good es l now w h (ap (λ (o : CpuStats × ℕ × Option CpuWord). o.0) all)
        (omega (arith, ap (λ (o : CpuStats × ℕ × Option CpuWord). o.1) all))
        (ap (λ (o : CpuStats × ℕ × Option CpuWord). o.2) all)
  | inr h ↦
      let (k, found) = run-bad es no_cpu_stats 0 h in
      let bad : l.bad ≡ some k = ap (λ (o : CpuStats × ℕ × Option CpuWord). o.2) is ∙ found in
      rw bad (inr (inl h, set-Failed error_parse (word_text k) w))
]

-- The world of the end does not matter but for its flag.
CpuRead-world :
    (es : List Entry) (now : ℕ) (w w1 : World) (out : SgError × CpuStats × World)
    → w1.fault ≡ w.fault
    → CpuRead es now w1 out
    → CpuRead es now w out
CpuRead-world es now w w1 out same (inl (h, g, ok, counters, total, time, fault)) =
    inl (h, g, ok, counters, total, time, fault ∙ same)
CpuRead-world es now w w1 out same (inr (why, (rc, code, number, fault))) =
    inr (why, (rc, code, number, fault ∙ same))

-- The first four lines of /proc/stat that begin with `cpu`, `intr`, `ctxt` or `softirq` and a blank.
abbrev pub cpu_entries : Stream → List Entry
cpu_entries f = take 4 (entries (lines_of cpu_buf_size f.text))

-- `sg_get_cpu_stats_int` where /proc/stat is opened: of the first four lines that begin with `cpu`, `intr`,
-- `ctxt` or `softirq` and a blank, those of `cpu` have four or five numbers, of which `sscanf` reads no more, and the others one. Then there is no
-- error, every counter is the last number in its place after its word, or 0, and the total is the sum of
-- those for user, nice, kernel and idle, modulo 2 ^ 64. Where one of these lines has fewer numbers, or there
-- is no such line, `SG_ERROR_PARSE` is returned and set. Where the file is not opened, `SG_ERROR_OPEN` is, and
-- the counters are cleared.
pub cpu_stats_lem :
    (f : Stream) (e now : ℕ) (s : CpuStats) (w : World)
    → CpuRead (cpu_entries f) now w (sg_get_cpu_stats_int (opened f) now s w)
      × (let (rc, s', w') = sg_get_cpu_stats_int (refused e) now s w in
          (s' ≡ no_cpu_stats) × Failed error_open e w (rc, w'))
unfolding sg_get_cpu_stats_int
cpu_stats_lem f e now s w =
    let l = cpu_loop (lines_of cpu_buf_size f.text) no_cpu_stats 0 in
    let w1 : World = if l.at_end then after_reads f w else w in
    let same : w1.fault ≡ w.fault = elim (Bool-cases l.at_end) [
      | inl h ↦ rw h (after_reads_lem f w).0
      | inr h ↦ rw h refl
    ] in
    (
      CpuRead-world (cpu_entries f) now w w1 (cpu_end l now w1) same (
          cpu_end_lem (cpu_entries f) l now w1
            (cpu_loop-run (lines_of cpu_buf_size f.text) no_cpu_stats 0)),
      (refl, set_with_errno-Failed error_open (codes "/proc/stat") e w),
    )
