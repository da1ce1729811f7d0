-- ===== src/Cpu/Reader.antt =====
-- The reader of /proc/stat of src/libstatgrab/cpu_stats.c.
pub mod Entries
pub mod Counters
mod Tests
use libstatgrab.Base.{
  ℕ, ◌+◌, Bool, true, false, ◌&&◌, ◌||◌, not, List, [], ◌∷◌, Option, none, some, length, get_elem?,
  ltb, ◌==◌, if◌then◌else◌,
}
use libstatgrab.Base.Word.{add64}
use libstatgrab.Base.Bytes.{Bytes, codes}
use libstatgrab.Error.{World, sg_set_error_fmt, sg_set_error_with_errno_fmt}
use libstatgrab.Error.Codes.{SgError, error_none, error_open, error_parse}
use libstatgrab.Stdio.{
  Stream, Opened, refused, opened, set_errno, after_reads, lines_of, strncmp_eq, isblank,
  sscanf_after,
}
use libstatgrab.Cpu.{CpuStats, no_cpu_stats}

-- The words that the lines of interest begin with.
pub data CpuWord : Type 0 where
  cpu_word intr_word ctxt_word softirq_word : CpuWord

abbrev pub word_text : CpuWord → Bytes
word_text cpu_word = codes "cpu"
word_text intr_word = codes "intr"
word_text ctxt_word = codes "ctxt"
word_text softirq_word = codes "softirq"

abbrev pub blank_at : Bytes → ℕ → Bool
blank_at line i = elim (get_elem? line i) [ none ↦ false | some c ↦ isblank c ]

abbrev pub starts_with : CpuWord → Bytes → Bool
starts_with k line =
    strncmp_eq line (word_text k) (length (word_text k)) && blank_at line (length (word_text k))

-- The tests of the chain of `if`.
unfoldable pub line_word : Bytes → Option CpuWord
line_word line =
    if starts_with cpu_word line
    then some cpu_word
    else if starts_with intr_word line
    then some intr_word
    else if starts_with ctxt_word line
    then some ctxt_word
    else if starts_with softirq_word line
    then some softirq_word
    else none

-- What `sscanf` converts in a line.
abbrev pub wanted : CpuWord → ℕ
wanted cpu_word = 5
wanted _ = 1

unfoldable pub cpu_numbers : CpuWord → Bytes → List ℕ
cpu_numbers k line = sscanf_after (word_text k) (wanted k) line

-- The numbers go to where the arguments of `sscanf` point.
unfoldable pub cpu_store : CpuWord → List ℕ → CpuStats → CpuStats
cpu_store cpu_word [] s = s
cpu_store cpu_word (u ∷ []) s = record s { user = u }
cpu_store cpu_word (u ∷ n ∷ []) s = record s { user = u; nice = n }
cpu_store cpu_word (u ∷ n ∷ k ∷ []) s = record s { user = u; nice = n; kernel = k }
cpu_store cpu_word (u ∷ n ∷ k ∷ i ∷ []) s = record s { user = u; nice = n; kernel = k; idle = i }
cpu_store cpu_word (u ∷ n ∷ k ∷ i ∷ o ∷ xs) s = record s {
  user = u;
  nice = n;
  kernel = k;
  idle = i;
  iowait = o;
}
cpu_store intr_word [] s = s
cpu_store intr_word (x ∷ xs) s = record s { interrupts = x }
cpu_store ctxt_word [] s = s
cpu_store ctxt_word (x ∷ xs) s = record s { context_switches = x }
cpu_store softirq_word [] s = s
cpu_store softirq_word (x ∷ xs) s = record s { soft_interrupts = x }

-- The tests on what `sscanf` returns.
unfoldable pub cpu_wrong : CpuWord → ℕ → Bool
cpu_wrong cpu_word n = ltb n 4 || ltb 5 n
cpu_wrong _ n = not (n == 1)

-- How the body of the loop goes on: to the next line, with `matched` as it is or one more, or out of the
-- function.
pub data LineEnd : Type 0 where
  passed counted : LineEnd
  wrong : CpuWord → LineEnd

unfoldable pub cpu_line : Bytes → CpuStats → CpuStats × LineEnd
cpu_line line s = elim (line_word line) [
  | none ↦ (s, passed)
  | some k ↦ (
    cpu_store k (cpu_numbers k line) s,
    if cpu_wrong k (length (cpu_numbers k line)) then wrong k else counted,
  )
]

-- The end of the loop: whether a line could not be read, and whether `fgets` returned NULL.
pub record CpuLoop : Type 0 where
  pub stats : CpuStats
  pub matched : ℕ
  pub bad : Option CpuWord
  pub at_end : Bool

abbrev pub matched_after : LineEnd → ℕ → ℕ
matched_after counted m = m + 1
matched_after _ m = m

unfoldable pub cpu_next : CpuStats × LineEnd → ℕ → CpuLoop → CpuLoop
cpu_next (s, wrong k) m rest = record { stats = s; matched = m; bad = some k; at_end = false }
cpu_next (s, passed) m rest = rest
cpu_next (s, counted) m rest = rest

unfoldable pub cpu_loop : List Bytes → CpuStats → ℕ → CpuLoop
cpu_loop [] s m = record { stats = s; matched = m; bad = none; at_end = true }
cpu_loop (line ∷ lines) s m =
    let rest = cpu_loop lines (cpu_line line s).0 (matched_after (cpu_line line s).1 m) in
    if ltb m 4
    then cpu_next (cpu_line line s) m rest
    else record { stats = s; matched = m; bad = none; at_end = false }

abbrev pub cpu_total : ℕ → CpuStats → CpuStats
cpu_total now s = record s {
  total = add64 (add64 (add64 s.user s.nice) s.kernel) s.idle;
  systime = now;
}

-- From the loop to the return, where `time` returns `now`.
unfoldable pub cpu_end : CpuLoop → ℕ → World → SgError × CpuStats × World
cpu_end l now w = elim l.bad [
  | some k ↦ let (rc, w') = sg_set_error_fmt error_parse (some (word_text k)) w in (rc, l.stats, w')
  | none ↦
      if l.matched == 0
      then (let (rc, w') =
            sg_set_error_fmt error_parse
              (some (codes "all from 'cpu', 'intr', 'ctxt', 'softirq' missing from '/proc/stat'"))
              w in
          (rc, l.stats, w'))
      else (error_none, cpu_total now l.stats, w)
]

abbrev pub cpu_buf_size : ℕ
cpu_buf_size = 1024

-- `sg_get_cpu_stats_int`, where `fopen` of /proc/stat returns what is given. What was in the item
-- is cleared.
unfoldable pub sg_get_cpu_stats_int : Opened → ℕ → CpuStats → World → SgError × CpuStats × World
sg_get_cpu_stats_int (refused e) now s w =
    let (rc, w') =
      sg_set_error_with_errno_fmt error_open (some (codes "/proc/stat")) (set_errno e w) in
    (rc, no_cpu_stats, w')
sg_get_cpu_stats_int (opened f) now s w =
    let l = cpu_loop (lines_of cpu_buf_size f.text) no_cpu_stats 0 in
    cpu_end l now (if l.at_end then after_reads f w else w)
