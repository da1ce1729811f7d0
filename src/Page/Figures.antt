-- ===== src/Page/Figures.antt =====
-- What `sg_get_page_stats_int` makes of /proc/vmstat and of /proc/stat.
use libstatgrab.Base.{
  ℕ, ◌≡◌, refl, ap, subst, arith, List, [], ◌∷◌, Option, none, some, false, ◌⊎◌, inl, inr, ltb, ◌<◌,
  Bool-cases, ◌≤◌, length, if◌then◌else◌,
}
use libstatgrab.Base.Bytes.{Bytes, codes}
use libstatgrab.Error.{World, sg_get_error}
use libstatgrab.Error.Codes.{SgError, error_none, error_open, error_parse}
use libstatgrab.Stdio.{
  Opened, Stream, refused, opened, set_errno, after_reads, lines_of, line_buf_size, to_llu,
  sscanf_second, sscanf_after,
}
use libstatgrab.Stdio.Failures.{Failed, set-Failed, set_with_errno-Failed}
use libstatgrab.Stdio.Prefixes.{begins, strncmp_eq_comm, length-sscanf_after}
use libstatgrab.Stdio.Pairs.{Pair}
use libstatgrab.Stdio.Pairs.Found.{Hit, hits_of, pair_of, FoundPair, pair_loop_lem}
use libstatgrab.Tools.Reading.{read_loop, read_end, no_line, sg_f_read_line}
use libstatgrab.Page.{
  PageStats, pgpgin_word, pgpgout_word, page_loop, page_pair, page_numbers, page_line, page_stat,
  sg_get_page_stats_int,
}

abbrev pub page_hits : List Bytes → List Hit
page_hits lines = hits_of (sscanf_second to_llu) pgpgin_word pgpgout_word lines

-- The item that two counters make.
abbrev pub page_item : ℕ → ℕ → ℕ → PageStats
page_item x y now = record { pages_pagein = x; pages_pageout = y; systime = now }

-- The counters of the first two hits, or a failure where there are fewer. `ended` is the world after the end
-- of the file was read.
abbrev pub PageRead : List Hit → ℕ → World → World → SgError × PageStats × World → Type 0
PageRead hits now w ended out =
    ((x y : ℕ) × (pair_of hits ≡ some (x, y)) × (out ≡ (error_none, page_item x y now, w)))
    ⊎ ((pair_of hits ≡ none) × Failed error_parse 0 ended (out.0, out.2))

page_pair_lem :
    (hits : List Hit) (p : Pair) (now : ℕ) (w ended : World)
    → FoundPair hits p
    → PageRead hits now w ended (page_pair p now (if ltb p.matches 2 then ended else w))
unfolding page_pair
page_pair_lem hits p now w ended (inl (two, found)) =
    let enough : ltb p.matches 2 ≡ false = ground arith in
    rw enough (inl (p.first, p.second, found, refl))
page_pair_lem hits p now w ended (inr (fewer, found)) =
    rw fewer (inr (found, set-Failed error_parse (codes "/proc/vmstat") ended))

-- The first line that begins with a word, as a specification.
abbrev pub first_line : Bytes → List Bytes → Option Bytes
first_line word [] = none
first_line word (line ∷ lines) =
    let rest = first_line word lines in if begins word line then some line else rest

read_loop-first_line :
    (word : Bytes) (lines : List Bytes) → (read_loop (some word) lines).0 ≡ first_line word lines
unfolding read_loop
read_loop-first_line word [] = refl
read_loop-first_line word (line ∷ lines) =
    rw (strncmp_eq_comm word line (length word)) (elim (Bool-cases (begins word line)) [
      | inl e ↦ rw e
      | inr e ↦ rw e (read_loop-first_line word lines)
    ])

-- The outcome of the fallback, for the line found and the world before it is read.
abbrev pub LineRead : Option Bytes → ℕ → World → SgError × PageStats × World → Type 0
LineRead found now w out =
    ((found ≡ none) × (out ≡ (sg_get_error w, page_item 0 0 now, w)))
    ⊎ ((line : Bytes) × (x y : ℕ) × (found ≡ some line)
        × (sscanf_after (codes "page") 2 line ≡ x ∷ y ∷ [])
        × (out ≡ (error_none, page_item x y now, w)))
    ⊎ ((line : Bytes) × (found ≡ some line)
        × (length (sscanf_after (codes "page") 2 line) < 2)
        × Failed error_parse 0 w (out.0, out.2))

numbers_lem :
    (line : Bytes) (ns : List ℕ) (now : ℕ) (w : World)
    → sscanf_after (codes "page") 2 line ≡ ns
    → length ns ≤ 2
    → LineRead (some line) now w (page_numbers ns now w)
unfolding page_numbers
numbers_lem line [] now w e short =
    inr (inr (line, refl, omega (arith, ap length e), set-Failed error_parse (codes "page") w))
numbers_lem line (x ∷ []) now w e short =
    inr (inr (line, refl, omega (arith, ap length e), set-Failed error_parse (codes "page") w))
numbers_lem line (x ∷ y ∷ []) now w e short = inr (inl (line, x, y, refl, e, refl))
numbers_lem line (x ∷ y ∷ z ∷ ns) now w e short = absurd (omega arith)

-- The answer of the reading loop, on a stream that ends.
line_lem :
    (text : Bytes) (found : Option Bytes × List Bytes) (now : ℕ) (w : World)
    → LineRead found.0 now w (
        page_line
          (read_end (record { text = text; read_error = none }) (some (codes "page")) found w)
          now)
unfolding page_line read_end no_line
line_lem text (none, lines) now w = inl (refl, refl)
line_lem text (some line, lines) now w =
    numbers_lem line (sscanf_after (codes "page") 2 line) now w refl
      (length-sscanf_after (codes "page") 2 line)

-- `sg_get_page_stats_int`. Where /proc/vmstat is opened, the first two lines that begin with `pgpgin `
-- or `pgpgout ` and have a number give the two counters; with fewer such lines `SG_ERROR_PARSE` is
-- returned and set. Where it is not, and /proc/stat is opened and read to its end, the first line that
-- begins with `page` gives them, or `SG_ERROR_PARSE` where it has fewer than two numbers; where no
-- line begins so, both are 0 and the result is the error that was set before the call, or none.
-- Where neither is opened, `SG_ERROR_OPEN` is returned and set with the `errno` of the second `fopen`.
pub page_stats_lem :
    (f : Stream) (text : Bytes) (stat : Opened) (e e2 now : ℕ) (w : World)
    → PageRead
        (page_hits (lines_of line_buf_size f.text))
        now
        w
        (after_reads f w)
        (sg_get_page_stats_int (opened f) stat now w)
      × LineRead (first_line (codes "page") (lines_of line_buf_size text)) now (set_errno e w) (
          sg_get_page_stats_int
            (refused e)
            (opened (record { text = text; read_error = none }))
            now
            w)
      × (let (rc, _, w') = sg_get_page_stats_int (refused e) (refused e2) now w in
          Failed error_open e2 w (rc, w'))
unfolding sg_get_page_stats_int page_loop page_stat sg_f_read_line
page_stats_lem f text stat e e2 now w =
    let lines = lines_of line_buf_size text in
    (
      page_pair_lem (page_hits (lines_of line_buf_size f.text)) _ now w (after_reads f w) (
          pair_loop_lem (sscanf_second to_llu) pgpgin_word pgpgout_word
            (lines_of line_buf_size f.text)),
      subst
          (λ (o : Option Bytes). LineRead o now (set_errno e w) (
            sg_get_page_stats_int (refused e) (opened (record { text = text; read_error = none }))
              now w))
          (read_loop-first_line (codes "page") lines)
          (line_lem text (read_loop (some (codes "page")) lines) now (set_errno e w)),
      set_with_errno-Failed error_open (codes "/proc/stat") e2 (set_errno e w),
    )
