-- ===== src/Swap/Figures.antt =====
-- The figures that `sg_get_swap_stats_int` makes of the lines of /proc/meminfo.
use libstatgrab.Base.{
  ℕ, ◌*◌, ◌%◌, ◌≡◌, refl, fun_ext, subst, arith, List, Option, Option-cases, none, some, false, ◌⊎◌,
  inl, inr, ltb, if◌then◌else◌,
}
use libstatgrab.Base.Word.{sub64, u64_mod}
use libstatgrab.Base.Bytes.{Bytes, codes}
use libstatgrab.Error.{World}
use libstatgrab.Error.Codes.{SgError, error_none, error_open, error_parse}
use libstatgrab.Stdio.{
  Stream, refused, opened, after_reads, lines_of, line_buf_size, to_llu, sscanf_second,
}
use libstatgrab.Stdio.Failures.{Failed, set-Failed, set_with_errno-Failed}
use libstatgrab.Stdio.Pairs.{Pair}
use libstatgrab.Stdio.Pairs.Found.{Hit, hits_of, pair_of, FoundPair, pair_loop_lem}
use libstatgrab.Swap.{
  SwapStats, swap_total_word, swap_free_word, swap_value, swap_loop, swap_end,
  sg_get_swap_stats_int,
}

-- A number of kilobytes, in bytes.
abbrev pub in_bytes : Option ℕ → Option ℕ
in_bytes none = none
in_bytes (some kb) = some ((kb * 1024) % u64_mod)

-- The lines that begin with `SwapTotal:` (`true`) or `SwapFree:`, with 1024 times the number in them.
abbrev pub swap_hits : List Bytes → List Hit
swap_hits lines =
    hits_of (λ line. in_bytes (sscanf_second to_llu line)) (codes "SwapTotal:") (codes "SwapFree:")
      lines

swap_value_lem : (line : Bytes) → swap_value line ≡ in_bytes (sscanf_second to_llu line)
swap_value_lem line = elim (Option-cases (sscanf_second to_llu line)) [
  | inl e ↦ rw (e, swap_value) refl
  | inr (x, e) ↦ rw (e, swap_value) refl
]

-- The statistics of the first two such lines, or a failure where there are fewer. `ended` is the world after
-- the end of the file was read.
abbrev pub SwapRead : List Hit → ℕ → World → World → SgError × SwapStats × World → Type 0
SwapRead hits now w ended out =
    ((total free : ℕ) × (pair_of hits ≡ some (total, free))
      × (out.0 ≡ error_none)
      × (out.1 ≡ record { total = total; used = sub64 total free; free = free; systime = now })
      × (out.2 ≡ w))
    ⊎ ((pair_of hits ≡ none) × (out.1.used ≡ 0) × Failed error_parse 0 ended (out.0, out.2))

swap_end_lem :
    (hits : List Hit) (p : Pair) (now : ℕ) (s : SwapStats) (w ended : World)
    → FoundPair hits p
    → SwapRead hits now w ended (swap_end p now s (if ltb p.matches 2 then ended else w))
unfolding swap_end
swap_end_lem hits p now s w ended (inl (two, found)) =
    let enough : ltb p.matches 2 ≡ false = ground arith in
    rw enough (inl (p.first, p.second, found, refl, refl, refl))
swap_end_lem hits p now s w ended (inr (fewer, found)) =
    rw fewer (inr (found, refl, set-Failed error_parse (codes "/proc/meminfo") ended))

-- `sg_get_swap_stats_int` where /proc/meminfo is opened: the first two lines that begin with `SwapTotal:`
-- or `SwapFree:` and have a number give `total` and `free`, which are 1024 times that number, and `used` is their
-- difference, as 64-bit words. With fewer than two such lines it returns and sets `SG_ERROR_PARSE`. Where
-- the file is not opened, `SG_ERROR_OPEN` is returned and set with the `errno` of `fopen`, and
-- the three figures are 0.
pub swap_stats_lem :
    (f : Stream) (e now : ℕ) (s : SwapStats) (w : World)
    → SwapRead
        (swap_hits (lines_of line_buf_size f.text))
        now
        w
        (after_reads f w)
        (sg_get_swap_stats_int (opened f) now s w)
      × (let (rc, s', w') = sg_get_swap_stats_int (refused e) now s w in
          (s' ≡ record s { total = 0; used = 0; free = 0 }) × Failed error_open e w (rc, w'))
unfolding sg_get_swap_stats_int swap_loop
swap_stats_lem f e now s w = (
  swap_end_lem (swap_hits (lines_of line_buf_size f.text)) _ now s w (after_reads f w) (
      subst
        (λ value.
          FoundPair (hits_of value swap_total_word swap_free_word (lines_of line_buf_size f.text))
            (swap_loop (lines_of line_buf_size f.text)))
        (fun_ext swap_value_lem)
        (pair_loop_lem swap_value swap_total_word swap_free_word (lines_of line_buf_size f.text))),
  (refl, set_with_errno-Failed error_open (codes "/proc/meminfo") e w),
)
