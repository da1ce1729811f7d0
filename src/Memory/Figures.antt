-- ===== src/Memory/Figures.antt =====
-- The figures that `sg_get_mem_stats_int` makes of the lines of /proc/meminfo.
use libstatgrab.Base.{ℕ, ◌≡◌, refl, ap, sym, subst, ◌∙◌, arith, List, [], ◌∷◌}
use libstatgrab.Base.Word.{add64, mul64}
use libstatgrab.Base.Bytes.{Bytes, codes}
use libstatgrab.Error.{World}
use libstatgrab.Error.Codes.{error_none, error_open}
use libstatgrab.Stdio.{
  Stream, refused, opened, after_reads, lines_of, line_buf_size, to_lld, sscanf_second,
}
use libstatgrab.Stdio.Prefixes.{begins-clash, values, last_or, last_or-values}
use libstatgrab.Stdio.Failures.{Failed, set_with_errno-Failed}
use libstatgrab.Memory.{
  MemStats, mem_total_prefix, mem_free_prefix, mem_cached_prefix, mem_store, mem_line, mem_loop,
  mem_totals, sg_get_mem_stats_int,
}

-- The numbers of the lines with a name, in kilobytes.
abbrev pub figures : Bytes → List Bytes → List ℕ
figures word lines = values (sscanf_second to_lld) word lines

-- What the loop leaves: for each name the last figure, or what was there.
abbrev latest : List Bytes → MemStats → MemStats
latest lines s = record s {
  total = last_or s.total (figures mem_total_prefix lines);
  free = last_or s.free (figures mem_free_prefix lines);
  cache = last_or s.cache (figures mem_cached_prefix lines);
}

mem_line_lem : (line : Bytes) (s : MemStats) → mem_line line s ≡ latest (line ∷ []) s
unfolding mem_line mem_store
mem_line_lem line s = ground (
  arith,
  begins-clash mem_total_prefix mem_free_prefix line refl,
  begins-clash mem_total_prefix mem_cached_prefix line refl,
  begins-clash mem_free_prefix mem_cached_prefix line refl,
)

latest_again :
    (line : Bytes) (lines : List Bytes) (s : MemStats)
    → latest lines (latest (line ∷ []) s) ≡ latest (line ∷ lines) s
latest_again line lines s = ground (
  arith,
  last_or-values (sscanf_second to_lld) mem_total_prefix line lines s.total,
  last_or-values (sscanf_second to_lld) mem_free_prefix line lines s.free,
  last_or-values (sscanf_second to_lld) mem_cached_prefix line lines s.cache,
)

mem_loop_lem : (lines : List Bytes) (s : MemStats) → mem_loop lines s ≡ latest lines s
unfolding mem_loop
mem_loop_lem [] s = refl
mem_loop_lem (line ∷ lines) s =
    ap (mem_loop lines) (mem_line_lem line s)
    ∙ mem_loop_lem lines (latest (line ∷ []) s)
    ∙ latest_again line lines s

-- The figures of a text, over those of an earlier call, with `used` what is not free.
abbrev pub FiguresOf : List Bytes → ℕ → MemStats → MemStats → Type 0
FiguresOf lines now old s =
    (s.total ≡ mul64 (last_or old.total (figures mem_total_prefix lines)) 1024)
    × (s.cache ≡ mul64 (last_or old.cache (figures mem_cached_prefix lines)) 1024)
    × (s.free
        ≡ mul64
            (add64 (last_or old.free (figures mem_free_prefix lines))
              (last_or old.cache (figures mem_cached_prefix lines)))
            1024)
    × (add64 s.used s.free ≡ s.total)
    × (s.systime ≡ now)

mem_totals-FiguresOf :
    (lines : List Bytes) (now : ℕ) (s : MemStats)
    → FiguresOf lines now s (mem_totals now (latest lines s))
unfolding mem_totals
mem_totals-FiguresOf lines now s = (refl, refl, refl, omega arith, refl)

-- `sg_get_mem_stats_int` where /proc/meminfo is opened: no error, and `total`, `cache` and `free` are
-- 1024 times the last figures of the lines that begin with `MemTotal:`, `Cached:` and `MemFree:`,
-- the cache counted as free; for a name without a figure the number that was there stands in its
-- place. What is used and what is free add up to the total, modulo 2 ^ 64. Where the file is not
-- opened, `SG_ERROR_OPEN` is returned and set with the `errno` of `fopen`, and the statistics stay.
pub mem_stats_lem :
    (f : Stream) (e now : ℕ) (s : MemStats) (w : World)
    → (let (rc, s', w') = sg_get_mem_stats_int (opened f) now s w in
        (rc ≡ error_none)
        × FiguresOf (lines_of line_buf_size f.text) now s s'
        × (w' ≡ after_reads f w))
      × (let (rc, s', w') = sg_get_mem_stats_int (refused e) now s w in
          (s' ≡ s) × Failed error_open e w (rc, w'))
unfolding sg_get_mem_stats_int
mem_stats_lem f e now s w = (
  (
    refl,
    subst (λ (t : MemStats). FiguresOf (lines_of line_buf_size f.text) now s (mem_totals now t))
        (sym (mem_loop_lem (lines_of line_buf_size f.text) s))
        (mem_totals-FiguresOf (lines_of line_buf_size f.text) now s),
    refl,
  ),
  (refl, set_with_errno-Failed error_open (codes "/proc/meminfo") e w),
)
