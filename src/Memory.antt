-- ===== src/Memory.antt =====
-- src/libstatgrab/memory_stats.c for Linux: the figures of /proc/meminfo.
pub mod Figures
mod Tests
use libstatgrab.Base.{ℕ, Bool, List, [], ◌∷◌, Option, none, some, length, if◌then◌else◌}
use libstatgrab.Base.Word.{add64, sub64, mul64}
use libstatgrab.Base.Bytes.{Bytes, codes}
use libstatgrab.Error.{World, sg_set_error_with_errno_fmt}
use libstatgrab.Error.Codes.{SgError, error_none, error_open, error_sysconf}
use libstatgrab.Stdio.{
  Opened, refused, opened, set_errno, after_reads, lines_of, line_buf_size, strncmp_eq, to_lld,
  sscanf_second,
}
use libstatgrab.Tools.Pages.{PageSize, sg_get_sys_page_size}

-- `sg_mem_stats`; the numbers are 64-bit words.
pub record MemStats : Type 0 where
  pub total : ℕ
  pub free : ℕ
  pub used : ℕ
  pub cache : ℕ
  pub systime : ℕ

abbrev pub mem_total_prefix : Bytes
mem_total_prefix = codes "MemTotal:"

abbrev pub mem_free_prefix : Bytes
mem_free_prefix = codes "MemFree:"

abbrev pub mem_cached_prefix : Bytes
mem_cached_prefix = codes "Cached:"

-- The rest of the loop's body, once `sscanf` found a value.
unfoldable pub mem_store : Bytes → ℕ → MemStats → MemStats
mem_store line value s =
    if strncmp_eq line mem_total_prefix (length mem_total_prefix)
    then record s { total = value }
    else if strncmp_eq line mem_free_prefix (length mem_free_prefix)
    then record s { free = value }
    else if strncmp_eq line mem_cached_prefix (length mem_cached_prefix)
    then record s { cache = value }
    else s

unfoldable pub mem_line : Bytes → MemStats → MemStats
mem_line line s = elim (sscanf_second to_lld line) [
  | none ↦ s
  | some value ↦ mem_store line value s
]

-- The `while` loop over the lines.
unfoldable pub mem_loop : List Bytes → MemStats → MemStats
mem_loop [] s = s
mem_loop (line ∷ lines) s = mem_loop lines (mem_line line s)

-- From the loop's end to the return, where `time` returns `now`.
unfoldable pub mem_totals : ℕ → MemStats → MemStats
mem_totals now s =
    let total = mul64 s.total 1024 in
    let free = mul64 (add64 s.free s.cache) 1024 in
    record {
      total = total;
      free = free;
      used = sub64 total free;
      cache = mul64 s.cache 1024;
      systime = now;
    }

-- `sg_get_mem_stats_int`, where `fopen` of /proc/meminfo returns what is given.
unfoldable pub sg_get_mem_stats_int : Opened → ℕ → MemStats → World → SgError × MemStats × World
sg_get_mem_stats_int (refused e) now s w =
    let (rc, w') =
      sg_set_error_with_errno_fmt error_open (some (codes "/proc/meminfo")) (set_errno e w) in
    (rc, s, w')
sg_get_mem_stats_int (opened f) now s w =
    (error_none, mem_totals now (mem_loop (lines_of line_buf_size f.text) s), after_reads f w)

-- `sg_mem_init_comp` after GLOBAL_SET_ID: `size` is the page size that the file keeps, and `asked`
-- what `sysconf` answers.
unfoldable pub sg_mem_init_comp : PageSize → PageSize × ℕ → World → SgError × PageSize × World
sg_mem_init_comp size asked w =
    let (answer, size', w') = sg_get_sys_page_size size asked w in
    elim answer [
      | none ↦
          let (rc, w2) =
            sg_set_error_with_errno_fmt error_sysconf (some (codes "_SC_PAGESIZE")) w' in
          (rc, size', w2)
      | some _ ↦ (error_none, size', w')
    ]
