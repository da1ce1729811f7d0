-- ===== src/Disk/Io.antt =====
-- The reader of /proc/diskstats of src/libstatgrab/disk_stats.c: the bytes that each disk has read and
-- written.
pub mod Traffic
pub mod Lines
mod Tests
use libstatgrab.Base.{
  ℕ, zero, suc, ◌-◌, ◌*◌, List, [], ◌∷◌, Option, none, some, ◌==◌, if◌then◌else◌,
}
use libstatgrab.Base.Word.{mul64}
use libstatgrab.Base.Bytes.{Bytes, codes}
use libstatgrab.Error.{World, no_error, sg_set_error_with_errno_fmt}
use libstatgrab.Error.Codes.{SgError, error_none, error_open}
use libstatgrab.Stdio.{
  Opened, refused, opened, set_errno, after_reads, lines_of, line_buf_size, isspace, skip_space,
  scan_number, to_lld, to_llu,
}
use libstatgrab.Tools.Chains.{and_then}
use libstatgrab.Tools.Strings.{sg_update_string}
use libstatgrab.Vector.{SgVector, VecPtr, live}
use libstatgrab.Vector.Append.{Appended, append_loop}
use libstatgrab.Disk.{DiskIoStats, sg_disk_io_stats_vector_init_info}

-- Conversions of `sscanf`, one after another; a conversion that fails ends them.
abbrev pub and_scan : {A B : Type 0} → Option (A × Bytes) → (A → Bytes → Option B) → Option B
and_scan none k = none
and_scan (some (a, s)) k = k a s

-- `%99s`: a word of up to `n` characters, and the rest.
unfoldable pub word_part : ℕ → Bytes → Bytes × Bytes
word_part n [] = ([], [])
word_part zero (c ∷ s) = ([], c ∷ s)
word_part (suc n) (c ∷ s) =
    let (word, rest) = word_part n s in if isspace c then ([], c ∷ s) else (c ∷ word, rest)

abbrev pub word_found : Bytes × Bytes → Option (Bytes × Bytes)
word_found ([], rest) = none
word_found (c ∷ word, rest) = some (c ∷ word, rest)

unfoldable pub scan_word : ℕ → Bytes → Option (Bytes × Bytes)
scan_word n s = word_found (word_part n (skip_space s))

-- `%*d`
unfoldable pub scan_int : Bytes → Option (ℕ × Bytes)
scan_int s = scan_number to_lld s

unfoldable pub scan_llu : Bytes → Option (ℕ × Bytes)
scan_llu s = scan_number to_llu s

-- What `sscanf` finds in a line of /proc/diskstats: the name, and the sectors read and written.
pub record DiskLine : Type 0 where
  pub name : Bytes
  pub rsect : ℕ
  pub wsect : ℕ

-- `sscanf(line_buf, " %*d %*d %99s %*d %*d %llu %*d %*d %*d %llu", …)`, where it returns 3.
unfoldable pub scan_disk : Bytes → Option DiskLine
scan_disk line = and_scan (scan_int line) (λ _ s1. and_scan (scan_int s1) (λ _ s2.
    and_scan (scan_word 99 s2) (λ name s3. and_scan (scan_int s3) (λ _ s4.
      and_scan (scan_int s4) (λ _ s5. and_scan (scan_llu s5) (λ rsect s6.
        and_scan (scan_int s6) (λ _ s7. and_scan (scan_int s7) (λ _ s8.
          and_scan (scan_int s8) (λ _ s9.
            and_scan (scan_llu s9)
              (λ wsect _. some (record { name = name; rsect = rsect; wsect = wsect })))))))))))

unfoldable pub disk_fill : ℕ → DiskLine → DiskIoStats → World → SgError × DiskIoStats × World
disk_fill now l d w =
    and_then (λ n. record d { disk_name = n }) (sg_update_string d.disk_name (some l.name) w)
      (λ d1 w1. (
        error_none,
        record d1 {
          read_bytes = mul64 l.rsect 512;
          write_bytes = mul64 l.wsect 512;
          systime = now;
        },
        w1,
      ))

-- Other lines are skipped.
unfoldable pub disk_line : ℕ → Bytes → Option (DiskIoStats → World → SgError × DiskIoStats × World)
disk_line now line = elim (scan_disk line) [ none ↦ none | some l ↦ some (disk_fill now l) ]

module _ (raw : DiskIoStats) (now : ℕ) where
  -- `sg_get_disk_io_stats_int`, where `fopen` of /proc/diskstats returns what is given, and `time`
  -- returns `now`.
  unfoldable pub sg_get_disk_io_stats_int :
      Opened → SgVector DiskIoStats → World → SgError × VecPtr DiskIoStats × World
  sg_get_disk_io_stats_int (refused e) v w =
      let (rc, w') =
        sg_set_error_with_errno_fmt error_open (some (codes "/proc/diskstats")) (set_errno e w) in
      (rc, live v, w')
  sg_get_disk_io_stats_int (opened f) v w =
      let out =
        append_loop (sg_disk_io_stats_vector_init_info raw) (disk_line now)
          (lines_of line_buf_size f.text) 0 (live v) w in
      (out.rc, out.vector, if no_error out.rc then after_reads f out.world else out.world)
