-- ===== src/Disk/Io/Traffic.antt =====
-- The disks that `sg_get_disk_io_stats_int` lists.
use libstatgrab.Base.{ℕ, ◌≡◌, refl, Option, none, some, inl, inr, Option-cases, length}
use libstatgrab.Base.Word.{mul64}
use libstatgrab.Base.Bytes.{Bytes, codes}
use libstatgrab.Error.{World}
use libstatgrab.Error.Codes.{error_open}
use libstatgrab.Stdio.{Stream, refused, opened, after_reads, lines_of, line_buf_size}
use libstatgrab.Stdio.Failures.{Failed, set_with_errno-Failed, after_reads_lem}
use libstatgrab.Tools.Chains.{Ends, and_then-Ends}
use libstatgrab.Tools.Strings.Updates.{update_string_lem}
use libstatgrab.Vector.{SgVector, live}
use libstatgrab.Vector.Grow.{IsValid}
use libstatgrab.Vector.Append.{append_loop}
use libstatgrab.Vector.Append.Growth.{Room, Makes, all_made}
use libstatgrab.Vector.Append.Listing.{Listing, append_loop-Listing, Listing-ended}
use libstatgrab.Disk.{DiskIoStats, sg_disk_io_stats_item_init, sg_disk_io_stats_vector_init_info}
use libstatgrab.Disk.Io.{DiskLine, scan_disk, disk_fill, disk_line, sg_get_disk_io_stats_int}

module _ (raw : DiskIoStats) (now : ℕ) where
  -- The item of a line: a sector has 512 bytes.
  abbrev pub disk_of : DiskLine → DiskIoStats
  disk_of l = record {
    disk_name = some l.name;
    read_bytes = mul64 l.rsect 512;
    write_bytes = mul64 l.wsect 512;
    systime = now;
  }

  abbrev pub scanned_disk : Option DiskLine → Option DiskIoStats
  scanned_disk none = none
  scanned_disk (some l) = some (disk_of l)

  abbrev pub disk_made : Bytes → Option DiskIoStats
  disk_made line = scanned_disk (scan_disk line)

  disk_fill-Ends :
      (l : DiskLine) (d : DiskIoStats) (w : World) → Ends (disk_of l) w (disk_fill now l d w)
  unfolding disk_fill
  disk_fill-Ends l d w =
      and_then-Ends _ _ d.disk_name (some l.name) w _ _ (update_string_lem d.disk_name l.name w)
        (λ w1. (refl, inl (refl, refl)))

  disk_line-Makes :
      (line : Bytes)
      → Makes
          (sg_disk_io_stats_vector_init_info raw)
          sg_disk_io_stats_item_init
          refl
          (disk_line now)
          (λ a b. a ≡ b)
          disk_made
          line
  unfolding disk_line
  disk_line-Makes line = elim (Option-cases (scan_disk line)) [
    | inl e ↦ rw (e, disk_line) (inl (refl, refl))
    | inr (l, e) ↦
        rw (e, disk_line)
          (inr (
            disk_fill now l,
            disk_of l,
            refl,
            refl,
            λ d w. disk_fill-Ends l (sg_disk_io_stats_item_init d) w,
          ))
  ]

  -- `sg_get_disk_io_stats_int` on a valid vector with no item in use and room for all lines of
  -- /proc/diskstats: every line that has a name and the two numbers of sectors gives an item in its
  -- order, with 512 bytes for a sector. A name that cannot be copied ends the reading with an error that is
  -- returned; without memory for an item it is stored through NULL. Where the file is not opened,
  -- `SG_ERROR_OPEN` is returned and set, and the vector stays.
  pub disk_io_lem :
      (f : Stream) (e : ℕ) (v : SgVector DiskIoStats) (w : World)
      → IsValid v
      → v.info ≡ sg_disk_io_stats_vector_init_info raw
      → v.used_count ≡ 0
      → Room v.block_shift (length (lines_of line_buf_size f.text)) 32
      → Listing
          (λ a b. a ≡ b)
          (all_made disk_made (lines_of line_buf_size f.text))
          w
          (sg_get_disk_io_stats_int raw now (opened f) v w)
        × (let (rc, p, w') = sg_get_disk_io_stats_int raw now (refused e) v w in
            (p ≡ live v) × Failed error_open e w (rc, w'))
  unfolding sg_get_disk_io_stats_int
  disk_io_lem f e v w valid same unused room =
      let info = sg_disk_io_stats_vector_init_info raw in
      let lines = lines_of line_buf_size f.text in
      let out = append_loop info (disk_line now) lines 0 (live v) w in
      let read =
        append_loop-Listing info sg_disk_io_stats_item_init refl (disk_line now) (λ a b. a ≡ b)
          disk_made lines v w disk_line-Makes valid same unused room in
      (
        Listing-ended (λ a b. a ≡ b) (all_made disk_made lines) w (after_reads f out.world) out.rc
            out.vector out.world (after_reads_lem f out.world).0 (after_reads_lem f out.world).1
            read,
        (refl, set_with_errno-Failed error_open (codes "/proc/diskstats") e w),
      )
