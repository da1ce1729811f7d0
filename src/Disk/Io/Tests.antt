-- ===== src/Disk/Io/Tests.antt =====
-- A line of /proc/diskstats.
use libstatgrab.Base.{refl, arith, ◌≡◌, none, some, [], ◌∷◌, ◌++◌}
use libstatgrab.Base.Bytes.{Bytes, codes}
use libstatgrab.Error.{calm}
use libstatgrab.Error.Codes.{error_open}
use libstatgrab.Stdio.{
  Stream, fgets_lines, refused, opened, lines_of, line_buf_size, skip_space, digits, scan_number,
}
use libstatgrab.Stdio.Failures.{Failed}
use libstatgrab.Stdio.Numbers.{Column, columns_text, column_text, IsColumn}
use libstatgrab.Vector.{SgVector, live}
use libstatgrab.Vector.Append.Growth.{all_made}
use libstatgrab.Vector.Append.Listing.{Listing}
use libstatgrab.Disk.{DiskIoStats, sg_disk_io_stats_vector_init_info}
use libstatgrab.Disk.Io.{
  word_part, scan_word, scan_int, scan_llu, scan_disk, sg_get_disk_io_stats_int,
}
use libstatgrab.Disk.Io.Lines.{stat_columns, scan_disk_lem}
use libstatgrab.Disk.Io.Traffic.{disk_made, disk_io_lem}

abbrev raw_item : DiskIoStats
raw_item = record { disk_name = none; read_bytes = 0; write_bytes = 0; systime = 0 }

abbrev empty : SgVector DiskIoStats
empty = record {
  used_count = 0;
  alloc_count = 2;
  block_shift = 1;
  info = sg_disk_io_stats_vector_init_info raw_item;
  cells = raw_item ∷ raw_item ∷ [];
}

abbrev sda_line : Bytes
sda_line = codes "   8  0 sda 11 1 700 5 3 0 24 9 0 0 0" ++ 10 ∷ []

abbrev with_sda : Stream
with_sda = record { text = sda_line; read_error = none }

sda_scanned : scan_disk sda_line ≡ some (record { name = codes "sda"; rsect = 700; wsect = 24 })
unfolding scan_disk scan_int scan_llu scan_word word_part skip_space digits scan_number
sda_scanned = refl

disk_io_lem_example :
    Listing
      (λ a b. a ≡ b)
      (all_made (disk_made raw_item 5) (lines_of line_buf_size with_sda.text))
      calm
      (sg_get_disk_io_stats_int raw_item 5 (opened with_sda) empty calm)
    × (let (rc, p, w') = sg_get_disk_io_stats_int raw_item 5 (refused 2) empty calm in
        (p ≡ live empty) × Failed error_open 2 calm (rc, w'))
unfolding fgets_lines
disk_io_lem_example =
    disk_io_lem raw_item 5 with_sda 2 empty calm
      (record { used_in = omega arith; alloc_in = omega arith; sized = omega arith }) refl refl
      (record { count_fits = omega arith; item_sized = omega arith; bytes_fit = omega arith })

abbrev one_column : Column
one_column = record { spaces = 32 ∷ []; digit = 49; more = [] }

scan_disk_lem_example :
    scan_disk (
      column_text one_column (
        column_text one_column (
          32
          ∷ 97
          ∷ 98
          ∷ columns_text
              (stat_columns one_column one_column one_column one_column one_column one_column
                one_column)
              (10 ∷ []))))
    ≡ some (record { name = 97 ∷ 98 ∷ []; rsect = 1; wsect = 1 })
scan_disk_lem_example =
    let is : IsColumn one_column = ((refl, tt), (refl, tt)) in
    scan_disk_lem one_column one_column (32 ∷ []) 97 (98 ∷ []) one_column one_column one_column
      one_column one_column one_column one_column (10 ∷ []) is (is, refl, tt) (refl, tt) refl
      (refl, (refl, tt)) (omega arith)
      (is, refl, (is, refl, (is, refl, (is, refl, (is, refl, (is, refl, (is, refl, tt))))))) refl
