-- ===== src/Network/Reader/Tests.antt =====
-- A line of /proc/net/dev after its title, and one that the expression matches.
use libstatgrab.Base.{ℕ, zero, suc, refl, ◌≡◌, none, some, List, [], ◌∷◌, ◌++◌, map}
use libstatgrab.Base.Bytes.{Bytes, codes}
use libstatgrab.Stdio.{Stream, skip_space, digits}
use libstatgrab.Stdio.Numbers.{Column, columns_text, AreColumns}
use libstatgrab.Vector.{SgVector}
use libstatgrab.Vector.Append.Listing.{Listing}
use libstatgrab.Network.{NetworkIoStats, sg_network_io_stats_vector_init_info}
use libstatgrab.Network.Reader.{
  colon, match_name, until_colon, match_number, match_spaces, match_numbers, match_dev,
}
use libstatgrab.Network.Reader.Matches.{column_value, match_dev_lem}

abbrev raw_item : NetworkIoStats
raw_item = record {
  interface_name = none;
  tx = 0;
  rx = 0;
  ipackets = 0;
  opackets = 0;
  ierrors = 0;
  oerrors = 0;
  collisions = 0;
  systime = 0;
}

abbrev empty : SgVector NetworkIoStats
empty = record {
  used_count = 0;
  alloc_count = 2;
  block_shift = 1;
  info = sg_network_io_stats_vector_init_info raw_item;
  cells = raw_item ∷ raw_item ∷ [];
}

abbrev title : Bytes
title = codes "Inter-" ++ 10 ∷ codes " face" ++ 10 ∷ []

abbrev lo_line : Bytes
lo_line = codes "  lo: 10 2 0 0 0 0 0 0 30 4 0 0 0 0" ++ 10 ∷ []

abbrev lo_text : Bytes
lo_text = title ++ lo_line

abbrev with_lo : Stream
with_lo = record { text = lo_text; read_error = none }

abbrev without_title : Stream
without_title = record { text = []; read_error = none }

lo_matched :
    match_dev lo_line
    ≡ some (record {
      name = codes "lo";
      columns = 10 ∷ 2 ∷ 0 ∷ 0 ∷ 0 ∷ 0 ∷ 0 ∷ 0 ∷ 30 ∷ 4 ∷ 0 ∷ 0 ∷ 0 ∷ 0 ∷ [];
    })
unfolding match_dev match_name until_colon match_number match_spaces match_numbers skip_space digits
lo_matched = refl

abbrev zero_column : Column
zero_column = record { spaces = 32 ∷ []; digit = 48; more = [] }

abbrev twelve : Column
twelve = record { spaces = []; digit = 49; more = 50 ∷ [] }

abbrev zeroes : ℕ → List Column
zeroes zero = []
zeroes (suc n) = zero_column ∷ zeroes n

zeroes-AreColumns : (n : ℕ) → AreColumns (zeroes n)
zeroes-AreColumns zero = tt
zeroes-AreColumns (suc n) = (((refl, tt), (refl, tt)), refl, zeroes-AreColumns n)

match_dev_lem_example :
    match_dev (32 ∷ 101 ∷ 49 ∷ colon ∷ columns_text (twelve ∷ zeroes 13) (10 ∷ []))
    ≡ some (record { name = 101 ∷ 49 ∷ []; columns = map column_value (twelve ∷ zeroes 13) })
match_dev_lem_example =
    match_dev_lem (32 ∷ []) 101 (49 ∷ []) twelve (zeroes 13) (10 ∷ []) (refl, tt) refl
      (refl, (refl, tt)) (tt, (refl, (refl, tt))) (zeroes-AreColumns 13) refl refl
