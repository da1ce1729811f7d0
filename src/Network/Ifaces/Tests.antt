-- ===== src/Network/Ifaces/Tests.antt =====
-- One interface that is up.
use libstatgrab.Base.{ℕ, refl, arith, ◌≡◌, none, some, false, Option, [], ◌∷◌, ◌++◌}
use libstatgrab.Base.Bytes.{Bytes, codes}
use libstatgrab.Error.{calm}
use libstatgrab.Error.Codes.{error_open}
use libstatgrab.Network.Reader.{until_colon}
use libstatgrab.Stdio.{Stream, skip_space, fgets_lines, lines_of, refused, opened}
use libstatgrab.Stdio.Failures.{Failed}
use libstatgrab.Vector.{SgVector, live}
use libstatgrab.Vector.Append.Growth.{all_made}
use libstatgrab.Vector.Append.Listing.{Listing}
use libstatgrab.Network.Ifaces.{
  IfaceStats, EthtoolCmd, duplex_unknown, iface_down, network_iface_info, iface_name,
  sg_get_network_iface_stats_int,
}
use libstatgrab.Network.Ifaces.Found.{iface_made, network_iface_lem}

abbrev raw_item : IfaceStats
raw_item = record {
  interface_name = none;
  speed = 0;
  factor = 0;
  duplex = duplex_unknown;
  up = iface_down;
  systime = 0;
}

abbrev empty : SgVector IfaceStats
empty = record {
  used_count = 0;
  alloc_count = 2;
  block_shift = 1;
  info = network_iface_info raw_item;
  cells = raw_item ∷ raw_item ∷ [];
}

abbrev eth_line : Bytes
eth_line = codes " eth0: 1" ++ 10 ∷ []

abbrev with_eth : Stream
with_eth = record {
  text = codes "Inter-" ++ 10 ∷ codes " face" ++ 10 ∷ eth_line;
  read_error = none;
}

-- IFF_UP
abbrev up_flags : Bytes → Option ℕ
up_flags name = some 1

abbrev fast : Bytes → Option EthtoolCmd
fast name = some (record { speed = 1000; whole_speed = 1000; duplex = 1 })

title_lines :
    lines_of 8096 with_eth.text
    ≡ (codes "Inter-" ++ 10 ∷ []) ∷ (codes " face" ++ 10 ∷ []) ∷ eth_line ∷ []
unfolding fgets_lines
title_lines = refl

eth_named : iface_name eth_line ≡ some (codes "eth0")
unfolding iface_name until_colon skip_space
eth_named = refl

network_iface_lem_example :
    Listing
      (λ a b. a ≡ b)
      (all_made (iface_made false up_flags fast 5) (eth_line ∷ []))
      calm
      (sg_get_network_iface_stats_int false up_flags fast 5 raw_item
        (opened with_eth)
        none
        empty
        calm)
    × (let (rc, p, w') =
          sg_get_network_iface_stats_int false up_flags fast 5 raw_item
            (refused 2)
            none
            empty
            calm in
        (p ≡ live empty) × Failed error_open 2 calm (rc, w'))
network_iface_lem_example =
    network_iface_lem false up_flags fast 5 raw_item with_eth (codes "Inter-" ++ 10 ∷ [])
      (codes " face" ++ 10 ∷ []) (eth_line ∷ []) 2 none empty calm title_lines
      (record { used_in = omega arith; alloc_in = omega arith; sized = omega arith }) refl refl
      (record { count_fits = omega arith; item_sized = omega arith; bytes_fit = omega arith })
