-- ===== src/Access/Tests.antt =====
-- The functions of the components at concrete inputs: the counters of two interfaces, and a counter of
-- a single item.
use libstatgrab.Base.{ℕ, ◌+◌, ◌-◌, ◌≡◌, refl, arith, List, [], ◌∷◌, none, some}
use libstatgrab.Base.Bytes.{Bytes, codes}
use libstatgrab.Error.{World, calm}
use libstatgrab.Error.Codes.{SgError, error_none}
use libstatgrab.Vector.{SgVector, VectorInfo, VecPtr, live}
use libstatgrab.Vector.Grow.{IsValid, Fits}
use libstatgrab.Network.{
  NetworkIoStats, sg_network_io_stats_item_compare, sg_network_io_stats_item_compute_diff,
  sg_network_io_stats_item_copy, sg_network_io_stats_vector_init_info,
}
use libstatgrab.Network.Items.{network_io-Copies, network_io-Keyed}
use libstatgrab.Base.{ap, ◌++◌}
use libstatgrab.Error.{malloc, sg_clear_error, store_error_glob}
use libstatgrab.Stdio.{skip_space, digits, Stream, opened, lines_of, fgets_lines}
use libstatgrab.Tools.Strings.Updates.{update_string-plenty}
use libstatgrab.Vector.{
  sg_vector_destroy_unused, sg_vector_resize, resize_live, resize_block, init_rest, destroy_items,
  destroy_loop, sg_vector_init_new, init_items, init_loop, touch, next_power2_in,
}
use libstatgrab.Vector.Differences.Plenty.{CopiesWhole}
use libstatgrab.Network.{network_io_copied}
use libstatgrab.Network.Reader.{
  sg_get_network_io_stats_int, dev_lines, dev_fill, dev_item, match_dev, match_name, until_colon,
  match_number, match_spaces, match_numbers,
}
use libstatgrab.Vector.Append.{
  append_loop, append_one, fill_item, vector_update, create_or_resize, update_end,
}
use libstatgrab.Tools.Alloc.{sg_realloc}
use libstatgrab.Access.{multi_diff, easy_access, easy_diff}
use libstatgrab.Access.Snapshots.{Reads, Compared, multi_diff_lem}
use libstatgrab.Access.Items.{Holds, ReadOver, Diffed, easy_access_lem, easy_diff_lem}

abbrev iface : Bytes → ℕ → NetworkIoStats
iface name tx = record {
  interface_name = some name;
  tx = tx;
  rx = 0;
  ipackets = 0;
  opackets = 0;
  ierrors = 0;
  oerrors = 0;
  collisions = 0;
  systime = 100;
}

abbrev net_info : VectorInfo NetworkIoStats
net_info = sg_network_io_stats_vector_init_info (iface [] 0)

abbrev net_vector : ℕ → List NetworkIoStats → SgVector NetworkIoStats
net_vector used cells = record {
  used_count = used;
  alloc_count = 2;
  block_shift = 1;
  info = net_info;
  cells = cells;
}

abbrev before : SgVector NetworkIoStats
before = net_vector 2 (iface (codes "lo") 10 ∷ iface (codes "eth0") 4294967290 ∷ [])

abbrev diff_slot : SgVector NetworkIoStats
diff_slot = net_vector 0 (iface [] 0 ∷ iface [] 0 ∷ [])

abbrev after : List NetworkIoStats
after = iface (codes "eth0") 4 ∷ iface (codes "lo") 30 ∷ []

-- /proc/net/dev with the counters of `after`.
abbrev net_dev : Stream
net_dev = record {
  text =
      codes "Inter-"
      ++ 10 ∷ codes " face"
      ++ 10 ∷ codes "eth0: 0 0 0 0 0 0 0 0 4 0 0 0 0 0"
      ++ 10 ∷ codes "  lo: 0 0 0 0 0 0 0 0 30 0 0 0 0 0"
      ++ 10 ∷ [];
  read_error = none;
}

-- The reader of the program on that file.
abbrev read_net : SgVector NetworkIoStats → World → SgError × VecPtr NetworkIoStats × World
read_net = sg_get_network_io_stats_int (iface [] 0) 100 (opened net_dev)

net-Fits : Fits 1 2 72
net-Fits = record {
  some_items = omega arith;
  count_fits = omega arith;
  item_sized = omega arith;
  bytes_fit = omega arith;
}

before-IsValid : IsValid before
before-IsValid = record { used_in = omega arith; alloc_in = omega arith; sized = omega arith }

diff_slot-IsValid : IsValid diff_slot
diff_slot-IsValid = record { used_in = omega arith; alloc_in = omega arith; sized = omega arith }

net_lines :
    lines_of 1024 net_dev.text
    ≡ (codes "Inter-" ++ 10 ∷ [])
      ∷ (codes " face" ++ 10 ∷ [])
      ∷ (codes "eth0: 0 0 0 0 0 0 0 0 4 0 0 0 0 0" ++ 10 ∷ [])
      ∷ (codes "  lo: 0 0 0 0 0 0 0 0 30 0 0 0 0 0" ++ 10 ∷ [])
      ∷ []
unfolding fgets_lines
net_lines = refl

net_read :
    read_net (sg_vector_destroy_unused before 0 calm).0 calm
    ≡ (error_none, live (net_vector 2 after), calm)
unfolding sg_get_network_io_stats_int dev_lines dev_fill dev_item append_loop append_one fill_item
    vector_update create_or_resize update_end sg_vector_resize resize_live resize_block init_rest
    sg_vector_destroy_unused destroy_items destroy_loop sg_vector_init_new init_items init_loop
    touch next_power2_in sg_realloc malloc match_dev match_name until_colon match_number
    match_spaces match_numbers skip_space digits sg_clear_error store_error_glob
net_read = rw net_lines refl

net-Reads :
    Reads sg_network_io_stats_item_compare sg_network_io_stats_item_compute_diff
      (λ s. s.interface_name)
      net_info
      1
      calm
      (read_net (sg_vector_destroy_unused before 0 calm).0 calm)
net-Reads = record {
  cur = net_vector 2 after;
  succeeds = ap (λ (o : SgError × VecPtr NetworkIoStats × World). o.0) net_read;
  fills = ap (λ (o : SgError × VecPtr NetworkIoStats × World). o.1) net_read;
  clean = ap (λ (o : SgError × VecPtr NetworkIoStats × World). o.2.fault) net_read;
  plenty = ap (λ (o : SgError × VecPtr NetworkIoStats × World). o.2.oom) net_read;
  cur_valid = record { used_in = omega arith; alloc_in = omega arith; sized = omega arith };
  cur_info = refl;
  keys = ((λ e. cc, tt), (tt, tt));
  block = net-Fits;
}

network_io-CopiesWhole : CopiesWhole sg_network_io_stats_item_copy
unfolding sg_network_io_stats_item_copy network_io_copied
network_io-CopiesWhole s d w h =
    rw (update_string-plenty d.interface_name s.interface_name w h) refl

multi_diff_lem_example :
    Compared sg_network_io_stats_item_compare sg_network_io_stats_item_compute_diff
      (λ s. s.interface_name)
      network_io-Keyed
      sg_network_io_stats_item_copy
      network_io-Copies
      network_io-CopiesWhole
      read_net
      before
      diff_slot
      before-IsValid
      diff_slot-IsValid
      refl
      refl
      refl
      refl
      calm
      (multi_diff net_info read_net (record { now = live before; diff = live diff_slot }) calm)
multi_diff_lem_example =
    multi_diff_lem sg_network_io_stats_item_compare sg_network_io_stats_item_compute_diff
      (λ s. s.interface_name) network_io-Keyed sg_network_io_stats_item_copy network_io-Copies
      network_io-CopiesWhole read_net before diff_slot before-IsValid diff_slot-IsValid refl refl
      refl refl calm refl net-Reads ((λ e. cc, tt), (tt, tt)) net-Fits

-- A reader of one counter that counts on, and the difference of two.
abbrev count_info : VectorInfo ℕ
count_info = record {
  item_size = 8;
  init_fn = none;
  copy_fn = none;
  compute_diff_fn = none;
  compare_fn = none;
  destroy_fn = none;
  raw = 0;
}

abbrev one : ℕ → SgVector ℕ
one n = record {
  used_count = 1;
  alloc_count = 1;
  block_shift = 0;
  info = count_info;
  cells = n ∷ [];
}

abbrev count_on : ℕ → World → SgError × ℕ × World
count_on n w = (error_none, n + 5, w)

abbrev count_diff : ℕ → ℕ → ℕ → World → SgError × ℕ × World
count_diff tgt now last w = (error_none, now - last, w)

one-Holds : (n : ℕ) → Holds (one n) n
one-Holds n = record {
  valid = record { used_in = omega arith; alloc_in = omega arith; sized = omega arith };
  one_item = refl;
  item = refl;
}

easy_access_lem_example :
    ReadOver count_info count_on 7 calm (easy_access count_info count_on (live (one 7)) calm)
easy_access_lem_example = easy_access_lem count_info count_on (one 7) 7 calm (one-Holds 7)

easy_diff_lem_example :
    Diffed count_info count_on count_diff 12
      (count_diff 3 12 7 (easy_access count_info count_on (live (one 7)) calm).2)
      (easy_diff count_info count_on count_diff
        (record { now = live (one 7); diff = live (one 3) })
        calm)
easy_diff_lem_example =
    easy_diff_lem count_info count_on count_diff (one 7) (one 3) 7 3 calm (one-Holds 7)
      (one-Holds 3) refl
