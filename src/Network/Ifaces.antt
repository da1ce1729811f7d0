-- ===== src/Network/Ifaces.antt =====
-- The interfaces of src/libstatgrab/network_stats.c: the items, and the reader of /proc/net/dev that
-- asks the kernel about each.
pub mod Found
mod Tests
use libstatgrab.Base.{
  ℕ, ◌+◌, ◌*◌, ◌%◌, Bool, List, [], ◌∷◌, Option, none, some, take, ◌==◌, if◌then◌else◌,
}
use libstatgrab.Base.Bytes.{Bytes, codes}
use libstatgrab.Error.{World, no_error, sg_get_error, sg_set_error_fmt, sg_set_error_with_errno_fmt}
use libstatgrab.Error.Codes.{SgError, error_none, error_open, error_parse, error_socket}
use libstatgrab.Stdio.{
  Opened, refused, opened, Stream, set_errno, after_reads, lines_of, skip_space,
}
use libstatgrab.Tools.Chains.{and_then}
use libstatgrab.Tools.Strings.{sg_update_string}
use libstatgrab.Vector.{SgVector, VectorInfo, VecPtr, live}
use libstatgrab.Vector.Append.{Appended, append_loop}
use libstatgrab.Network.Reader.{until_colon}

pub data IfaceDuplex : Type 0 where
  duplex_full duplex_half duplex_unknown : IfaceDuplex

pub data IfaceUpdown : Type 0 where
  iface_down iface_up : IfaceUpdown

-- `sg_network_iface_stats`
pub record IfaceStats : Type 0 where
  pub interface_name : Option Bytes
  pub speed : ℕ
  pub factor : ℕ
  pub duplex : IfaceDuplex
  pub up : IfaceUpdown
  pub systime : ℕ

abbrev pub sg_network_iface_stats_item_init : IfaceStats → IfaceStats
sg_network_iface_stats_item_init d = record {
  interface_name = none;
  speed = 0;
  factor = 0;
  duplex = duplex_unknown;
  up = iface_down;
  systime = 0;
}

-- `sg_network_iface_stats_item_copy`, which writes to its first argument.
unfoldable pub sg_network_iface_stats_item_copy :
    IfaceStats → IfaceStats → World → SgError × IfaceStats × World
sg_network_iface_stats_item_copy d s w =
    and_then (λ n. record d { interface_name = n })
      (sg_update_string d.interface_name s.interface_name w)
      (λ d1 w1. (error_none, record s { interface_name = d1.interface_name }, w1))

abbrev pub sg_network_iface_stats_item_destroy : IfaceStats → IfaceStats
sg_network_iface_stats_item_destroy d = record d { interface_name = none }

-- `VECTOR_INIT_INFO(sg_network_iface_stats)`. Vectors of interfaces are not cloned: the copying function
-- stands in it with its arguments in the other order than a vector has them, and is left out here.
abbrev pub network_iface_info : IfaceStats → VectorInfo IfaceStats
network_iface_info raw = record {
  item_size = 40;
  init_fn = some sg_network_iface_stats_item_init;
  copy_fn = none;
  compute_diff_fn = none;
  compare_fn = none;
  destroy_fn = some sg_network_iface_stats_item_destroy;
  raw = raw;
}

-- What `ioctl` with SIOCETHTOOL tells of an interface: `speed` is the field of that name, and
-- `whole_speed` what `ethtool_cmd_speed` makes of the answer.
pub record EthtoolCmd : Type 0 where
  pub speed : ℕ
  pub whole_speed : ℕ
  pub duplex : ℕ

-- The switch on the speed in a build without HAVE_ETHTOOL_CMD_SPEED_HI. No case has a `break`: from the one that
-- fits on, all are run, up to the default, which stores 0.
unfoldable pub run_cases : List ℕ → ℕ → ℕ
run_cases [] stored = 0
run_cases (c ∷ cases) stored = run_cases cases c

unfoldable pub enter_switch : List ℕ → ℕ → ℕ → ℕ
enter_switch [] speed stored = run_cases [] stored
enter_switch (c ∷ cases) speed stored =
    let later = enter_switch cases speed stored in
    if c == speed then run_cases (c ∷ cases) stored else later

abbrev pub known_speeds : List ℕ
known_speeds = 10 ∷ 100 ∷ 1000 ∷ 2500 ∷ 10000 ∷ []

unfoldable pub speed_switch : ℕ → ℕ → ℕ
speed_switch speed stored = enter_switch known_speeds speed stored

abbrev pub duplex_of : ℕ → IfaceDuplex
duplex_of n = if n == 1 then duplex_full else if n == 0 then duplex_half else duplex_unknown

abbrev pub max_ifr_name : ℕ
max_ifr_name = 16

abbrev pub up_of : ℕ → IfaceUpdown
up_of f = if f % 2 == 1 then iface_up else iface_down

abbrev pub iface_buf_size : ℕ
iface_buf_size = 8096

-- The name of the interface in a line: the text before the colon, less its white space in front.
unfoldable pub iface_name : Bytes → Option Bytes
iface_name line = elim (until_colon line) [ none ↦ none | some (name, _) ↦ some (skip_space name) ]

-- `speed_hi` says whether HAVE_ETHTOOL_CMD_SPEED_HI is set. `flags` and `ethtool` are the answers of `ioctl` for
-- the name in a `struct ifreq`, `none` where it fails; `now` is what `time` returns.
module _ (speed_hi : Bool) (flags : Bytes → Option ℕ) (ethtool : Bytes → Option EthtoolCmd)
    (now : ℕ) where
  -- What SIOCETHTOOL is asked for, and the time.
  unfoldable pub iface_speed : Option EthtoolCmd → IfaceStats → IfaceStats
  iface_speed none d = record d { speed = 0; factor = 0; duplex = duplex_unknown; systime = now }
  iface_speed (some e) d = record d {
    speed = if speed_hi then e.whole_speed else speed_switch e.speed d.speed;
    factor = 1000 * 1000;
    duplex = duplex_of e.duplex;
    systime = now;
  }

  unfoldable pub iface_fill : Bytes → ℕ → IfaceStats → World → SgError × IfaceStats × World
  iface_fill name f d w =
      and_then (λ n. record d { interface_name = n })
        (sg_update_string d.interface_name (some name) w)
        (λ d1 w1. (
          error_none,
          iface_speed (ethtool (take max_ifr_name name)) (record d1 { up = up_of f }),
          w1,
        ))

  -- A line without a colon, and an interface whose flags cannot be had, are skipped.
  unfoldable pub iface_line : Bytes → Option (IfaceStats → World → SgError × IfaceStats × World)
  iface_line line = elim (iface_name line) [
    | none ↦ none
    | some name ↦ elim (flags (take max_ifr_name name)) [
      | none ↦ none
      | some f ↦ some (iface_fill name f)
    ]
  ]

  module _ (raw : IfaceStats) where
    unfoldable pub iface_lines :
        Stream → List Bytes → SgVector IfaceStats → World → SgError × VecPtr IfaceStats × World
    iface_lines f (a ∷ b ∷ lines) v w =
        let out = append_loop (network_iface_info raw) iface_line lines 0 (live v) w in
        (out.rc, out.vector, if no_error out.rc then after_reads f out.world else out.world)
    iface_lines f _ v w =
        let (rc, w') = sg_set_error_fmt error_parse none (after_reads f w) in (rc, live v, w')

    -- The branches on `socket`, which returns a socket or fails with an `errno`.
    unfoldable pub iface_socket :
        Option ℕ → Stream → SgVector IfaceStats → World → SgError × VecPtr IfaceStats × World
    iface_socket (some e) f v w =
        let (rc, w') = sg_set_error_with_errno_fmt error_socket none (set_errno e w) in
        (rc, live v, w')
    iface_socket none f v w = iface_lines f (lines_of iface_buf_size f.text) v w

    -- `sg_get_network_iface_stats_int`, where `fopen` of /proc/net/dev returns what is given.
    unfoldable pub sg_get_network_iface_stats_int :
        Opened → Option ℕ → SgVector IfaceStats → World → SgError × VecPtr IfaceStats × World
    sg_get_network_iface_stats_int (refused e) socket v w =
        let (rc, w') =
          sg_set_error_with_errno_fmt error_open (some (codes "/proc/net/dev")) (set_errno e w) in
        (rc, live v, w')
    sg_get_network_iface_stats_int (opened f) socket v w = iface_socket socket f v w
