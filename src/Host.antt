-- ===== src/Host.antt =====
-- src/libstatgrab/os_info.c for Linux: what is told of the host.
pub mod Told
mod Tests
use libstatgrab.Base.{ℕ, ◌*◌, ◌%◌, ◌^◌, Bool, ◌||◌, Option, none, some, if◌then◌else◌}
use libstatgrab.Base.Bytes.{Bytes, codes}
use libstatgrab.Error.{World, sg_set_error_fmt, sg_set_error_with_errno_fmt}
use libstatgrab.Error.Codes.{SgError, error_none, error_open, error_parse, error_uname}
use libstatgrab.Stdio.{Stream, Opened, refused, opened, set_errno, scan_number, to_lld}
use libstatgrab.Tools.Chains.{and_then}
use libstatgrab.Tools.Strings.{sg_update_string}

-- `sg_host_state`
pub data HostState : Type 0 where
  unknown_configuration physical_host virtual_machine paravirtual_machine hardware_virtualized :
      HostState

-- `sg_host_info`
pub record HostInfo : Type 0 where
  pub os_name : Option Bytes
  pub os_release : Option Bytes
  pub os_version : Option Bytes
  pub platform : Option Bytes
  pub hostname : Option Bytes
  pub bitwidth : ℕ
  pub host_state : HostState
  pub ncpus : ℕ
  pub maxcpus : ℕ
  pub uptime : ℕ
  pub systime : ℕ

-- `struct utsname`, and the call of `uname`, which may fail with an `errno`.
pub record Utsname : Type 0 where
  pub sysname : Bytes
  pub release : Bytes
  pub version : Bytes
  pub machine : Bytes
  pub nodename : Bytes

pub data Unamed : Type 0 where
  uname_failed : ℕ → Unamed
  unamed : Utsname → Unamed

-- The answers of `sysconf`, as words, and those of `access` for the two files of system calls.
pub record HostAsked : Type 0 where
  pub nprocessors_onln : ℕ
  pub nprocessors_conf : ℕ
  pub long_bit : ℕ
  pub vsyscall64 : Bool
  pub vsyscall32 : Bool

-- A word stored in an `unsigned`.
abbrev pub to_unsigned : ℕ → ℕ
to_unsigned n = n % 2 ^ 32

abbrev pub sg_os_stats_item_init : HostInfo → HostInfo
sg_os_stats_item_init d = record {
  os_name = none;
  os_release = none;
  os_version = none;
  platform = none;
  hostname = none;
  bitwidth = 0;
  host_state = unknown_configuration;
  ncpus = 0;
  maxcpus = 0;
  uptime = 0;
  systime = 0;
}

-- After `free` of its strings the item is cleared.
abbrev pub sg_os_stats_item_destroy : HostInfo → HostInfo
sg_os_stats_item_destroy d = sg_os_stats_item_init d

-- The numbers at the start.
abbrev pub host_cleared : HostInfo → HostInfo
host_cleared d = record d {
  ncpus = 0;
  maxcpus = 0;
  bitwidth = 0;
  host_state = unknown_configuration;
  uptime = 0;
  systime = 0;
}

module _ (asked : HostAsked) (now : ℕ) where
  abbrev pub host_numbers : ℕ → HostInfo → HostInfo
  host_numbers up d = record d {
    uptime = up;
    ncpus = to_unsigned asked.nprocessors_onln;
    maxcpus = to_unsigned asked.nprocessors_conf;
    bitwidth = if asked.vsyscall64 || asked.vsyscall32 then 64 else to_unsigned asked.long_bit;
    host_state = unknown_configuration;
    systime = now;
  }

  -- From the uptime on, where `fopen` of /proc/uptime returns what is given.
  unfoldable pub host_uptime : Opened → HostInfo → World → SgError × HostInfo × World
  host_uptime (refused e) d w =
      let (rc, w') =
        sg_set_error_with_errno_fmt error_open (some (codes "/proc/uptime")) (set_errno e w) in
      (rc, d, w')
  host_uptime (opened f) d w = elim (scan_number to_lld f.text) [
    | none ↦ let (rc, w') = sg_set_error_fmt error_parse none w in (rc, d, w')
    | some (up, _) ↦ (error_none, host_numbers up d, w)
  ]

  unfoldable pub host_names : Utsname → Opened → HostInfo → World → SgError × HostInfo × World
  host_names u uptime d w =
      and_then (λ n. record d { os_name = n }) (sg_update_string d.os_name (some u.sysname) w)
        (λ d1 w1.
          and_then (λ n. record d1 { os_release = n })
            (sg_update_string d1.os_release (some u.release) w1)
            (λ d2 w2.
              and_then (λ n. record d2 { os_version = n })
                (sg_update_string d2.os_version (some u.version) w2)
                (λ d3 w3.
                  and_then (λ n. record d3 { platform = n })
                    (sg_update_string d3.platform (some u.machine) w3)
                    (λ d4 w4.
                      and_then (λ n. record d4 { hostname = n })
                        (sg_update_string d4.hostname (some u.nodename) w4) (host_uptime uptime)))))

  -- `sg_get_host_info_int`, where `time` returns `now`.
  unfoldable pub sg_get_host_info_int :
      Unamed → Opened → HostInfo → World → SgError × HostInfo × World
  sg_get_host_info_int (uname_failed e) uptime d w =
      let (rc, w') = sg_set_error_with_errno_fmt error_uname none (set_errno e w) in
      (rc, host_cleared d, w')
  sg_get_host_info_int (unamed u) uptime d w = host_names u uptime (host_cleared d) w
