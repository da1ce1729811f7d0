-- ===== src/Host/Tests.antt =====
-- A host that is up for 350735 seconds.
use libstatgrab.Base.{refl, ◌≡◌, none, some, true, false}
use libstatgrab.Base.Bytes.{codes}
use libstatgrab.Error.{calm, sg_get_error}
use libstatgrab.Error.Codes.{error_open, error_uname}
use libstatgrab.Stdio.{Stream, opened, refused, scan_number, to_lld, skip_space, digits}
use libstatgrab.Stdio.Failures.{Failed}
use libstatgrab.Tools.Chains.{Ends}
use libstatgrab.Host.{
  HostInfo, unknown_configuration, Utsname, unamed, uname_failed, HostAsked, sg_get_host_info_int,
}
use libstatgrab.Host.Told.{host_of, host_info_lem}

abbrev host : Utsname
host = record {
  sysname = codes "Linux";
  release = codes "4.4";
  version = codes "1";
  machine = codes "x86_64";
  nodename = codes "box";
}

abbrev answers : HostAsked
answers = record {
  nprocessors_onln = 4;
  nprocessors_conf = 8;
  long_bit = 64;
  vsyscall64 = false;
  vsyscall32 = true;
}

abbrev before : HostInfo
before = record {
  os_name = none;
  os_release = none;
  os_version = none;
  platform = none;
  hostname = some (codes "old");
  bitwidth = 1;
  host_state = unknown_configuration;
  ncpus = 1;
  maxcpus = 1;
  uptime = 1;
  systime = 1;
}

abbrev uptime : Stream
uptime = record { text = codes "350735.47 234388.90"; read_error = none }

uptime_scanned : scan_number to_lld uptime.text ≡ some (350735, codes ".47 234388.90")
unfolding scan_number skip_space digits
uptime_scanned = refl

host_info_lem_example :
    Ends
      (host_of answers 5 host 350735)
      calm
      (sg_get_host_info_int answers 5 (unamed host) (opened uptime) before calm)
    × (let (rc, _, w') = sg_get_host_info_int answers 5 (unamed host) (refused 2) before calm in
        Failed error_open 2 calm (rc, w'))
    × (let (rc, _, w') =
          sg_get_host_info_int answers 5 (uname_failed 2) (opened uptime) before calm in
        (rc ≡ error_uname) × (sg_get_error w' ≡ error_uname) × (w'.fault ≡ calm.fault))
host_info_lem_example =
    host_info_lem answers 5 host uptime 350735 (codes ".47 234388.90") 2 before calm calm
      uptime_scanned refl
