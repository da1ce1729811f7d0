-- ===== src/Host/Told.antt =====
-- What `sg_get_host_info_int` tells.
use libstatgrab.Base.{ℕ, ◌≡◌, refl, ◌∙◌, [], ◌||◌, none, some, inl, if◌then◌else◌}
use libstatgrab.Base.Bytes.{Bytes, codes}
use libstatgrab.Error.{World, sg_get_error, sg_set_error_with_errno_fmt, sg_set_error_int}
use libstatgrab.Error.Slot.{get_error-set, set_SameRest}
use libstatgrab.Error.Codes.{error_open, error_uname}
use libstatgrab.Stdio.{Stream, refused, opened, set_errno, scan_number, to_lld}
use libstatgrab.Stdio.Failures.{Failed, set_with_errno-Failed}
use libstatgrab.Tools.Chains.{Ends, and_then-Ends, and_then-done}
use libstatgrab.Tools.Strings.Updates.{update_string_lem, update_string-plenty}
use libstatgrab.Host.{
  HostInfo, unknown_configuration, Utsname, unamed, uname_failed, HostAsked, to_unsigned,
  host_cleared, host_uptime, host_names, sg_get_host_info_int,
}

module _ (asked : HostAsked) (now : ℕ) where
  -- The host with its names, and up for some seconds.
  abbrev pub host_of : Utsname → ℕ → HostInfo
  host_of u up = record {
    os_name = some u.sysname;
    os_release = some u.release;
    os_version = some u.version;
    platform = some u.machine;
    hostname = some u.nodename;
    bitwidth = if asked.vsyscall64 || asked.vsyscall32 then 64 else to_unsigned asked.long_bit;
    host_state = unknown_configuration;
    ncpus = to_unsigned asked.nprocessors_onln;
    maxcpus = to_unsigned asked.nprocessors_conf;
    uptime = up;
    systime = now;
  }

  host_names-Ends :
      (u : Utsname) (f : Stream) (up : ℕ) (rest : Bytes) (d : HostInfo) (w : World)
      → scan_number to_lld f.text ≡ some (up, rest)
      → Ends (host_of u up) w (host_names asked now u (opened f) d w)
  unfolding host_names host_uptime
  host_names-Ends u f up rest d w e =
      and_then-Ends _ _ d.os_name (some u.sysname) w _ _ (update_string_lem d.os_name u.sysname w)
        (λ w1.
          and_then-Ends _ _ d.os_release (some u.release) w1 _ _
            (update_string_lem d.os_release u.release w1)
            (λ w2.
              and_then-Ends _ _ d.os_version (some u.version) w2 _ _
                (update_string_lem d.os_version u.version w2)
                (λ w3.
                  and_then-Ends _ _ d.platform (some u.machine) w3 _ _
                    (update_string_lem d.platform u.machine w3)
                    (λ w4.
                      and_then-Ends _ _ d.hostname (some u.nodename) w4 _ _
                        (update_string_lem d.hostname u.nodename w4)
                        (λ w5. rw (e, host_uptime) (refl, inl (refl, refl)))))))

  abbrev named : Utsname → HostInfo → HostInfo
  named u d = record d {
    os_name = some u.sysname;
    os_release = some u.release;
    os_version = some u.version;
    platform = some u.machine;
    hostname = some u.nodename;
  }

  host_names-plenty :
      (u : Utsname) (e : ℕ) (d : HostInfo) (w : World)
      → w.oom ≡ []
      → host_names asked now u (refused e) d w ≡ host_uptime asked now (refused e) (named u d) w
  unfolding host_names
  host_names-plenty u e d w h =
      and_then-done _ _ w _ _ (update_string-plenty d.os_name (some u.sysname) w h)
      ∙ and_then-done _ _ w _ _ (update_string-plenty d.os_release (some u.release) w h)
      ∙ and_then-done _ _ w _ _ (update_string-plenty d.os_version (some u.version) w h)
      ∙ and_then-done _ _ w _ _ (update_string-plenty d.platform (some u.machine) w h)
      ∙ and_then-done _ _ w _ _ (update_string-plenty d.hostname (some u.nodename) w h)

  -- `sg_get_host_info_int` where `uname` succeeds and /proc/uptime starts with a number: no error, and the host
  -- has the names that `uname` tells, that number as its uptime, the processors that `sysconf` tells in 32
  -- bits, and 64 as its bitwidth where one of the two files for system calls is there; or a name cannot be
  -- copied, and the error that is set is returned. Where /proc/uptime is not opened and memory is plenty,
  -- `SG_ERROR_OPEN` is returned and set; where `uname` fails, `SG_ERROR_UNAME` is.
  pub host_info_lem :
      (u : Utsname) (f : Stream) (up : ℕ) (rest : Bytes) (e : ℕ) (d : HostInfo) (w w0 : World)
      → scan_number to_lld f.text ≡ some (up, rest)
      → w0.oom ≡ []
      → Ends (host_of u up) w (sg_get_host_info_int asked now (unamed u) (opened f) d w)
        × (let (rc, _, w') = sg_get_host_info_int asked now (unamed u) (refused e) d w0 in
            Failed error_open e w0 (rc, w'))
        × (let (rc, _, w') = sg_get_host_info_int asked now (uname_failed e) (opened f) d w in
            (rc ≡ error_uname) × (sg_get_error w' ≡ error_uname) × (w'.fault ≡ w.fault))
  unfolding sg_get_host_info_int host_uptime sg_set_error_with_errno_fmt sg_set_error_int
  host_info_lem u f up rest e d w w0 scanned h = (
    host_names-Ends u f up rest (host_cleared d) w scanned,
    rw (host_names-plenty u e (host_cleared d) w0 h)
        (set_with_errno-Failed error_open (codes "/proc/uptime") e w0),
    (
      refl,
      get_error-set error_uname e none (set_errno e w),
      (set_SameRest error_uname e none (set_errno e w)).fault_kept,
    ),
  )
