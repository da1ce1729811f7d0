-- ===== src/Error/Codes.antt =====
-- The error codes of src/libstatgrab/statgrab.h.in and their texts (`sg_str_error` of
-- src/libstatgrab/error.c).
use libstatgrab.Base.{String}

pub data SgError : Type 0 where
  error_none error_invalid_argument error_asprintf error_sprintf error_devices error_devstat_getdevs
        error_devstat_selectdevs error_diskinfo error_enoent error_getifaddrs error_getmntinfo
        error_getpagesize error_host error_kstat_data_lookup error_kstat_lookup error_kstat_open
        error_kstat_read error_kvm_getswapinfo error_kvm_openfiles error_malloc error_memstatus
        error_open error_opendir error_readdir error_parse error_pdhadd error_pdhcollect
        error_pdhopen error_pdhread error_permission error_pstat error_setegid error_seteuid
        error_setmntent error_socket error_swapctl error_sysconf error_sysctl error_sysctlbyname
        error_sysctlnametomib error_sysinfo error_machcall error_iokit error_uname error_unsupported
        error_xsw_ver_mismatch error_getmsg error_putmsg error_initialisation error_mutex_lock
        error_mutex_unlock :
      SgError

-- `sg_str_error`. The enumeration has no other value, so "unknown error" is never returned.
unfoldable pub sg_str_error : SgError → String
sg_str_error error_none = "no error"
sg_str_error error_invalid_argument = "invalid argument"
sg_str_error error_asprintf = "asprintf failed"
sg_str_error error_sprintf = "sprintf failed"
sg_str_error error_devices = "failed to get device list"
sg_str_error error_devstat_getdevs = "devstat_getdevs failed"
sg_str_error error_devstat_selectdevs = "devstat_selectdevs failed"
sg_str_error error_diskinfo = "disk function failed"
sg_str_error error_enoent = "system call received ENOENT"
sg_str_error error_getifaddrs = "getifaddress failed"
sg_str_error error_getmntinfo = "getmntinfo failed"
sg_str_error error_getpagesize = "getpagesize failed"
sg_str_error error_host = "gather host information faile"
sg_str_error error_kstat_data_lookup = "kstat_data_lookup failed"
sg_str_error error_kstat_lookup = "kstat_lookup failed"
sg_str_error error_kstat_open = "kstat_open failed"
sg_str_error error_kstat_read = "kstat_read failed"
sg_str_error error_kvm_getswapinfo = "kvm_getswapinfo failed"
sg_str_error error_kvm_openfiles = "kvm_openfiles failed"
sg_str_error error_malloc = "malloc failed"
sg_str_error error_memstatus = "memory status failed"
sg_str_error error_open = "failed to open file"
sg_str_error error_opendir = "failed to open directory"
sg_str_error error_readdir = "failed to read directory"
sg_str_error error_parse = "failed to parse input"
sg_str_error error_pdhadd = "PDH add counter failed"
sg_str_error error_pdhcollect = "PDH snapshot failed"
sg_str_error error_pdhopen = "PDH open failed"
sg_str_error error_pdhread = "PDH read counter failed"
sg_str_error error_permission = "access violation"
sg_str_error error_pstat = "pstat failed"
sg_str_error error_setegid = "setegid failed"
sg_str_error error_seteuid = "seteuid failed"
sg_str_error error_setmntent = "setmntent failed"
sg_str_error error_socket = "socket failed"
sg_str_error error_swapctl = "swapctl failed"
sg_str_error error_sysconf = "sysconf failed"
sg_str_error error_sysctl = "sysctl failed"
sg_str_error error_sysctlbyname = "sysctlbyname failed"
sg_str_error error_sysctlnametomib = "sysctlnametomib failed"
sg_str_error error_sysinfo = "sysinfo failed"
sg_str_error error_machcall = "mach kernel operation failed"
sg_str_error error_iokit = "I/O Kit operation failed"
sg_str_error error_uname = "uname failed"
sg_str_error error_unsupported = "unsupported function"
sg_str_error error_xsw_ver_mismatch = "XSW version mismatch"
sg_str_error error_getmsg = "getmsg failed"
sg_str_error error_putmsg = "putmsg failed"
sg_str_error error_initialisation = "initialization error"
sg_str_error error_mutex_lock = "lock mutex failed"
sg_str_error error_mutex_unlock = "unlock mutex failed"
