-- ===== src/Lib.antt =====
-- libstatgrab: a library in C that reads the statistics of a system. This development models the
-- core of it that does not depend on the system: its vectors of items, its error slots, its strings,
-- and the items that its components keep in vectors, in the build for Linux with threads and NDEBUG
-- on a machine with 64-bit words.
--
-- How the parts interact: every component (network, disk and others) keeps its statistics as vectors.
-- A vector (Vector, src/libstatgrab/vector.c) is a header and a block of items; a component hands it
-- the size of an item and the functions that initialise, copy, compare, subtract and destroy one.
-- Two snapshots are subtracted item by item with `sg_vector_compute_diff`. Every operation reports
-- failures through the error slot of its thread (Error, src/libstatgrab/error.c), and blocks
-- and strings come from the allocation and string functions of Tools (src/libstatgrab/tools.c).
--
-- The files:
--   Base: names of the libraries, lists and tests on native numbers, 64-bit words, strings as bytes.
--   Error (src/libstatgrab/error.c, error.h): `World` holds the slot of the thread (`sg_error_glob`), the
--     slot used before initialisation (`pre_init_errs`), `errno`, the coming answers of `malloc`, and a
--     flag for what C leaves undefined: an access outside of a block, to a freed block or through
--     NULL. Error/Codes has the codes and `sg_str_error`; Error/Slot holds the proofs.
--   Tools/Alloc and Tools/Strings (src/libstatgrab/tools.c): `sg_realloc`, `strlcpy`, `strlcat`,
--     `sg_strnlen`, `sg_update_string`, `sg_lupdate_string`, `sg_update_mem`, `sg_concat_string`, down to the
--     bytes of a block. Tools/Strings/Copying and Updates hold the proofs.
--   Vector (src/libstatgrab/vector.c, vector.h): `sg_vector` as a record with the cells that its block has
--     room for; Vector/Clone and Vector/Diff go on with cloning and differences. Proofs:
--     Vector/Sizes on the arithmetic of sizes, Vector/Cells on the loops, Vector/Grow on creation,
--     Vector/Resize, Vector/Copies and Vector/Into on cloning, Vector/Matching and
--     Vector/Differences on differences, Vector/Differences/Plenty on both where memory is plenty.
--   Network and Disk (src/libstatgrab/network_stats.c, disk_stats.c): the items of their vectors.
--     Network/Items and Disk/Items prove for them what the theorems on vectors ask of an item.
--     Network/Reader and Network/Ifaces are the readers of /proc/net/dev, Disk/Io that of /proc/diskstats, and
--     Disk/Mounts that of the mounted file systems, where what `ioctl`, `lstat`, `realpath` and
--     `statvfs64` answer are arguments; their modules hold the proofs on lines and on what is listed.
--     Disk/Filesystems has the list of types of file systems, `sg_set_valid_filesystems` and
--     `is_valid_fs_type`; Disk/Filesystems/Search proves what its binary search finds, Disk/Filesystems/Sorting that
--     the list is sorted for it. Disk/Filesystems/Known reads the list from /proc/filesystems: Words, Builtin and Types
--     under it prove what a line tells, what the built-in list gives, and what the whole makes valid.
--   Stdio: what the readers use of the C library, `fopen`, `fgets`, `sscanf` and `strncmp`, on text files;
--     Stdio/Lines, Stdio/Prefixes, Stdio/Numbers and
--     Stdio/Failures hold facts on them. Stdio/Pairs is the loop for two
--     figures that swap_stats.c and page_stats.c share; Stdio/Pairs/Found proves what it finds.
--   Vector/Append (src/libstatgrab/vector.h): the macro VECTOR_UPDATE, and the loop by which readers add
--     items with it; Vector/Append/Growth proves what the vector holds in the end, Vector/Append/Listing what a
--     reader returns, Vector/Append/Plenty that all items are there where memory is plenty
--     (with Vector/Plenty on creation and resizing).
--   Memory, Swap and Page (src/libstatgrab/memory_stats.c, swap_stats.c, page_stats.c): the readers of
--     /proc; their Figures hold the proofs.
--   Users (src/libstatgrab/user_stats.c): the reader of utmpx and utmp. Users/Items proves what is made of
--     a record, Users/Listed which users are listed.
--   Host and Load (src/libstatgrab/os_info.c, load_stats.c): the host, with the proofs in Host/Told, and the
--     load averages, over some type of floating point numbers.
--   Tools/Pages, Tools/Reading and Tools/Chains (src/libstatgrab/tools.h, tools.c): the page size,
--     `sg_f_read_line`, `sg_get_string_match`, and updates of strings joined by `||`.
--   Access (src/libstatgrab/globals.h): the functions that the macros EASY_COMP_ACCESS, MULTI_COMP_ACCESS,
--     EASY_COMP_DIFF and MULTI_COMP_DIFF define, over the slots of a component; the reader
--     of the component is an argument. Access/Items and Access/Snapshots hold the proofs.
--   Cpu, Page/Differences and Process (src/libstatgrab/cpu_stats.c, page_stats.c, process_stats.c): the differences of
--     counters, the reader of /proc/stat (Cpu/Reader), the source of percentages (Cpu/Percents, with the floating point function as an
--     argument), the counts of processes by their state, the orders of processes.
--   Globals (src/libstatgrab/globals.c): `sg_comp_init`, `sg_comp_destroy` and the named locks. Globals/Locks
--     has the proofs on the table of locks, Globals/Storage those on the layout of a thread's
--     storage, Globals/Startup those on the start.
--   The Tests of each part apply the theorems to concrete inputs.
--
-- Pointers: a vector pointer is NULL, live or dangling. A handler that takes the address of a pointer
-- returns the new pointer. An item function that C calls through a pointer is an `Option`, NULL as
-- `none`.
--
-- Fuel: the loop of `sg_vector_create` that finds the block shift has 32 rounds, the width of
-- `unsigned`, in which it ends for block sizes up to 2 ^ 31. The loop over symbolic links of
-- Disk/Mounts has two rounds: `realpath` gives no link, so the second test ends it. The binary search of
-- Disk/Filesystems has as many rounds as there are names; each leaves at most half of them. All other loops
-- run over a count, a list or a text that is known when they start, and are recursion on it.
--
-- Sizes: the statistics are 64-bit words that wrap around. The offsets of a thread's storage in Globals are numbers
-- without bound where the source has `size_t`; they are sums of a fixed table of small sizes.
--
-- Not modelled: the readers for other systems than Linux, the reader of processes, floating point percentages, the
-- allocation of a thread's storage, logging, and the programs saidar and statgrab.
pub mod Base
pub mod Error
pub mod Tools
pub mod Vector
pub mod Network
pub mod Disk
pub mod Access
pub mod Cpu
pub mod Page
pub mod Process
pub mod Globals
pub mod Stdio
pub mod Memory
pub mod Swap
pub mod Users
pub mod Host
pub mod Load
