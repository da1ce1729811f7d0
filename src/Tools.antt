-- ===== src/Tools.antt =====
-- src/libstatgrab/tools.c: allocation and strings.
pub mod Alloc
pub mod Strings
pub mod Pages
pub mod Chains
pub mod Reading
