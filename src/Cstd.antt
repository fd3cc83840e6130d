-- ===== src/Cstd.antt =====
-- The C library: lib/cstd/src.
pub mod Memory
pub mod Ctype
pub mod Strings
pub mod Time
pub mod Malloc
pub mod Stdlib
