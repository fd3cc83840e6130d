-- ===== src/Rusk.antt =====
-- The window server: prgm/rusk/src.
pub mod Expanses
pub mod Keys
pub mod Partial
pub mod Serve
