-- ===== src/Kernel.antt =====
-- The kernel: kernel/src.
pub mod Kobj
pub mod Pages
pub mod Paging
pub mod Keyboard
pub mod Ports
pub mod Wsys
pub mod Mouse
pub mod CgaText
pub mod Driver
pub mod Fs
