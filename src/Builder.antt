-- ===== src/Builder.antt =====
-- util/f301_builder, the program that makes a disk image of the file system.
pub mod Nodes
pub mod Image
pub mod Parse
pub mod Load
