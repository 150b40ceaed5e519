-- ===== src/Files.antt =====
-- The files in memory: kernel/VFS/.
pub mod Ramfs
pub mod Tree
pub mod Calls
