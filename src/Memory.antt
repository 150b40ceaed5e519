-- ===== src/Memory.antt =====
-- The memory managers: kernel/Memory/.
pub mod Buddy
pub mod Pmm
pub mod Slab
