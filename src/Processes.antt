-- ===== src/Processes.antt =====
-- The processes: kernel/Process/.
pub mod Ready
