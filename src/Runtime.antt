-- ===== src/Runtime.antt =====
-- runtime: the simulation runtime.
pub mod Scheduler
