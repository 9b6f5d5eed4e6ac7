-- ===== src/Scheduler.antt =====
-- internal/scheduler
pub mod Worker
