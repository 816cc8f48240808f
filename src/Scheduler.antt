-- ===== src/Scheduler.antt =====
-- src/scheduler: which queued tasks may start.
pub mod Types
pub mod Limits
pub mod Queue
pub mod Admission
pub mod Reuse
pub mod Budgets
