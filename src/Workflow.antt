-- ===== src/Workflow.antt =====
-- Workflows of src/scheduler: steps that depend on one another, run as tasks.
pub mod Types
pub mod Engine
pub mod Isolation
pub mod Validation
pub mod Progress
pub mod Plan
