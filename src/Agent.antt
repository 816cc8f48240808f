-- ===== src/Agent.antt =====
-- Agents: their transitions, and when one may be closed.
pub mod Lifecycle
pub mod Domain
