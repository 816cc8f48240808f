-- ===== src/Herdr.antt =====
-- src/herdr: what the terminal multiplexer reports, and the reconciliation of agents with it.
pub mod Types
pub mod Reconciler
