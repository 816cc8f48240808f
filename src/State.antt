-- ===== src/State.antt =====
-- src/state: the orchestration state, and the reducer that applies events to it.
pub mod Types
pub mod Host
pub mod History
pub mod Event
pub mod Canonical
pub mod Consistent
pub mod Invariants
pub mod Reducer
