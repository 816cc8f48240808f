-- ===== src/Shared.antt =====
-- src/shared: helpers that the other parts share.
pub mod Ids
