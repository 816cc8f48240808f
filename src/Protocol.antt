-- ===== src/Protocol.antt =====
-- The wire protocol of src/shared/protocol.
pub mod Codec
