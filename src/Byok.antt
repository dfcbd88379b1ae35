-- ===== src/Byok.antt =====
-- src/model_dispatcher/byok: visitors' keys, and a dispatch that is bounded in time.
pub mod Registry
pub mod Timeout
