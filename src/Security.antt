-- ===== src/Security.antt =====
-- src/model_dispatcher/security: credentials, the perimeter and the redaction of logs.
pub mod Credentials
pub mod Perimeter
pub mod Redaction
