-- ===== src/Fallback.antt =====
-- src/model_dispatcher/fallback: the handlers of one model call, and the chain that runs them.
pub mod Conditions
pub mod Context
pub mod Handlers
pub mod Retry
pub mod Invocation
pub mod Chain
