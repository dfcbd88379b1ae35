-- ===== src/Onboarding.antt =====
-- src/model_dispatcher/onboarding: the handoff contract, and the stage that a tenant is in.
pub mod Handoff
pub mod Flow
