-- ===== src/Quota.antt =====
-- src/model_dispatcher/quota: limits, counters, the reserve and commit protocol, and the estimator.
pub mod Tenant
pub mod Store
pub mod Manager
pub mod Tokenizer
