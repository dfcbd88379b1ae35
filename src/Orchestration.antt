-- ===== src/Orchestration.antt =====
-- src/model_dispatcher/orchestration: the tool-calling loop.
pub mod Tools
pub mod State
pub mod Loop
