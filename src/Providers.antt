-- ===== src/Providers.antt =====
-- src/model_dispatcher/providers: the strategy interface and the registry.
pub mod Base
pub mod Registry
pub mod Mock
pub mod RetryHints
pub mod Openai
pub mod Pairing
pub mod Anthropic
pub mod Gemini
