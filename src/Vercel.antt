-- ===== src/Vercel.antt =====
-- templates/vercel-app/api/_lib: the serverless function in front of the gateway.
pub mod Firebase
pub mod Auth
pub mod AppCheck
pub mod Http
pub mod Wiring
pub mod Pipeline
pub mod Handler
