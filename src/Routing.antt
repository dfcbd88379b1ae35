-- ===== src/Routing.antt =====
-- src/model_dispatcher/routing: how hard a request is, and which providers may serve it.
pub mod Triage
pub mod Router
