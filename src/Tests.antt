-- ===== src/Tests.antt =====
-- A concrete gateway, and the theorems applied to it.
pub mod Fixtures
mod Accounting
mod Racing
mod Visitors
mod Choosing
pub mod Security
mod Serving
mod Failing
mod Conversation
mod Vendors
mod Sockets
pub mod Recovering
pub mod Function
mod Demonstration
