-- ===== src/Session.antt =====
-- session.go: the two loops of a session, and its life.
pub mod Setup
pub mod Verdict
pub mod Incoming
pub mod Outgoing
pub mod Life
pub mod Nop
pub mod Connect
pub mod Client
