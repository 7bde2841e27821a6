-- ===== src/Examples.antt =====
-- Runs of the code's definitions on concrete input.
pub mod Versions
pub mod Wire
pub mod Incoming
pub mod Outgoing
pub mod Handlers
pub mod Life
pub mod Mux
pub mod System
pub mod Dials
pub mod Receiving
pub mod Sending
pub mod Waiting
pub mod Starting
pub mod Setup
pub mod Acknowledging
