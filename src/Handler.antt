-- ===== src/Handler.antt =====
-- The package handler: what the handlers of a session do with the messages that it reads.
pub mod Setup
pub mod Handshake
pub mod Copy
pub mod Terminal
pub mod Life
pub mod Stream
pub mod MuxPortForward
