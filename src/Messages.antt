-- ===== src/Messages.antt =====
-- The package messages: the agent message, its wire format and its constructors.
pub mod AgentMessageFlag
pub mod PayloadType
pub mod PayloadTypeFlag
pub mod Types
pub mod Wire
pub mod Text
pub mod Message
pub mod Create
pub mod Answers
pub mod Codec
pub mod Layout
pub mod RoundTrip
pub mod Stages
pub mod Malformed
