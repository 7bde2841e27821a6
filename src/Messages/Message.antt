-- ===== src/Messages/Message.antt =====
-- The struct `AgentMessage` of messages/message.go.
use ssmlib.Common.{ℕ, Bytes, ◌≡◌, [], ◌<◌, ◌^◌, length, replicate}
use ssmlib.Messages.Types.{MessageType}
use ssmlib.Messages.Wire.{Time, zero_time}

-- `SequenceNumber` is the bit pattern of an int64. `MessageID` is a Go array of 16 bytes.
pub record AgentMessage : Type 0 where
  pub header_length : ℕ
  pub message_type : MessageType
  pub schema_version : ℕ
  pub created_date : Time
  pub sequence_number : ℕ
  pub flags : ℕ
  pub message_id : Bytes
  pub payload_digest : Bytes
  pub payload_type : ℕ
  pub payload_length : ℕ
  pub payload : Bytes

-- What the Go types of the fields give: the widths of the numbers and of the id.
pub record HasGoTypes (m : AgentMessage) : Type 0 where
  pub header_length_u32 : m.header_length < 2 ^ 32
  pub schema_version_u32 : m.schema_version < 2 ^ 32
  pub sequence_number_i64 : m.sequence_number < 2 ^ 64
  pub flags_u64 : m.flags < 2 ^ 64
  pub message_id_array : length m.message_id ≡ 16
  pub payload_type_u32 : m.payload_type < 2 ^ 32
  pub payload_length_u32 : m.payload_length < 2 ^ 32

abbrev pub agent_msg_header_len : ℕ
agent_msg_header_len = 116

-- `&messages.AgentMessage{}`.
abbrev pub empty_message : AgentMessage
empty_message = record {
  header_length = 0;
  message_type = [];
  schema_version = 0;
  created_date = zero_time;
  sequence_number = 0;
  flags = 0;
  message_id = replicate 16 0;
  payload_digest = [];
  payload_type = 0;
  payload_length = 0;
  payload = [];
}
