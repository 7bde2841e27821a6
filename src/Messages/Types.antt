-- ===== src/Messages/Types.antt =====
-- messages/types.go: the labels of the protocol and the payloads that travel as JSON.
use ssmlib.Common.{ℕ, Bytes, codes, List}

-- `type MessageType string`.
abbrev pub MessageType : Type 0
MessageType = Bytes

abbrev pub interactive_shell : MessageType
interactive_shell = codes "interactive_shell"

abbrev pub task_reply : MessageType
task_reply = codes "agent_task_reply"

abbrev pub task_complete : MessageType
task_complete = codes "agent_task_complete"

abbrev pub acknowledge : MessageType
acknowledge = codes "acknowledge"

abbrev pub agent_session : MessageType
agent_session = codes "agent_session_state"

abbrev pub channel_closed : MessageType
channel_closed = codes "channel_closed"

abbrev pub output_stream_data : MessageType
output_stream_data = codes "output_stream_data"

abbrev pub input_stream_data : MessageType
input_stream_data = codes "input_stream_data"

abbrev pub pause_publication : MessageType
pause_publication = codes "pause_publication"

abbrev pub start_publication : MessageType
start_publication = codes "start_publication"

-- `type ActionType string`.
abbrev pub kms_encryption : Bytes
kms_encryption = codes "KMSEncryption"

abbrev pub session_type : Bytes
session_type = codes "SessionType"

-- `ActionStatus`; 0 is the zero value, which none of the three constants names.
abbrev pub success : ℕ
success = 1

abbrev pub failed : ℕ
failed = 2

abbrev pub unsupported : ℕ
unsupported = 3

-- `ActionParameters` is held as its JSON text; nothing in the library reads it.
pub record RequestedClientAction : Type 0 where
  pub action_type : Bytes
  pub action_parameters : Bytes

pub record HandshakeRequestPayload : Type 0 where
  pub agent_version : Bytes
  pub requested_client_actions : List RequestedClientAction

pub record ProcessedClientAction : Type 0 where
  pub action_type : Bytes
  pub action_status : ℕ
  pub action_result : Bytes
  pub error : Bytes

pub record HandshakeResponsePayload : Type 0 where
  pub client_version : Bytes
  pub processed_client_actions : List ProcessedClientAction
  pub errors : List Bytes

-- The map that `sendAcknowledgeMessage` marshals; `IsSequentialMessage` is always true.
pub record AckContent : Type 0 where
  pub acknowledged_message_type : MessageType
  pub acknowledged_message_id : Bytes
  pub acknowledged_message_sequence_number : ℕ
