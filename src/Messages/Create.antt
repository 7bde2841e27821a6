-- ===== src/Messages/Create.antt =====
-- The constructors of messages/message.go. `time.Now()` and `uuid.New()` are arguments, and so is
-- encoding/json: a function that may fail.
use ssmlib.Common.{
  ◌⊎◌, inl, inr, ◌≡◌, refl, ℕ, Bytes, codes, List, [], ◌∷◌, ◌++◌, map, if◌then◌else◌,
}
use ssmlib.Errors.{Error, create_terminal_resize, create_handshake, unmarshal_ack}
use ssmlib.Messages.AgentMessageFlag
use ssmlib.Messages.PayloadType
use ssmlib.Messages.PayloadTypeFlag
use ssmlib.Messages.Types.{
  RequestedClientAction, ProcessedClientAction, HandshakeResponsePayload, session_type, success,
  acknowledge, input_stream_data,
}
use ssmlib.Messages.Wire.{Time, be32}
use ssmlib.Messages.Text.{bytes_eq}
use ssmlib.Messages.Message.{AgentMessage, empty_message, agent_msg_header_len}
use mathlib.Core.List.{flat_map}

-- Go's pair of a value and an error.
pub data Result {ℓ} (A : Type ℓ) : Type ℓ where
  ok : A → Result A
  err : Error → Result A

pub Result-cases {ℓ} :
    {A : Type ℓ} (r : Result A) → ((a : A) × (r ≡ ok a)) ⊎ ((e : Error) × (r ≡ err e))
Result-cases (ok a) = inl (a, refl)
Result-cases (err e) = inr (e, refl)

unfoldable pub new_agent_message : Time → Bytes → AgentMessage
new_agent_message now id = record empty_message {
  header_length = agent_msg_header_len;
  schema_version = 1;
  created_date = now;
  message_id = id;
}

unfoldable pub new_stream_message : Time → Bytes → Bytes → AgentMessage
unfolding new_agent_message
new_stream_message now id s = record (new_agent_message now id) {
  message_type = input_stream_data;
  flags = AgentMessageFlag.plain;
  payload_type = PayloadType.output;
  payload = s;
}

-- `width` and `height` are handed to `json.Marshal` alone.
unfoldable pub new_size_message :
    {Size : Type 0} → (Size → Result Bytes) → Time → Bytes → Size → Result AgentMessage
unfolding new_agent_message
new_size_message marshal now id size = elim (marshal size) [
  | err e ↦ err (create_terminal_resize e)
  | ok payload ↦ ok (record (new_agent_message now id) {
    message_type = input_stream_data;
    flags = AgentMessageFlag.plain;
    payload_type = PayloadType.size;
    payload = payload;
  })
]

unfoldable pub new_terminate_session_message : Time → Bytes → AgentMessage
unfolding new_agent_message
new_terminate_session_message now id = record (new_agent_message now id) {
  message_type = input_stream_data;
  flags = AgentMessageFlag.fin;
  payload_type = PayloadType.flag;
  payload = be32 PayloadTypeFlag.terminate_session;
}

unfoldable pub new_acknowledgement_message : Time → Bytes → ℕ → Bytes → AgentMessage
unfolding new_agent_message
new_acknowledgement_message now id sequence_number s = record (new_agent_message now id) {
  message_type = acknowledge;
  sequence_number = sequence_number;
  flags = AgentMessageFlag.ack;
  payload_type = PayloadType.undefined;
  payload = s;
}

-- One round of the loop over the requested actions: what stands at index `i`.
unfoldable pub process_action : RequestedClientAction → ProcessedClientAction
process_action a =
    if bytes_eq a.action_type session_type
    then record {
      action_type = a.action_type;
      action_status = success;
      action_result = [];
      error = [];
    }
    else record {
      action_type = a.action_type;
      action_status = 0;
      action_result = codes "3";
      error = codes "Unsupported action " ++ a.action_type;
    }

-- What the round appends to `Errors`.
unfoldable pub process_errors : RequestedClientAction → List Bytes
unfolding process_action
process_errors a = if bytes_eq a.action_type session_type then [] else (process_action a).error ∷ []

unfoldable pub handshake_payload : Bytes → List RequestedClientAction → HandshakeResponsePayload
unfolding process_action process_errors flat_map
handshake_payload version actions = record {
  client_version = version;
  processed_client_actions = map process_action actions;
  errors = flat_map process_errors actions;
}

unfoldable pub new_handshake_response :
    (HandshakeResponsePayload → Result Bytes)
    → Time
    → Bytes
    → Bytes
    → List RequestedClientAction
    → Result AgentMessage
unfolding new_agent_message handshake_payload
new_handshake_response marshal now id version actions =
    elim (marshal (handshake_payload version actions)) [
      | err e ↦ err (create_handshake e)
      | ok payload ↦ ok (record (new_agent_message now id) {
        message_type = input_stream_data;
        flags = AgentMessageFlag.plain;
        payload_type = PayloadType.handshake_response;
        payload = payload;
      })
    ]

-- `unmarshal` is `json.Unmarshal` into the struct with the one int64.
unfoldable pub parse_acknowledgment : (Bytes → Result ℕ) → AgentMessage → Result ℕ
parse_acknowledgment unmarshal msg = elim (unmarshal msg.payload) [
  | err e ↦ err (unmarshal_ack e)
  | ok n ↦ ok n
]
