-- ===== src/Errors.antt =====
-- The error values of the packages: session.go, messages/message.go and handler/*.go. A sentinel
-- that wraps a cause (`fmt.Errorf("%w: %w", sentinel, cause)`) is a constructor over the cause.
use ssmlib.Common.{ℕ}

-- What the text of an `ErrInvalidAgentMessage` says.
pub data Reason : Type 0 where
  header_length schema_version message_type created_date message_id : Reason
  payload_length payload_digest : Reason
  short_header_length short_basic_header short_full_header : Reason
  short_payload_length short_payload : Reason

pub data Error : Type 0 where
  -- messages/message.go
  invalid_agent_message : Reason → Error
  create_terminal_resize create_handshake unmarshal_ack : Error → Error
  -- session.go
  websocket_dial_failed open_data_channel_failed : Error → Error
  marshal_handshake_failed write_handshake_failed : Error → Error
  remote_ssm_closed_pipe ack_timeout session_stop_requested : Error
  create_acknowledgment_failed queue_acknowledgment_failed session_stopped : Error → Error
  read_websocket_message_failed unmarshal_message_failed handler_start_failed : Error → Error
  close_failed : Error → Error → Error
  websocket_closed : Error
  read_websocket_failed : Error → Error
  marshal_outgoing_failed send_outgoing_failed : Error → Error
  -- handler/misc.go, handshake.go, stream.go and muxPortForward.go
  get_session_message write_data write_session_message read_data : Error → Error
  create_size_message write_size_message : Error → Error
  session_handshake unmarshal_handshake create_handshake_resp send_handshake_resp : Error → Error
  handshake_failed create_smux_client_failed failed_dial : Error → Error
  remote_version_not_supported stream_stop_requested mux_stop_requested : Error
  -- an error that comes from outside: a context, a socket, a reader, a JSON coder
  external : ℕ → Error
