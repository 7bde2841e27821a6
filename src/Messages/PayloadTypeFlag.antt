-- ===== src/Messages/PayloadTypeFlag.antt =====
-- `PayloadTypeFlag` of messages/types.go, a uint32.
use ssmlib.Common.{ℕ}

abbrev pub disconnect_to_port : ℕ
disconnect_to_port = 1

abbrev pub terminate_session : ℕ
terminate_session = 2

abbrev pub connect_to_port_error : ℕ
connect_to_port_error = 3
