-- ===== src/Messages/Codec.antt =====
-- `ValidateMessage`, `UnmarshalBinary` and `MarshalBinary` of messages/message.go. SHA-256 is a
-- parameter. A method that mutates `*AgentMessage` returns the new record.
use ssmlib.Common.{
  ◌+◌, ◌-◌, Bytes, Bool, true, false, ◌&&◌, ◌||◌, not, List, [], ◌∷◌, ◌++◌, flatten, Option, none,
  some, length, take, drop, slice, ltb, ◌==◌, if◌then◌else◌,
}
use ssmlib.Common.Words.{u32}
use ssmlib.Errors.{Error, Reason, invalid_agent_message}
use ssmlib.Messages.Types.{start_publication, pause_publication}
use ssmlib.Messages.Wire.{
  Time, zero_time, unix_nano, be32, be64, big_endian, unix_milli, parse_time,
}
use ssmlib.Messages.Text.{bytes_eq, parse_message_type, convert_message_type}
use ssmlib.Messages.Message.{AgentMessage, agent_msg_header_len}
use ssmlib.Messages.Create.{Result, ok, err}

-- `IsZero`.
abbrev pub is_zero : Time → Bool
is_zero zero_time = true
is_zero (unix_nano n) = false

-- On the 16 bytes of an id: the halves change places.
unfoldable pub format_uuid_bytes : Bytes → Bytes
format_uuid_bytes s = drop 8 s ++ take 8 s

-- How `UnmarshalBinary` ends. `panicked` is Go's "slice bounds out of range".
pub data Outcome : Type 0 where
  done : Outcome
  failed : Error → Outcome
  panicked : Outcome

abbrev pub outcome : Option Error → Outcome
outcome none = done
outcome (some e) = failed e

-- From `data[4:36]` to `data[80:112]`.
unfoldable pub read_basic_header : AgentMessage → Bytes → AgentMessage
read_basic_header m s = record m {
  message_type = parse_message_type (slice s 4 36);
  schema_version = big_endian (slice s 36 40);
  created_date = parse_time (slice s 40 48);
  sequence_number = big_endian (slice s 48 56);
  flags = big_endian (slice s 56 64);
  message_id = format_uuid_bytes (slice s 64 80);
  payload_digest = slice s 80 112;
}

-- The writes to the buffer, in order.
unfoldable pub wire : AgentMessage → List Bytes
wire m =
    be32 m.header_length
    ∷ convert_message_type m.message_type
    ∷ be32 m.schema_version
    ∷ be64 (unix_milli m.created_date)
    ∷ be64 m.sequence_number
    ∷ be64 m.flags
    ∷ format_uuid_bytes m.message_id
    ∷ take 32 m.payload_digest
    ∷ be32 m.payload_type
    ∷ be32 m.payload_length
    ∷ m.payload
    ∷ []

module _ (sha256 : Bytes → Bytes) where
  unfoldable pub validate_message : AgentMessage → Option Error
  validate_message m =
      if bytes_eq m.message_type start_publication || bytes_eq m.message_type pause_publication
      then none
      else if ltb agent_msg_header_len m.header_length
          || ltb m.header_length (agent_msg_header_len - 4)
      then some (invalid_agent_message Reason.header_length)
      else if ltb m.schema_version 1
      then some (invalid_agent_message Reason.schema_version)
      else if ltb (length m.message_type) 10
      then some (invalid_agent_message Reason.message_type)
      else if is_zero m.created_date
      then some (invalid_agent_message Reason.created_date)
      else if not (length m.message_id == 16)
      then some (invalid_agent_message Reason.message_id)
      else if not (length m.payload == m.payload_length)
      then some (invalid_agent_message Reason.payload_length)
      else if ltb 0 m.payload_length && not (bytes_eq (sha256 m.payload) m.payload_digest)
      then some (invalid_agent_message Reason.payload_digest)
      else none

  -- The end of the method, from `payloadLenEnd` on. The sums are of uint32 and wrap.
  unfoldable pub read_payload : AgentMessage → Bytes → AgentMessage × Outcome
  read_payload m s =
      let payload_len_end = u32 (m.header_length + 4) in
      let n = big_endian (slice s m.header_length payload_len_end) in
      let total_required = u32 (payload_len_end + n) in
      let m' = record m { payload_length = n } in
      let m'' = record m' { payload = slice s payload_len_end total_required } in
      if ltb (length s) payload_len_end
      then (m, failed (invalid_agent_message Reason.short_payload_length))
      else if ltb (length s) total_required
      then (m', failed (invalid_agent_message Reason.short_payload))
      else if ltb total_required payload_len_end
      then (m', panicked)
      else (m'', outcome (validate_message m''))

  -- The check of the header's end, for the messages whose header has a payload type.
  unfoldable pub read_payload_type : AgentMessage → Bytes → AgentMessage × Outcome
  read_payload_type m s =
      if m.header_length == agent_msg_header_len
      then (if ltb (length s) m.header_length
          then (m, failed (invalid_agent_message Reason.short_full_header))
          else read_payload (record m { payload_type = big_endian (slice s 112 m.header_length) })
              s)
      else read_payload m s

  unfoldable pub unmarshal_binary : AgentMessage → Bytes → AgentMessage × Outcome
  unmarshal_binary m s =
      let m' = record m { header_length = big_endian (slice s 0 4) } in
      if ltb (length s) 4
      then (m, failed (invalid_agent_message Reason.short_header_length))
      else if ltb agent_msg_header_len m'.header_length
          || ltb m'.header_length (agent_msg_header_len - 4)
      then (m', failed (invalid_agent_message Reason.header_length))
      else if ltb (length s) 112
      then (m', failed (invalid_agent_message Reason.short_basic_header))
      else read_payload_type (read_basic_header m' s) s

  -- `sha256PayloadDigest` and the payload's length, which `MarshalBinary` sets first.
  unfoldable pub seal : AgentMessage → AgentMessage
  seal m = record m { payload_digest = sha256 m.payload; payload_length = u32 (length m.payload) }

  unfoldable pub marshal_binary : AgentMessage → AgentMessage × Result Bytes
  marshal_binary m =
      let m' = seal m in
      (m', elim (validate_message m') [ some e ↦ err e | none ↦ ok (flatten (wire m')) ])
