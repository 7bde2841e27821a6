-- ===== src/Messages/Layout.antt =====
-- Where the fields of a message stand in what `MarshalBinary` of messages/message.go writes.
use ssmlib.Common.{
  ◌+◌, ◌≡◌, ◌∙◌, Bytes, [], flatten, length, length-append, length-drop, length-take, take, drop,
  slice, slice-flatten, length-flatten, arith,
}
use ssmlib.Messages.Wire.{be32, be64, unix_milli}
use ssmlib.Messages.Text.{convert_message_type, length-convert_message_type}
use ssmlib.Messages.Message.{AgentMessage}
use ssmlib.Messages.Codec.{format_uuid_bytes, wire}

abbrev pub octets : AgentMessage → Bytes
octets m = flatten (wire m)

-- Where the fields of a message stand on the wire.
module _ (m : AgentMessage) (id : length m.message_id ≡ 16)
    (digest : length (take 32 m.payload_digest) ≡ 32) where
  pub length-format_uuid_bytes : length (format_uuid_bytes m.message_id) ≡ 16
  unfolding format_uuid_bytes
  length-format_uuid_bytes = omega (
    arith,
    length-append (drop 8 m.message_id) (take 8 m.message_id),
    length-drop 8 m.message_id,
    length-take 8 m.message_id,
  )

  pub slice-header_length : slice (octets m) 0 4 ≡ be32 m.header_length
  unfolding wire
  slice-header_length = slice-flatten (take 0 (wire m)) _ _ 0 4 (omega arith) (omega arith)

  pub slice-message_type : slice (octets m) 4 36 ≡ convert_message_type m.message_type
  unfolding wire
  slice-message_type =
      slice-flatten (take 1 (wire m)) _ _ 4 36
        (omega (arith, length-convert_message_type m.message_type))
        (omega (arith, length-convert_message_type m.message_type))

  pub slice-schema_version : slice (octets m) 36 40 ≡ be32 m.schema_version
  unfolding wire
  slice-schema_version =
      slice-flatten (take 2 (wire m)) _ _ 36 40
        (omega (arith, length-convert_message_type m.message_type))
        (omega (arith, length-convert_message_type m.message_type))

  pub slice-created_date : slice (octets m) 40 48 ≡ be64 (unix_milli m.created_date)
  unfolding wire
  slice-created_date =
      slice-flatten (take 3 (wire m)) _ _ 40 48
        (omega (arith, length-convert_message_type m.message_type))
        (omega (arith, length-convert_message_type m.message_type))

  pub slice-sequence_number : slice (octets m) 48 56 ≡ be64 m.sequence_number
  unfolding wire
  slice-sequence_number =
      slice-flatten (take 4 (wire m)) _ _ 48 56
        (omega (arith, length-convert_message_type m.message_type))
        (omega (arith, length-convert_message_type m.message_type))

  pub slice-flags : slice (octets m) 56 64 ≡ be64 m.flags
  unfolding wire
  slice-flags =
      slice-flatten (take 5 (wire m)) _ _ 56 64
        (omega (arith, length-convert_message_type m.message_type))
        (omega (arith, length-convert_message_type m.message_type))

  pub slice-message_id : slice (octets m) 64 80 ≡ format_uuid_bytes m.message_id
  unfolding wire
  slice-message_id =
      slice-flatten (take 6 (wire m)) _ _ 64 80
        (omega (arith, length-convert_message_type m.message_type, length-format_uuid_bytes))
        (omega (arith, length-convert_message_type m.message_type, length-format_uuid_bytes))

  pub slice-payload_digest : slice (octets m) 80 112 ≡ take 32 m.payload_digest
  unfolding wire
  slice-payload_digest =
      slice-flatten (take 7 (wire m)) _ _ 80 112
        (omega (arith, length-convert_message_type m.message_type, length-format_uuid_bytes))
        (omega (arith, length-convert_message_type m.message_type, length-format_uuid_bytes))

  pub slice-payload_type : slice (octets m) 112 116 ≡ be32 m.payload_type
  unfolding wire
  slice-payload_type =
      slice-flatten (take 8 (wire m)) _ _ 112 116
        (omega (arith, length-convert_message_type m.message_type, length-format_uuid_bytes))
        (omega (arith, length-convert_message_type m.message_type, length-format_uuid_bytes))

  pub slice-payload_length : slice (octets m) 116 120 ≡ be32 m.payload_length
  unfolding wire
  slice-payload_length =
      slice-flatten (take 9 (wire m)) _ _ 116 120
        (omega (arith, length-convert_message_type m.message_type, length-format_uuid_bytes))
        (omega (arith, length-convert_message_type m.message_type, length-format_uuid_bytes))

  pub length-octets : length (octets m) ≡ 120 + length m.payload
  unfolding wire
  length-octets =
      length-flatten (wire m)
      ∙ omega (arith, length-convert_message_type m.message_type, length-format_uuid_bytes)

  pub slice-payload : slice (octets m) 120 (120 + length m.payload) ≡ m.payload
  unfolding wire
  slice-payload =
      slice-flatten (take 10 (wire m)) _ [] 120 (120 + length m.payload)
        (omega (arith, length-convert_message_type m.message_type, length-format_uuid_bytes))
        (omega arith)
