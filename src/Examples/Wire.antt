-- ===== src/Examples/Wire.antt =====
-- messages/message.go on some messages and data.
use ssmlib.Common.{
  ℕ, ◌+◌, ◌^◌, ◌≤◌, ◌≡◌, refl, Bytes, codes, [], ◌∷◌, ◌++◌, Bool, true, ◌&&◌, none, length,
  replicate, All, ◌-◌, ltb, ltb→lt, leb, leb→le, Bool-cases, inl, inr, slice, arith,
}
use mathlib.Core.List.{flatten}
use ssmlib.Messages.Types.{output_stream_data}
use ssmlib.Messages.Wire.{unix_nano, be32, unix_milli, parse_time, big_endian}
use ssmlib.Messages.Text.{bytes_eq, IsPlain, parse_message_type, convert_message_type}
use ssmlib.Messages.Message.{AgentMessage, empty_message}
use ssmlib.Messages.Create.{ok}
use ssmlib.Messages.Codec.{
  wire, format_uuid_bytes, read_payload_type, read_basic_header, read_payload, done, panicked, seal,
  marshal_binary, unmarshal_binary, validate_message,
}
use ssmlib.Messages.RoundTrip.{IsSendable, unmarshal-marshal}
use ssmlib.Messages.Malformed.{IsByte, unmarshal_panics_iff, unmarshal_sound}
use ssmlib.Messages.Stages.{header_of, payload_of}

-- A digest of the right size.
abbrev pub zeros : Bytes → Bytes
zeros s = replicate 32 0

abbrev pub octets_ok : Bytes → Bool
octets_ok [] = true
octets_ok (b ∷ s) = ltb b 256 && octets_ok s

pub All-IsByte : (s : Bytes) → octets_ok s ≡ true → All IsByte s
All-IsByte [] h = tt
All-IsByte (b ∷ s) h = elim (Bool-cases (ltb b 256)) [
  | inl small ↦ (ltb→lt b 256 small, All-IsByte s (rw small at h))
  | inr big ↦ cc (rw big at h)
]

abbrev plain_ok : Bytes → Bool
plain_ok [] = true
plain_ok (c ∷ s) = (leb 0x21 c && leb c 0x7e) && plain_ok s

pub All-IsPlain : (s : Bytes) → plain_ok s ≡ true → All IsPlain s
All-IsPlain [] h = tt
All-IsPlain (c ∷ s) h = elim (Bool-cases (leb 0x21 c)) [
  | inl lo ↦ elim (Bool-cases (leb c 0x7e)) [
    | inl hi ↦ ((leb→le 0x21 c lo, leb→le c 0x7e hi), All-IsPlain s (rw (lo, hi) at h))
    | inr fails ↦ cc (rw (lo, fails) at h)
  ]
  | inr fails ↦ cc (rw fails at h)
]

-- A data message as it stands on the wire, with the number `q`.
abbrev pub data_message : ℕ → AgentMessage
data_message q = record empty_message {
  header_length = 116;
  message_type = output_stream_data;
  schema_version = 1;
  created_date = unix_nano 1700000000123456789;
  sequence_number = q;
  message_id = replicate 16 7;
  payload_digest = replicate 32 0;
  payload_type = 1;
  payload_length = 5;
  payload = codes "hello";
}

data_message-IsSendable : IsSendable (data_message 3) 1700000000123456789
data_message-IsSendable = record {
  go_types = record {
    header_length_u32 = omega arith;
    schema_version_u32 = omega arith;
    sequence_number_i64 = omega arith;
    flags_u64 = omega arith;
    message_id_array = refl;
    payload_type_u32 = omega arith;
    payload_length_u32 = omega arith;
  };
  full_header = refl;
  schema = omega arith;
  plain_type = All-IsPlain output_stream_data refl;
  type_min = omega arith;
  type_max = omega arith;
  dated = refl;
  after_1970 = omega arith;
  payload_fits = omega arith;
}

unmarshal-marshal_example :
    (written : Bytes) × (marshal_binary zeros (data_message 3)
      ≡ (seal zeros (data_message 3), ok written))
    × (unmarshal_binary zeros empty_message written ≡ (
      record (seal zeros (data_message 3)) { created_date = unix_nano 1700000000123000000 },
      done,
    ))
unmarshal-marshal_example =
    unmarshal-marshal zeros (λ s. refl) (data_message 3) empty_message 1700000000123456789
      data_message-IsSendable

-- A frame whose payload length is the greatest uint32.
abbrev pub huge : Bytes
huge = be32 116 ++ replicate 112 0 ++ be32 (2 ^ 32 - 1)

huge_header : header_of huge ≡ 116
unfolding big_endian
huge_header = refl

huge_payload : payload_of huge ≡ 2 ^ 32 - 1
unfolding big_endian
huge_payload = refl

unmarshal_panics_example : (unmarshal_binary zeros empty_message huge).1 ≡ panicked
unmarshal_panics_example =
    (unmarshal_panics_iff zeros empty_message huge (All-IsByte huge refl)).1 (
      omega (arith, huge_header),
      omega (arith, huge_header),
      omega (arith, huge_header),
      omega (arith, huge_header, huge_payload),
    )

-- What `MarshalBinary` makes of a data message.
abbrev pub frame : ℕ → Bytes
frame q = flatten (wire (data_message q))

pub frame_ok : (octets_ok (frame 0) ≡ true) × (octets_ok (frame 1) ≡ true)
unfolding flatten wire convert_message_type format_uuid_bytes unix_milli
frame_ok = (refl, refl)

-- The message that comes out of the frame.
abbrev arrived : AgentMessage
arrived = (unmarshal_binary zeros empty_message (frame 0)).0

frame_read : unmarshal_binary zeros empty_message (frame 0) ≡ (arrived, done)
unfolding unmarshal_binary flatten wire convert_message_type format_uuid_bytes big_endian
    read_payload_type read_basic_header read_payload validate_message bytes_eq parse_message_type
    parse_time
frame_read = refl

unmarshal_sound_example :
    (112 ≤ header_of (frame 0))
    × (header_of (frame 0) ≤ 116)
    × (header_of (frame 0) + 4 + payload_of (frame 0) ≤ length (frame 0))
    × (arrived.payload
        ≡ slice
            (frame 0)
            (header_of (frame 0) + 4)
            (header_of (frame 0) + 4 + payload_of (frame 0)))
    × (arrived.payload_length ≡ payload_of (frame 0))
    × (validate_message zeros arrived ≡ none)
unmarshal_sound_example =
    unmarshal_sound zeros empty_message arrived (frame 0) (All-IsByte (frame 0) frame_ok.0)
      frame_read
